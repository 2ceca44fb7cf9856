-- ===== src/Tests/Tables.antt =====
-- hash.c and the table of originators on concrete tables.
use batman_adv_userspace.Base.{◌∷◌, [], ◌≡◌, some, true, arith, Returns, ap, set}
use batman_adv_userspace.Hash.{
  HashTable, IsValid, view, Adds, Removes, hash_new, hash_init, chain_add, hash_add, hash_remove,
  hash_resize, hash_new_lem, hash_add_lem, hash_remove_lem, hash_resize_lem,
}
use batman_adv_userspace.Address.{mac_callbacks, mac_callbacks-IsLawful, choose_orig, hash_bytes}
use batman_adv_userspace.Originator.{get_orig_node, get_orig_node_lem, Gets}
use batman_adv_userspace.Mesh.{Ref, Mesh}
use batman_adv_userspace.Tests.Data.{mac_a, mac_b, table4, mesh}

abbrev ref_a : Ref
ref_a = record { ptr = 5; key = mac_a }

abbrev ref_b : Ref
ref_b = record { ptr = 6; key = mac_b }

table4-IsValid : IsValid mac_callbacks table4
unfolding hash_new hash_init
table4-IsValid =
    let (e, made, (v, _, _, _)) =
      hash_new_lem mac_callbacks mac_callbacks-IsLawful 4 (omega arith) in
    let is : table4 ≡ e = cc made in rw is v

-- The table with one originator.
abbrev one : HashTable Ref
one = record { table = set table4.table (choose_orig mac_a 4) (ref_a ∷ []); elements = 1; size = 4 }

one-IsValid : IsValid mac_callbacks one
unfolding hash_add chain_add choose_orig hash_bytes
one-IsValid =
    let (e, made, A) = hash_add_lem mac_callbacks mac_callbacks-IsLawful ref_a table4-IsValid in
    let is : (true, one) ≡ e = cc made in rw (ap (λ x. x.1) is) A.valid

hash_add_example :
    Returns
      (hash_add mac_callbacks true one ref_b)
      (Adds mac_callbacks mac_callbacks-IsLawful one ref_b)
hash_add_example = hash_add_lem mac_callbacks mac_callbacks-IsLawful ref_b one-IsValid

hash_remove_example :
    Returns
      (hash_remove mac_callbacks one ref_a)
      (Removes mac_callbacks mac_callbacks-IsLawful one ref_a)
hash_remove_example = hash_remove_lem mac_callbacks mac_callbacks-IsLawful ref_a one-IsValid

hash_resize_example :
    (r : HashTable Ref) × (hash_resize mac_callbacks true true one 8 ≡ some (some r))
    × IsValid mac_callbacks r
    × (r.size ≡ 8)
    × (r.elements ≡ 1)
    × ((q : Ref) → view mac_callbacks r q ≡ view mac_callbacks one q)
hash_resize_example =
    hash_resize_lem mac_callbacks mac_callbacks-IsLawful 8 one-IsValid (omega arith)

abbrev mesh_one : Mesh
mesh_one = record mesh { orig_hash = one }

get_orig_node_example : Returns (get_orig_node 32 mac_b mesh_one) (Gets mac_b mesh_one)
get_orig_node_example = get_orig_node_lem 32 mac_b mesh_one one-IsValid
