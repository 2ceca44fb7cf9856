-- ===== src/Originator/Lookup.antt =====
-- `get_orig_node` and `find_orig_node` together.
use batman_adv_userspace.Base.{
  ℕ, ◌+◌, ◌*◌, ◌≡◌, refl, ap, ◌∙◌, sym, List, [], ◌∷◌, Option, none, some, true, ◌⊎◌, inl, inr,
  arith, Bool-cases, Option-cases, if◌then◌else◌, Returns, length, ltb, ◌==◌, ==_iff,
}
use batman_adv_userspace.Hash.{
  HashTable, IsValid, view, hash_find_lem, hash_add_lem, hash_resize_lem, chain_find,
}
use batman_adv_userspace.Address.{
  mac_callbacks, mac_callbacks-IsLawful, compare_orig, compare_orig→eq,
}
use batman_adv_userspace.Mesh.{Mac, Ref, Mesh, ◌>>=◌}
use batman_adv_userspace.Originator.Nodes.{find_orig_node, grow_orig_hash, get_orig_node, new_orig}

-- The reference that a lookup is made with.
abbrev key_of : ℕ → Mac → Ref
key_of p addr = record { ptr = p; key = addr }

-- A lookup reads the key only.
find-key :
    (p p' : ℕ) (addr : Mac) (c : List Ref)
    → chain_find mac_callbacks (key_of p addr) c ≡ chain_find mac_callbacks (key_of p' addr) c
unfolding chain_find
find-key p p' addr [] = refl
find-key p p' addr (r ∷ c) = rw (find-key p p' addr c)

view-key :
    (h : HashTable Ref) (p p' : ℕ) (addr : Mac)
    → view mac_callbacks h (key_of p addr) ≡ view mac_callbacks h (key_of p' addr)
unfolding view
view-key h p p' addr = find-key p p' addr _

-- Whether the table has an originator of this address, and which.
abbrev pub lookup : Mesh → Mac → Option Ref
lookup h addr = view mac_callbacks h.orig_hash (key_of 0 addr)

find_orig_node-some :
    (h : Mesh) (addr : Mac) (r : Ref)
    → IsValid mac_callbacks h.orig_hash
    → lookup h addr ≡ some r
    → find_orig_node addr h ≡ some (some r.ptr, h)
unfolding find_orig_node
find_orig_node-some h addr r v e =
    rw (find_orig_node, hash_find_lem mac_callbacks mac_callbacks-IsLawful (key_of 0 addr) v, e)
      refl

find_orig_node-none :
    (h : Mesh) (addr : Mac)
    → IsValid mac_callbacks h.orig_hash
    → lookup h addr ≡ none
    → find_orig_node addr h ≡ some (none, h)
unfolding find_orig_node
find_orig_node-none h addr v e =
    rw (find_orig_node, hash_find_lem mac_callbacks mac_callbacks-IsLawful (key_of 0 addr) v, e)
      refl

-- Growing the table keeps all that it stands for.
record Grows (h : Mesh) (r : Unit {0} × Mesh) : Type 0 where
  valid : IsValid mac_callbacks r.1.orig_hash
  reads : (q : Ref) → view mac_callbacks r.1.orig_hash q ≡ view mac_callbacks h.orig_hash q
  rest : r.1 ≡ record h { orig_hash = r.1.orig_hash }

grow_orig_hash_lem :
    (k : ℕ) (h : Mesh) → IsValid mac_callbacks h.orig_hash → Returns (grow_orig_hash k h) (Grows h)
unfolding grow_orig_hash
grow_orig_hash_lem k h v = elim (Bool-cases (ltb h.orig_hash.size (h.orig_hash.elements * 4))) [
  | inr e ↦ (
    (tt, h),
    rw (grow_orig_hash, ◌>>=◌, e) refl,
    record { valid = v; reads = λ q. refl; rest = refl },
  )
  | inl e ↦
      let (t, run, tv, _, _, reads) =
        hash_resize_lem mac_callbacks mac_callbacks-IsLawful {h = h.orig_hash}
          (h.orig_hash.size * 2) v (omega (arith, v.roomy)) in
      (
        (tt, record h { orig_hash = t }),
        rw (grow_orig_hash, ◌>>=◌, e, run) refl,
        record { valid = tv; reads = reads; rest = refl },
      )
]

-- The pointer that a lookup returns.
abbrev ptr_part : Option (Option ℕ × Mesh) → Option ℕ
ptr_part none = none
ptr_part (some (o, h)) = o

abbrev ptr_of : Option Ref → Option ℕ
ptr_of none = none
ptr_of (some r) = some r.ptr

-- What `get_orig_node` returns, and leaves behind: a valid table, in which a lookup of the address finds
-- the pointer that was returned, and any other finds what it found before; and the state is as it was
-- unless the address was not there.
pub record Gets (addr : Mac) (h : Mesh) (r : ℕ × Mesh) : Type 0 where
  pub valid : IsValid mac_callbacks r.1.orig_hash
  pub finds :
      (a : Mac)
      → find_orig_node a r.1
        ≡ some ((if compare_orig addr a == 0 then some r.0 else ptr_part (find_orig_node a h)), r.1)
  pub unchanged : (r.1 ≡ h) ⊎ (ptr_part (find_orig_node addr h) ≡ none)

find_orig_node_lem :
    (h : Mesh) (a : Mac)
    → IsValid mac_callbacks h.orig_hash
    → find_orig_node a h ≡ some (ptr_of (lookup h a), h)
unfolding find_orig_node
find_orig_node_lem h a v = elim (Option-cases (lookup h a)) [
  | inl e ↦ rw e (find_orig_node-none h a v e)
  | inr (r, e) ↦ rw e (find_orig_node-some h a r v e)
]

-- A lookup where the address is there.
finds_known :
    (addr : Mac) (h : Mesh) (r : Ref)
    → IsValid mac_callbacks h.orig_hash
    → lookup h addr ≡ some r
    → (a : Mac)
    → find_orig_node a h
      ≡ some ((if compare_orig addr a == 0 then some r.ptr else ptr_part (find_orig_node a h)), h)
finds_known addr h r v e a = elim (Bool-cases (compare_orig addr a == 0)) [
  | inl s ↦
      let one = compare_orig→eq addr a ((==_iff _ 0).0 s) in
      rw s (find_orig_node-some h a r v (ap (lookup h) (sym one) ∙ e))
  | inr s ↦ let all = find_orig_node_lem h a v in rw (s, all) refl
]

get_orig_node_known :
    (k : ℕ) (addr : Mac) (h : Mesh) (r : Ref)
    → IsValid mac_callbacks h.orig_hash
    → lookup h addr ≡ some r
    → Returns (get_orig_node k addr h) (Gets addr h)
unfolding get_orig_node
get_orig_node_known k addr h r v e =
    let found = find_orig_node-some h addr r v e in
    (
      (r.ptr, h),
      rw (get_orig_node, ◌>>=◌, found) refl,
      record { valid = v; finds = finds_known addr h r v e; unchanged = inl refl },
    )

-- A lookup in a table with a new one added.
finds_new :
    (addr : Mac) (h h'' : Mesh) (d : Ref) (a : Mac)
    → IsValid mac_callbacks h.orig_hash
    → IsValid mac_callbacks h''.orig_hash
    → lookup h'' a ≡ (if compare_orig addr a == 0 then some d else lookup h a)
    → find_orig_node a h''
      ≡ some ((if compare_orig addr a == 0 then some d.ptr else ptr_part (find_orig_node a h)), h'')
finds_new addr h h'' d a v v'' reads = elim (Bool-cases (compare_orig addr a == 0)) [
  | inl s ↦ rw (s, find_orig_node_lem h'' a v'', reads, s) refl
  | inr s ↦ rw (s, find_orig_node_lem h'' a v'', find_orig_node_lem h a v, reads, s) refl
]

get_orig_node_new :
    (k : ℕ) (addr : Mac) (h : Mesh)
    → IsValid mac_callbacks h.orig_hash
    → lookup h addr ≡ none
    → Returns (get_orig_node k addr h) (Gets addr h)
unfolding get_orig_node
get_orig_node_new k addr h v e =
    let d = key_of h.next addr in
    let ((b, t), added, A) =
      hash_add_lem mac_callbacks mac_callbacks-IsLawful {h = h.orig_hash} d v in
    let fresh : b ≡ true = A.status ∙ rw (view-key h.orig_hash h.next 0 addr, e) refl in
    let h' : Mesh = record h {
      origs = (h.next, new_orig k addr (length h.if_list)) ∷ h.origs;
      orig_hash = t;
      next = h.next + 1;
    } in
    let ((_, h''), grown, G) = grow_orig_hash_lem k h' A.valid in
    let reads : (a : Mac)
        → lookup h'' a ≡ (if compare_orig addr a == 0 then some d else lookup h a) =
      λ a. G.reads (key_of 0 a) ∙ A.reads (key_of 0 a) ∙ rw fresh refl in
    (
      (h.next, h''),
      rw (get_orig_node, ◌>>=◌, find_orig_node-none h addr v e, added, grown) refl,
      record {
        valid = G.valid;
        finds = λ a. finds_new addr h h'' d a v G.valid (reads a);
        unchanged = inr (ap ptr_part (find_orig_node-none h addr v e));
      },
    )

-- On a valid table `get_orig_node` does not fault and leaves a valid table, in which `find_orig_node`
-- finds the pointer it returned under this address, and under every other address what it found
-- before, through a resize too; where the address was there it changes nothing.
pub get_orig_node_lem :
    (k : ℕ) (addr : Mac) (h : Mesh)
    → IsValid mac_callbacks h.orig_hash
    → Returns (get_orig_node k addr h) (Gets addr h)
get_orig_node_lem k addr h v = elim (Option-cases (lookup h addr)) [
  | inl e ↦ get_orig_node_new k addr h v e
  | inr (r, e) ↦ get_orig_node_known k addr h r v e
]
