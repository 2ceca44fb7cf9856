-- ===== src/Address/Defs.antt =====
-- originator.c, `compare_orig` and `choose_orig`: the callbacks of both hash tables.
use batman_adv_userspace.Base.{
  ℕ, ◌+◌, ◌*◌, ◌/◌, ◌%◌, ◌^◌, bit_xor, List, [], ◌∷◌, if◌then◌else◌, bytes_eq,
}
use batman_adv_userspace.Hash.{Callbacks}
use batman_adv_userspace.Mesh.{Mac, Ref}

-- `memcmp` of the six bytes: 0 where they are the same, and here 1 elsewhere.
unfoldable pub compare_orig : Mac → Mac → ℕ
compare_orig data1 data2 = if bytes_eq data1 data2 then 0 else 1

-- The uint32_t accumulator over the bytes of the key.
unfoldable pub hash_bytes : ℕ → List ℕ → ℕ
hash_bytes hash [] = hash
hash_bytes hash (byte ∷ key) =
    let added = (hash + byte) % 2 ^ 32 in
    let mixed = (added + added * 2 ^ 10 % 2 ^ 32) % 2 ^ 32 in
    hash_bytes (bit_xor mixed (mixed / 2 ^ 6)) key

unfoldable pub choose_orig : Mac → ℕ → ℕ
unfolding hash_bytes
choose_orig key size =
    let hash = hash_bytes 0 key in
    let added = (hash + hash * 2 ^ 3 % 2 ^ 32) % 2 ^ 32 in
    let mixed = bit_xor added (added / 2 ^ 11) in (mixed + mixed * 2 ^ 15 % 2 ^ 32) % 2 ^ 32 % size

abbrev pub mac_callbacks : Callbacks Ref
mac_callbacks = record {
  compare = λ a b. compare_orig a.key b.key;
  choose = λ a n. choose_orig a.key n;
}
