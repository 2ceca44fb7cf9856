-- ===== src/Hash/Defs.antt =====
-- hash.c: a table of chains over abstract data with two callbacks. A chain of `struct element_t` is
-- the list of the data pointers that its elements hold, from `table[index]` on. An index out of the
-- table is a fault (`none`). `malloc` is an argument where the code tests its result; the debugging
-- output of `hash_debug` is not modelled.
use batman_adv_userspace.Base.{
  ℕ, ◌+◌, ◌-◌, ◌<◌, ◌≡◌, List, [], ◌∷◌, ◌++◌, Bool, true, false, Option, none, some, ◌==◌,
  if◌then◌else◌, ◌>>=◌, get_elem?, set, replicate,
}

-- `hashdata_compare_cb` (0 if same) and `hashdata_choose_cb`, on what a `void *` of the table's
-- users points to.
pub record Callbacks {ℓ} (D : Type ℓ) : Type ℓ where
  pub compare : D → D → ℕ
  pub choose : D → ℕ → ℕ

-- What the comments of hash.h ask of the callbacks: `compare` returns 0 on same keys, and `choose`
-- returns an index below the size, based on the key.
pub record IsLawful {ℓ} {D : Type ℓ} (cb : Callbacks D) : Type ℓ where
  pub compare_refl : (a : D) → cb.compare a a ≡ 0
  pub compare_symm : (a b : D) → cb.compare a b ≡ 0 → cb.compare b a ≡ 0
  pub compare_trans : (a b c : D) → cb.compare a b ≡ 0 → cb.compare b c ≡ 0 → cb.compare a c ≡ 0
  pub choose-lt : (a : D) (n : ℕ) → 0 < n → cb.choose a n < n
  pub choose_congr : (a b : D) (n : ℕ) → cb.compare a b ≡ 0 → cb.choose a n ≡ cb.choose b n

-- `struct hashtable_t` without its callbacks, which the section below holds.
pub record HashTable {ℓ} (D : Type ℓ) : Type ℓ where
  pub table : List (List D)
  pub elements : ℕ
  pub size : ℕ

module _ {ℓ} {D : Type ℓ} where
  -- `hash_init`: every chain NULL.
  unfoldable pub hash_init : HashTable D → HashTable D
  hash_init hash = record hash { table = replicate hash.size []; elements = 0 }

  -- `control` and `table` tell whether the two allocations succeed; NULL is `none`.
  unfoldable pub hash_new : Bool → Bool → ℕ → Option (HashTable D)
  unfolding hash_init
  hash_new control table size =
      if control
      then (if table
          then some (hash_init (record { table = []; elements = 0; size = size }))
          else none)
      else none

  -- The elements of a table, chain by chain.
  unfoldable pub entries : List (List D) → List D
  entries [] = []
  entries (c ∷ cs) = c ++ entries cs

  -- `hash_delete`: what `free_cb` gets, in that order, before the table itself is freed.
  unfoldable pub hash_delete : HashTable D → List D
  unfolding entries
  hash_delete hash = entries hash.table

module _ {ℓ} {D : Type ℓ} (cb : Callbacks D) where
  -- The walk of `hash_find` along a chain.
  unfoldable pub chain_find : D → List D → Option D
  chain_find keydata [] = none
  chain_find keydata (d ∷ bucket) =
      if cb.compare d keydata == 0 then some d else chain_find keydata bucket

  -- The walk of `hash_add`: `none` where the key is there, and else the chain with `data` linked at
  -- its tail.
  unfoldable pub chain_add : D → List D → Option (List D)
  chain_add item [] = some (item ∷ [])
  chain_add item (d ∷ bucket) =
      let rest = chain_add item bucket in
      if cb.compare d item == 0 then none else elim rest [ none ↦ none | some c ↦ some (d ∷ c) ]

  -- The walk of `hash_remove`: what is removed, and the chain that `hash_remove_bucket` leaves.
  unfoldable pub chain_remove : D → List D → Option (D × List D)
  chain_remove item [] = none
  chain_remove item (d ∷ bucket) =
      let rest = chain_remove item bucket in
      if cb.compare d item == 0
      then some (d, bucket)
      else elim rest [ none ↦ none | some (e, c) ↦ some (e, d ∷ c) ]

  -- The returned Boolean is true for 0 and false for -1; `malloc` tells whether the allocation of the
  -- new element succeeds.
  unfoldable pub hash_add : Bool → HashTable D → D → Option (Bool × HashTable D)
  unfolding chain_add
  hash_add malloc hash item = do
    bucket ← get_elem? hash.table (cb.choose item hash.size)
    elim (chain_add item bucket) [
      | none ↦ some (false, hash)
      | some c ↦
          if malloc
          then some (
            true,
            record hash {
              table = set hash.table (cb.choose item hash.size) c;
              elements = hash.elements + 1;
            },
          )
          else some (false, hash)
    ]

  unfoldable pub hash_find : HashTable D → D → Option (Option D)
  unfolding chain_find
  hash_find hash keydata = do
    bucket ← get_elem? hash.table (cb.choose keydata hash.size)
    some (chain_find keydata bucket)

  unfoldable pub hash_remove : HashTable D → D → Option (Option D × HashTable D)
  unfolding chain_remove
  hash_remove hash item = do
    bucket ← get_elem? hash.table (cb.choose item hash.size)
    elim (chain_remove item bucket) [
      | none ↦ some (none, hash)
      | some (d, c) ↦ some (
        some d,
        record hash {
          table = set hash.table (cb.choose item hash.size) c;
          elements = hash.elements - 1;
        },
      )
    ]

  -- The copying loops of `hash_resize`; what `hash_add` returns is not looked at.
  unfoldable pub copy_chain : HashTable D → List D → Option (HashTable D)
  unfolding hash_add
  copy_chain new_hash [] = some new_hash
  copy_chain new_hash (d ∷ bucket) = do (_, next) ← hash_add true new_hash d; copy_chain next bucket

  unfoldable pub copy_table : HashTable D → List (List D) → Option (HashTable D)
  unfolding copy_chain
  copy_table new_hash [] = some new_hash
  copy_table new_hash (c ∷ cs) = do next ← copy_chain new_hash c; copy_table next cs

  -- A failing allocation inside `hash_add` ends the program, so it is not an outcome here; the
  -- returned table is NULL (inner `none`) where `hash_new` is.
  unfoldable pub hash_resize : Bool → Bool → HashTable D → ℕ → Option (Option (HashTable D))
  unfolding copy_table hash_new
  hash_resize control table hash size = elim (hash_new {D = D} control table size) [
    | none ↦ some none
    | some new_hash ↦ do copied ← copy_table new_hash hash.table; some (some copied)
  ]
