-- ===== src/Hash/Iterate/Defs.antt =====
-- hash.c, `hash_iterate` and `hash_remove_bucket`. The elements of a chain have addresses here, and a chain
-- is the list of them in the order of the `next` pointers. Reading an element that is not in its chain is a
-- fault.
use batman_adv_userspace.Base.{
  ℕ, zero, suc, ◌==◌, List, [], ◌∷◌, Bool, true, false, Option, none, some, if◌then◌else◌, ◌>>=◌,
  get_elem?, set, drop,
}

-- `struct hash_it_t`. `first_bucket`, where it is not NULL, points to the slot of the table at `index`, so
-- it is the test for NULL.
pub record HashIt : Type 0 where
  pub index : ℕ
  pub bucket : Option ℕ
  pub prev_bucket : Option ℕ
  pub first_bucket : Bool

-- Are the two pointers the same?
unfoldable pub same_bucket : Option ℕ → Option ℕ → Bool
same_bucket none none = true
same_bucket (some a) (some b) = a == b
same_bucket none (some b) = false
same_bucket (some a) none = false

module _ {ℓ} {D : Type ℓ} where
  unfoldable pub first_of : List (ℕ × D) → Option ℕ
  first_of [] = none
  first_of ((p, d) ∷ bucket) = some p

  -- `p->next`
  unfoldable pub next_bucket : ℕ → List (ℕ × D) → Option (Option ℕ)
  unfolding first_of
  next_bucket p [] = none
  next_bucket p ((q, d) ∷ bucket) = if q == p then some (first_of bucket) else next_bucket p bucket

  -- The checks whether the element was removed; true where the function returns.
  unfoldable pub sanity : List (ℕ × D) → HashIt → Option (Bool × HashIt)
  unfolding first_of next_bucket same_bucket
  sanity chain it = elim it.bucket [
    | none ↦ some (false, it)
    | some b ↦
        if it.first_bucket
        then (elim (first_of chain) [
          | none ↦ some (false, record it { bucket = none })
          | some f ↦
              if f == b
              then some (false, it)
              else some
                  (true, record it { prev_bucket = none; bucket = some f; first_bucket = true })
        ])
        else (elim it.prev_bucket [
          | none ↦ some (false, it)
          | some p ↦ (do
            next ← next_bucket p chain
            some (false, (if same_bucket next (some b) then it else record it { bucket = some p })))
        ])
  ]

  -- The step to the next element of the chain; true where there is one.
  unfoldable pub advance : List (ℕ × D) → HashIt → Option (Bool × HashIt)
  unfolding next_bucket
  advance chain it = elim it.bucket [
    | none ↦ some (false, it)
    | some b ↦ (do
      next ← next_bucket b chain
      elim next [
        | none ↦ some (false, it)
        | some n ↦
            some (true, record it { prev_bucket = some b; bucket = some n; first_bucket = false })
      ])
  ]

  -- The loop over the slots of the table from `index` on; `none` is NULL.
  unfoldable pub search_from : ℕ → List (List (ℕ × D)) → Option HashIt
  unfolding first_of
  search_from index [] = none
  search_from index (chain ∷ chains) = elim (first_of chain) [
    | none ↦ search_from (suc index) chains
    | some f ↦
        some record { index = index; bucket = some f; prev_bucket = none; first_bucket = true }
  ]

  -- Both within the chain: true where the function returns.
  unfoldable pub step_in : List (ℕ × D) → HashIt → Option (Bool × HashIt)
  unfolding sanity advance
  step_in chain it = do
    (found, it) ← sanity chain it
    if found then some (true, it) else advance chain it

  unfoldable pub hash_iterate : List (List (ℕ × D)) → Option HashIt → Option (Option HashIt)
  unfolding step_in search_from
  hash_iterate table none = some (search_from 0 table)
  hash_iterate table (some it) = do
    chain ← get_elem? table it.index
    (found, it) ← step_in chain it
    if found then some (some it) else some (search_from (suc it.index) (drop (suc it.index) table))

  unfoldable pub data_at : ℕ → List (ℕ × D) → Option D
  data_at p [] = none
  data_at p ((q, d) ∷ bucket) = if q == p then some d else data_at p bucket

  -- What is behind an element of the chain.
  unfoldable pub behind : ℕ → List (ℕ × D) → Option (List (ℕ × D))
  behind p [] = none
  behind p ((q, d) ∷ bucket) = if q == p then some bucket else behind p bucket

  -- `p->next = b->next`
  unfoldable pub relink : ℕ → ℕ → List (ℕ × D) → Option (List (ℕ × D))
  unfolding behind
  relink p b [] = none
  relink p b ((q, d) ∷ bucket) =
      let rest = relink p b bucket in
      elim (if q == p then behind b bucket else rest) [ none ↦ none | some c ↦ some ((q, d) ∷ c) ]

  -- The chain that `hash_remove_bucket` leaves. An iterator with neither pointer would leave the freed
  -- element in its chain: a fault.
  unfoldable pub unlink_present : ℕ → HashIt → List (ℕ × D) → Option (List (ℕ × D))
  unfolding relink behind
  unlink_present b it chain = elim it.prev_bucket [
    | some p ↦ relink p b chain
    | none ↦ if it.first_bucket then behind b chain else none
  ]

  unfoldable pub remove_present : List (List (ℕ × D)) → HashIt → Option (List (List (ℕ × D)))
  unfolding unlink_present
  remove_present table it = do
    chain ← get_elem? table it.index
    b ← it.bucket
    c ← unlink_present b it chain
    some (set table it.index c)

  unfoldable pub present_data : List (List (ℕ × D)) → HashIt → Option D
  unfolding data_at
  present_data table it = do chain ← get_elem? table it.index; b ← it.bucket; data_at b chain

module _ {ℓ} {D : Type ℓ} (gone : D → Bool) where
  -- A loop over the table that removes the elements with `gone` as it meets them: the data that it
  -- sees and the table that it leaves, on fuel.
  unfoldable pub walk_table :
      ℕ → List (List (ℕ × D)) → Option HashIt → Option (List D × List (List (ℕ × D)))
  unfolding hash_iterate present_data remove_present
  walk_table zero table it = none
  walk_table (suc fuel) table it = do
    next ← hash_iterate table it
    elim next [
      | none ↦ some ([], table)
      | some at ↦ (do
        d ← present_data table at
        left ← (if gone d then remove_present table at else some table)
        (seen, after) ← walk_table fuel left (some at)
        some (d ∷ seen, after))
    ]
