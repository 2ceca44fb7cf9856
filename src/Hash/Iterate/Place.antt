-- ===== src/Hash/Iterate/Place.antt =====
-- One call of `hash_iterate` at a place of the table, and one round of a loop over it.
use batman_adv_userspace.Base.{
  ℕ, suc, ◌≡◌, refl, ap, ◌∙◌, List, [], ◌∷◌, ◌++◌, Bool, true, false, Option, none, some,
  if◌then◌else◌, ◌>>=◌, Distinct, length, get_elem?, set, drop,
}
use batman_adv_userspace.Hash.Iterate.Defs.{
  HashIt, search_from, step_in, hash_iterate, present_data, remove_present, walk_table,
}
use batman_adv_userspace.Hash.Iterate.Buckets.{addrs, Kept, nothing, upto, stands}
use batman_adv_userspace.Hash.Iterate.Step.{Ends}

module _ {ℓ} {A : Type ℓ} (c : A) (after : List A) where
  pub get_elem?-middle :
      (before : List A) → get_elem? (before ++ c ∷ after) (length before) ≡ some c
  get_elem?-middle [] = refl
  get_elem?-middle (x ∷ before) = get_elem?-middle before

  pub set-middle :
      (v : A) (before : List A) → set (before ++ c ∷ after) (length before) v ≡ before ++ v ∷ after
  set-middle v [] = refl
  set-middle v (x ∷ before) = ap (λ (l : List A). x ∷ l) (set-middle v before)

  drop-middle : (before : List A) → drop (suc (length before)) (before ++ c ∷ after) ≡ after
  drop-middle [] = refl
  drop-middle (x ∷ before) = drop-middle before

-- Every chain has its elements at different addresses.
unfoldable pub AreChains {ℓ} : {D : Type ℓ} → List (List (ℕ × D)) → Type 0
AreChains [] = Unit
AreChains (c ∷ cs) = Distinct (addrs c) × AreChains cs

module _ {ℓ} {D : Type ℓ} where
  -- The data of the table, chain by chain.
  unfoldable pub chain_data : List (ℕ × D) → List D
  chain_data [] = []
  chain_data ((p, d) ∷ c) = d ∷ chain_data c

  unfoldable pub table_data : List (List (ℕ × D)) → List D
  unfolding chain_data
  table_data [] = []
  table_data (c ∷ cs) = chain_data c ++ table_data cs

module _ {ℓ} {D : Type ℓ} (gone : D → Bool) where
  -- What is not removed.
  unfoldable pub staying : List (ℕ × D) → List (ℕ × D)
  staying [] = []
  staying ((p, d) ∷ c) = if gone d then staying c else (p, d) ∷ staying c

  unfoldable pub staying_all : List (List (ℕ × D)) → List (List (ℕ × D))
  unfolding staying
  staying_all [] = []
  staying_all (c ∷ cs) = staying c ∷ staying_all cs

pub stands_index {ℓ} : {D : Type ℓ} (i : ℕ) (k : Kept D) (b : ℕ) → (stands i k b).index ≡ i
unfolding stands
stands_index i nothing b = refl
stands_index i (upto ks p e) b = refl

pub stands_bucket {ℓ} : {D : Type ℓ} (i : ℕ) (k : Kept D) (b : ℕ) → (stands i k b).bucket ≡ some b
unfolding stands
stands_bucket i nothing b = refl
stands_bucket i (upto ks p e) b = refl

-- One call at a place of the table.
module _ {ℓ} {D : Type ℓ} (done todo : List (List (ℕ × D))) (chain : List (ℕ × D))
    (it : HashIt) where
  at_place : it.index ≡ length done → get_elem? (done ++ chain ∷ todo) it.index ≡ some chain
  at_place at =
      ap (λ (i : ℕ). get_elem? (done ++ chain ∷ todo) i) at ∙ get_elem?-middle chain todo done

  pub iterate_more :
      (next : HashIt)
      → it.index ≡ length done
      → step_in chain it ≡ some (true, next)
      → hash_iterate (done ++ chain ∷ todo) (some it) ≡ some (some next)
  unfolding hash_iterate
  iterate_more next at step = rw (hash_iterate, at_place at, step) refl

  pub iterate_end :
      it.index ≡ length done
      → Ends (length done) (step_in chain it)
      → hash_iterate (done ++ chain ∷ todo) (some it) ≡ some (search_from (suc (length done)) todo)
  unfolding hash_iterate
  iterate_end at ((found, after), step, (not_found, where_it)) =
      rw (hash_iterate, at_place at, step, not_found, where_it)
        (ap (λ (cs : List (List (ℕ × D))). some (search_from (suc (length done)) cs))
          (drop-middle chain todo done))

module _ {ℓ} {D : Type ℓ} (gone : D → Bool) where
  -- What the loop does with what `hash_iterate` returned.
  unfoldable pub arrive :
      ℕ → List (List (ℕ × D)) → Option HashIt → Option (List D × List (List (ℕ × D)))
  unfolding present_data remove_present walk_table
  arrive fuel table none = some ([], table)
  arrive fuel table (some at) = do
    d ← present_data table at
    left ← (if gone d then remove_present table at else some table)
    (seen, after) ← walk_table gone fuel left (some at)
    some (d ∷ seen, after)

  pub walk_step :
      (fuel : ℕ) (table : List (List (ℕ × D))) (it next : Option HashIt)
      → hash_iterate table it ≡ some next
      → walk_table gone (suc fuel) table it ≡ arrive fuel table next
  unfolding walk_table arrive
  walk_step fuel table it none h = rw (walk_table, h) refl
  walk_step fuel table it (some at) h = rw (walk_table, h) refl

  pub arrive_kept :
      (fuel : ℕ) (table : List (List (ℕ × D))) (at : HashIt) (d : D) {seen : List D}
      {after : List (List (ℕ × D))}
      → gone d ≡ false
      → present_data table at ≡ some d
      → walk_table gone fuel table (some at) ≡ some (seen, after)
      → arrive fuel table (some at) ≡ some (d ∷ seen, after)
  unfolding arrive
  arrive_kept fuel table at d g p w = rw (arrive, p, g, w) refl

  pub arrive_removed :
      (fuel : ℕ) (table left : List (List (ℕ × D))) (at : HashIt) (d : D) {seen : List D}
      {after : List (List (ℕ × D))}
      → gone d ≡ true
      → present_data table at ≡ some d
      → remove_present table at ≡ some left
      → walk_table gone fuel left (some at) ≡ some (seen, after)
      → arrive fuel table (some at) ≡ some (d ∷ seen, after)
  unfolding arrive
  arrive_removed fuel table left at d g p r w = rw (arrive, p, g, r, w) refl
