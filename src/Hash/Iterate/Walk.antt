-- ===== src/Hash/Iterate/Walk.antt =====
-- A walk over the whole table with removals: it ends, sees every entry once and in order, and leaves the
-- entries that were not to be removed.
use batman_adv_userspace.Base.{
  ℕ, zero, suc, ◌+◌, ◌≤◌, ◌≡◌, refl, sym, ap, ap₂, ◌∙◌, List, [], ◌∷◌, ◌++◌, Bool, true, false,
  none, some, arith, Distinct, Distinct-remove, length, inl, inr, Bool-cases, length-append,
}
use mathlib.Core.Path.{subst}
use mathlib.Core.List.{append_assoc}
use batman_adv_userspace.Hash.Iterate.Defs.{
  HashIt, first_of, search_from, hash_iterate, present_data, remove_present, walk_table,
}
use batman_adv_userspace.Hash.Iterate.Buckets.{
  addrs, addrs-append, Kept, nothing, upto, chain_with, stands, grow, chain_with-grow,
  unlink_present_lem, data_at_lem,
}
use batman_adv_userspace.Hash.Iterate.Step.{kept_more, kept_end, removed_more, removed_end}
use batman_adv_userspace.Hash.Iterate.Place.{
  AreChains, chain_data, table_data, staying, staying_all, stands_index, stands_bucket,
  iterate_more, iterate_end, arrive, walk_step, arrive_kept, arrive_removed, get_elem?-middle,
  set-middle,
}

-- The chain stays one of different addresses when the present element is taken out.
chain_less {ℓ} :
    {D : Type ℓ} (k : Kept D) (b : ℕ) (d : D) (rest : List (ℕ × D))
    → Distinct (addrs (chain_with k ((b, d) ∷ rest)))
    → Distinct (addrs (chain_with k rest))
unfolding chain_with addrs Distinct
chain_less nothing b d rest (new, u) = u
chain_less (upto ks p e) b d rest u =
    let whole = subst Distinct (addrs-append ks ((p, e) ∷ (b, d) ∷ rest)) u in
    let P : Distinct ((addrs ks ++ p ∷ []) ++ b ∷ addrs rest) =
      rw (append_assoc (addrs ks) (p ∷ []) (b ∷ addrs rest)) whole in
    let B = Distinct-remove (addrs ks ++ p ∷ []) (addrs rest) b P in
    rw (addrs-append ks ((p, e) ∷ rest), ← append_assoc (addrs ks) (p ∷ []) (addrs rest)) B.distinct

remove_at {ℓ} :
    {D : Type ℓ} (done todo : List (List (ℕ × D))) (k : Kept D) (b : ℕ) (d : D)
    (rest : List (ℕ × D))
    → Distinct (addrs (chain_with k ((b, d) ∷ rest)))
    → remove_present (done ++ chain_with k ((b, d) ∷ rest) ∷ todo) (stands (length done) k b)
      ≡ some (done ++ chain_with k rest ∷ todo)
unfolding remove_present stands chain_with
remove_at done todo nothing b d rest u =
    rw
      (
        remove_present,
        get_elem?-middle ((b, d) ∷ rest) todo done,
        unlink_present_lem b d rest (length done) nothing u,
      )
      (ap some (set-middle ((b, d) ∷ rest) todo rest done))
remove_at done todo (upto ks p e) b d rest u =
    rw
      (
        remove_present,
        get_elem?-middle (ks ++ (p, e) ∷ (b, d) ∷ rest) todo done,
        unlink_present_lem b d rest (length done) (upto ks p e) u,
      )
      (ap some (set-middle (ks ++ (p, e) ∷ (b, d) ∷ rest) todo (ks ++ (p, e) ∷ rest) done))

module _ {ℓ} {D : Type ℓ} (done todo : List (List (ℕ × D))) (k : Kept D) (b : ℕ) (d : D)
    (rest : List (ℕ × D)) (u : Distinct (addrs (chain_with k ((b, d) ∷ rest)))) where
  present_data_lem :
      present_data (done ++ chain_with k ((b, d) ∷ rest) ∷ todo) (stands (length done) k b) ≡ some d
  unfolding present_data
  present_data_lem =
      rw
        (
          present_data,
          stands_index (length done) k b,
          stands_bucket (length done) k b,
          get_elem?-middle (chain_with k ((b, d) ∷ rest)) todo done,
        )
        (data_at_lem b d rest k u)

module _ {ℓ} {D : Type ℓ} (gone : D → Bool) where
  -- From any place, the rest of the table is walked.
  abbrev Continues : List (List (ℕ × D)) → Type ℓ
  Continues todo =
      (done : List (List (ℕ × D))) (fuel : ℕ)
      → length (table_data todo) ≤ fuel
      → arrive gone fuel (done ++ todo) (search_from (length done) todo)
        ≡ some (table_data todo, done ++ staying_all gone todo)

  next_chain :
      (done todo : List (List (ℕ × D))) (chain : List (ℕ × D)) (fuel : ℕ)
      → Continues todo
      → length (table_data todo) ≤ fuel
      → arrive gone fuel (done ++ chain ∷ todo) (search_from (suc (length done)) todo)
        ≡ some (table_data todo, done ++ chain ∷ staying_all gone todo)
  next_chain done todo chain fuel cont le =
      let size : length (done ++ chain ∷ []) ≡ suc (length done) =
        length-append done (chain ∷ []) ∙ omega arith in
      ap₂ (λ (t : List (List (ℕ × D))) (i : ℕ). arrive gone fuel t (search_from i todo))
        (sym (append_assoc done (chain ∷ []) todo)) (sym size)
      ∙ cont (done ++ chain ∷ []) fuel le
      ∙ ap (λ (t : List (List (ℕ × D))). some (table_data todo, t))
          (append_assoc done (chain ∷ []) (staying_all gone todo))

  -- The rest of the walk where a chain is over.
  over_lem :
      (done todo : List (List (ℕ × D))) (chain : List (ℕ × D)) (it : HashIt) (fuel : ℕ)
      → hash_iterate (done ++ chain ∷ todo) (some it) ≡ some (search_from (suc (length done)) todo)
      → Continues todo
      → length (table_data todo) ≤ fuel
      → walk_table gone (suc fuel) (done ++ chain ∷ todo) (some it)
        ≡ some (table_data todo, done ++ chain ∷ staying_all gone todo)
  over_lem done todo chain it fuel h cont le =
      walk_step gone fuel (done ++ chain ∷ todo) (some it) (search_from (suc (length done)) todo) h
      ∙ next_chain done todo chain fuel cont le

  -- What is walked from an element on, with the elements `k` left before it.
  Visits : List (List (ℕ × D)) → List (List (ℕ × D)) → Kept D → ℕ → D → List (ℕ × D) → ℕ → Type ℓ
  Visits done todo k b d rest fuel =
      arrive gone (suc fuel) (done ++ chain_with k ((b, d) ∷ rest) ∷ todo)
        (some (stands (length done) k b))
      ≡ some (
        d ∷ (chain_data rest ++ table_data todo),
        done ++ chain_with k (staying gone ((b, d) ∷ rest)) ∷ staying_all gone todo,
      )

  visit_last :
      (done todo : List (List (ℕ × D))) (k : Kept D) (b : ℕ) (d : D) (fuel : ℕ)
      → Distinct (addrs (chain_with k ((b, d) ∷ [])))
      → Continues todo
      → length (table_data todo) ≤ fuel
      → Visits done todo k b d [] fuel
  unfolding Visits staying chain_data
  visit_last done todo k b d fuel u cont le =
      let i = length done in
      let seen = present_data_lem done todo k b d [] u in
      let at = stands_index i k b in
      elim (Bool-cases (gone d)) [
        | inl g ↦
            let left =
              over_lem done todo (chain_with k []) (stands i k b) fuel
                (iterate_end done todo (chain_with k []) (stands i k b) at (removed_end i b d k u))
                cont le in
            rw (Visits, staying, g)
              (arrive_removed gone (suc fuel) _ (done ++ chain_with k [] ∷ todo) (stands i k b) d g
                seen (remove_at done todo k b d [] u) left)
        | inr g ↦
            let left =
              over_lem done todo (chain_with k ((b, d) ∷ [])) (stands i k b) fuel
                (iterate_end done todo (chain_with k ((b, d) ∷ [])) (stands i k b) at
                  (kept_end i b d k u))
                cont le in
            rw (Visits, staying, g) (arrive_kept gone (suc fuel) _ (stands i k b) d g seen left)
      ]

  -- With one more element in the chain.
  more_removed :
      (done todo : List (List (ℕ × D))) (k : Kept D) (b : ℕ) (d : D) (c : ℕ) (x : D)
      (rest : List (ℕ × D)) (fuel : ℕ)
      → Distinct (addrs (chain_with k ((b, d) ∷ (c, x) ∷ rest)))
      → gone d ≡ true
      → Visits done todo k c x rest fuel
      → Visits done todo k b d ((c, x) ∷ rest) (suc fuel)
  unfolding Visits staying chain_data
  more_removed done todo k b d c x rest fuel u g later =
      let i = length done in
      let next =
        iterate_more done todo (chain_with k ((c, x) ∷ rest)) (stands i k b) (stands i k c)
          (stands_index i k b) (removed_more i b d k c x rest u) in
      rw (Visits, staying, g)
        (arrive_removed gone (suc (suc fuel)) _ (done ++ chain_with k ((c, x) ∷ rest) ∷ todo)
          (stands i k b) d g (present_data_lem done todo k b d ((c, x) ∷ rest) u)
          (remove_at done todo k b d ((c, x) ∷ rest) u)
          (walk_step gone (suc fuel) _ (some (stands i k b)) (some (stands i k c)) next ∙ later))

  more_kept :
      (done todo : List (List (ℕ × D))) (k : Kept D) (b : ℕ) (d : D) (c : ℕ) (x : D)
      (rest : List (ℕ × D)) (fuel : ℕ)
      → Distinct (addrs (chain_with k ((b, d) ∷ (c, x) ∷ rest)))
      → gone d ≡ false
      → Visits done todo (grow k b d) c x rest fuel
      → Visits done todo k b d ((c, x) ∷ rest) (suc fuel)
  unfolding Visits staying chain_data
  more_kept done todo k b d c x rest fuel u g later =
      let i = length done in
      let chain = chain_with k ((b, d) ∷ (c, x) ∷ rest) in
      let next =
        iterate_more done todo chain (stands i k b) (stands i (grow k b d) c) (stands_index i k b)
          (kept_more i b d k c x rest u) in
      let from : arrive gone (suc fuel) (done ++ chain ∷ todo) (some (stands i (grow k b d) c))
          ≡ some (
            x ∷ (chain_data rest ++ table_data todo),
            done ++ chain_with k ((b, d) ∷ staying gone ((c, x) ∷ rest)) ∷ staying_all gone todo,
          ) =
        rw
          (
            ← chain_with-grow k b d ((c, x) ∷ rest),
            ← chain_with-grow k b d (staying gone ((c, x) ∷ rest)),
          )
          later in
      rw (Visits, staying, g)
        (arrive_kept gone (suc (suc fuel)) _ (stands i k b) d g
          (present_data_lem done todo k b d ((c, x) ∷ rest) u)
          (walk_step gone (suc fuel) _ (some (stands i k b)) (some (stands i (grow k b d) c)) next
            ∙ from))

  visit_lem :
      (done todo : List (List (ℕ × D))) (k : Kept D) (b : ℕ) (d : D) (rest : List (ℕ × D))
      (fuel : ℕ)
      → Distinct (addrs (chain_with k ((b, d) ∷ rest)))
      → Continues todo
      → length (chain_data rest) + length (table_data todo) ≤ fuel
      → Visits done todo k b d rest fuel
  unfolding chain_data
  visit_lem done todo k b d [] fuel u cont le =
      visit_last done todo k b d fuel u cont (omega (arith, le))
  visit_lem done todo k b d ((c, x) ∷ rest) zero u cont le = absurd omega (arith, le)
  visit_lem done todo k b d ((c, x) ∷ rest) (suc fuel) u cont le = elim (Bool-cases (gone d)) [
    | inl g ↦ more_removed done todo k b d c x rest fuel u g (
        visit_lem done todo k c x rest fuel (chain_less k b d ((c, x) ∷ rest) u) cont
          (omega (arith, le)))
    | inr g ↦ more_kept done todo k b d c x rest fuel u g (
        visit_lem done todo (grow k b d) c x rest fuel
          (rw (chain_with-grow k b d ((c, x) ∷ rest)) u) cont (omega (arith, le)))
  ]

  continues_lem : (todo : List (List (ℕ × D))) → AreChains todo → Continues todo
  unfolding AreChains table_data chain_data staying_all staying search_from arrive first_of Visits
      stands chain_with
  continues_lem [] u done fuel le = refl
  continues_lem ([] ∷ cs) (v, u) done fuel le = next_chain done cs [] fuel (continues_lem cs u) le
  continues_lem (((b, d) ∷ rest) ∷ cs) (v, u) done zero le = absurd omega (arith, le)
  continues_lem (((b, d) ∷ rest) ∷ cs) (v, u) done (suc fuel) le =
      visit_lem done cs nothing b d rest fuel v (continues_lem cs u)
        (omega (arith, length-append (chain_data rest) (table_data cs), le))

-- A loop with hash_iterate that removes elements by hash_remove_bucket as it meets them ends, after one
-- step more than there are elements: it sees the data of every element of the table once, chain by
-- chain, and leaves the elements that were not to be removed, in their order. The elements of a chain have
-- different addresses.
pub walk_table_lem {ℓ} :
    {D : Type ℓ} (gone : D → Bool) (table : List (List (ℕ × D))) (fuel : ℕ)
    → AreChains table
    → length (table_data table) ≤ fuel
    → walk_table gone (suc fuel) table none ≡ some (table_data table, staying_all gone table)
unfolding hash_iterate
walk_table_lem gone table fuel u le =
    walk_step gone fuel table none (search_from 0 table) refl
    ∙ continues_lem gone table u [] fuel le
