-- ===== src/Hash/Iterate/Step.antt =====
-- One call of `hash_iterate` within a chain, after the present element was kept or removed.
use batman_adv_userspace.Base.{
  ℕ, ◌==◌, ◌≡◌, refl, List, [], ◌∷◌, ◌++◌, Bool, true, false, Option, some, Returns, arith, listed,
  Distinct,
}
use batman_adv_userspace.Hash.Iterate.Defs.{HashIt, first_of, same_bucket, sanity, advance, step_in}
use batman_adv_userspace.Hash.Iterate.Buckets.{
  addrs, Kept, nothing, upto, chain_with, stands, grow, around_lem, next_bucket-at, next_bucket_lem,
}

-- The walk of the chain is over, and the search goes on behind its slot.
abbrev pub Ends : ℕ → Option (Bool × HashIt) → Type 0
Ends i r = Returns r λ x. (x.0 ≡ false) × (x.1.index ≡ i)

module _ {ℓ} {D : Type ℓ} (i : ℕ) (b : ℕ) (d : D) where
  -- The iterator set back to the element before the one that was removed.
  abbrev at_prev : ℕ → HashIt
  at_prev p = record { index = i; bucket = some p; prev_bucket = some p; first_bucket = false }

  stays_sane :
      (k : Kept D) (rest : List (ℕ × D))
      → Distinct (addrs (chain_with k ((b, d) ∷ rest)))
      → sanity (chain_with k ((b, d) ∷ rest)) (stands i k b) ≡ some (false, stands i k b)
  unfolding sanity stands chain_with first_of same_bucket
  stays_sane nothing rest u = let same : (b == b) ≡ true = ground arith in rw (sanity, same) refl
  stays_sane (upto ks p e) rest u =
      let same : (b == b) ≡ true = ground arith in
      let A = around_lem ks p e b d rest u in
      rw (sanity, next_bucket-at p e ((b, d) ∷ rest) ks A.p_out, first_of, same_bucket, same) refl

  pub kept_more :
      (k : Kept D) (c : ℕ) (x : D) (rest : List (ℕ × D))
      → Distinct (addrs (chain_with k ((b, d) ∷ (c, x) ∷ rest)))
      → step_in (chain_with k ((b, d) ∷ (c, x) ∷ rest)) (stands i k b)
        ≡ some (true, stands i (grow k b d) c)
  unfolding step_in advance stands grow first_of
  kept_more nothing c x rest u =
      rw
        (
          step_in,
          stays_sane nothing ((c, x) ∷ rest) u,
          advance,
          next_bucket_lem b d ((c, x) ∷ rest) nothing u,
        )
        refl
  kept_more (upto ks p e) c x rest u =
      rw
        (
          step_in,
          stays_sane (upto ks p e) ((c, x) ∷ rest) u,
          advance,
          next_bucket_lem b d ((c, x) ∷ rest) (upto ks p e) u,
        )
        refl

  pub kept_end :
      (k : Kept D)
      → Distinct (addrs (chain_with k ((b, d) ∷ [])))
      → Ends i (step_in (chain_with k ((b, d) ∷ [])) (stands i k b))
  unfolding step_in advance stands first_of
  kept_end nothing u = (
    (false, stands {D = D} i nothing b),
    rw (step_in, stays_sane nothing [] u, advance, next_bucket_lem b d [] nothing u) refl,
    (refl, refl),
  )
  kept_end (upto ks p e) u = (
    (false, stands i (upto ks p e) b),
    rw (step_in, stays_sane (upto ks p e) [] u, advance, next_bucket_lem b d [] (upto ks p e) u)
        refl,
    (refl, refl),
  )

  pub removed_more :
      (k : Kept D) (c : ℕ) (x : D) (rest : List (ℕ × D))
      → Distinct (addrs (chain_with k ((b, d) ∷ (c, x) ∷ rest)))
      → step_in (chain_with k ((c, x) ∷ rest)) (stands i k b) ≡ some (true, stands i k c)
  unfolding step_in sanity advance stands chain_with first_of same_bucket listed addrs Distinct
  removed_more nothing c x rest (new, u) =
      let other : (c == b) ≡ false = ground (arith, new) in rw (step_in, sanity, other) refl
  removed_more (upto ks p e) c x rest u =
      let A = around_lem ks p e b d ((c, x) ∷ rest) u in
      let other : (c == b) ≡ false = ground (arith, A.b_rest) in
      let next = next_bucket-at p e ((c, x) ∷ rest) ks A.p_out in
      let back : sanity (ks ++ (p, e) ∷ (c, x) ∷ rest) (stands {D = D} i (upto ks p e) b)
          ≡ some (false, at_prev p) =
        rw (sanity, next, first_of, same_bucket, other) refl in
      rw (step_in, back, advance, next) refl

  pub removed_end :
      (k : Kept D)
      → Distinct (addrs (chain_with k ((b, d) ∷ [])))
      → Ends i (step_in (chain_with k []) (stands i k b))
  unfolding step_in sanity advance stands chain_with first_of same_bucket
  removed_end nothing u = (_, refl, (refl, refl))
  removed_end (upto ks p e) u =
      let A = around_lem ks p e b d [] u in
      let next = next_bucket-at p e [] ks A.p_out in
      (
        (false, at_prev p),
        rw (step_in, sanity, next, first_of, same_bucket, advance, next) refl,
        (refl, refl),
      )
