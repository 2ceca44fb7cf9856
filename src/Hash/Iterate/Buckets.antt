-- ===== src/Hash/Iterate/Buckets.antt =====
-- Chains of elements at different addresses: what each helper of the iterator finds around an element.
use batman_adv_userspace.Base.{
  ℕ, ◌==◌, ◌≡◌, refl, ap, List, [], ◌∷◌, ◌++◌, true, false, none, some, arith, listed, Distinct,
  listed-append, Distinct-remove,
}
use mathlib.Core.Path.{subst}
use mathlib.Core.List.{append_assoc}
use batman_adv_userspace.Hash.Iterate.Defs.{
  HashIt, first_of, next_bucket, data_at, behind, relink, unlink_present,
}

module _ {ℓ} {D : Type ℓ} where
  -- The addresses of the elements.
  unfoldable pub addrs : List (ℕ × D) → List ℕ
  addrs [] = []
  addrs ((p, d) ∷ c) = p ∷ addrs c

  pub addrs-append : (xs ys : List (ℕ × D)) → addrs (xs ++ ys) ≡ addrs xs ++ addrs ys
  unfolding addrs
  addrs-append [] ys = refl
  addrs-append ((p, d) ∷ xs) ys = ap (λ (l : List ℕ). p ∷ l) (addrs-append xs ys)

-- What is left of a chain before the present element: nothing, or elements up to the one at `p`.
pub data Kept {ℓ} (D : Type ℓ) : Type ℓ where
  nothing : Kept D
  upto : List (ℕ × D) → ℕ → D → Kept D

module _ {ℓ} {D : Type ℓ} where
  unfoldable pub chain_with : Kept D → List (ℕ × D) → List (ℕ × D)
  chain_with nothing rest = rest
  chain_with (upto ks p e) rest = ks ++ (p, e) ∷ rest

  -- The iterator at the element `b` behind them.
  unfoldable pub stands : ℕ → Kept D → ℕ → HashIt
  stands i nothing b = record {
    index = i;
    bucket = some b;
    prev_bucket = none;
    first_bucket = true;
  }
  stands i (upto ks p e) b = record {
    index = i;
    bucket = some b;
    prev_bucket = some p;
    first_bucket = false;
  }

  unfoldable pub grow : Kept D → ℕ → D → Kept D
  grow nothing b d = upto [] b d
  grow (upto ks p e) b d = upto (ks ++ (p, e) ∷ []) b d

  pub chain_with-grow :
      (k : Kept D) (b : ℕ) (d : D) (rest : List (ℕ × D))
      → chain_with (grow k b d) rest ≡ chain_with k ((b, d) ∷ rest)
  unfolding chain_with grow
  chain_with-grow nothing b d rest = refl
  chain_with-grow (upto ks p e) b d rest = append_assoc ks ((p, e) ∷ []) ((b, d) ∷ rest)

module _ {ℓ} {D : Type ℓ} (b : ℕ) (d : D) (rest : List (ℕ × D)) where
  -- At an element behind others.
  pub next_bucket-at :
      (ks : List (ℕ × D))
      → listed b (addrs ks) ≡ false
      → next_bucket b (ks ++ (b, d) ∷ rest) ≡ some (first_of rest)
  unfolding next_bucket listed addrs
  next_bucket-at [] h = ground arith
  next_bucket-at ((p, e) ∷ ks) h =
      let apart : (p == b) ≡ false = ground (arith, h) in
      rw (next_bucket, apart) (next_bucket-at ks (ground (arith, h)))

  pub data_at-at :
      (ks : List (ℕ × D)) → listed b (addrs ks) ≡ false → data_at b (ks ++ (b, d) ∷ rest) ≡ some d
  unfolding data_at listed addrs
  data_at-at [] h = ground arith
  data_at-at ((p, e) ∷ ks) h =
      let apart : (p == b) ≡ false = ground (arith, h) in
      rw (data_at, apart) (data_at-at ks (ground (arith, h)))

  behind-at : behind b ((b, d) ∷ rest) ≡ some rest
  unfolding behind
  behind-at = ground arith

  relink-at :
      (p : ℕ) (e : D) (ks : List (ℕ × D))
      → listed p (addrs ks) ≡ false
      → relink p b (ks ++ (p, e) ∷ (b, d) ∷ rest) ≡ some (ks ++ (p, e) ∷ rest)
  unfolding relink listed addrs behind
  relink-at p e [] h =
      let same : (p == p) ≡ true = ground arith in rw (relink, same, behind-at) refl
  relink-at p e ((q, x) ∷ ks) h =
      let apart : (q == p) ≡ false = ground (arith, h) in
      rw (relink, apart, relink-at p e ks (ground (arith, h))) refl

-- How the addresses before and behind the present element differ from it.
pub record Around {ℓ} {D : Type ℓ} (ks : List (ℕ × D)) (p b : ℕ) (rest : List (ℕ × D))
    : Type ℓ where
  pub p_out : listed p (addrs ks) ≡ false
  pub b_out : listed b (addrs ks) ≡ false
  pub apart : (p == b) ≡ false
  pub b_rest : listed b (addrs rest) ≡ false

pub around_lem {ℓ} :
    {D : Type ℓ} (ks : List (ℕ × D)) (p : ℕ) (e : D) (b : ℕ) (d : D) (rest : List (ℕ × D))
    → Distinct (addrs (ks ++ (p, e) ∷ (b, d) ∷ rest))
    → Around ks p b rest
unfolding listed addrs
around_lem ks p e b d rest u =
    let whole : Distinct (addrs ks ++ p ∷ b ∷ addrs rest) =
      subst Distinct (addrs-append ks ((p, e) ∷ (b, d) ∷ rest)) u in
    let P = Distinct-remove (addrs ks) (b ∷ addrs rest) p whole in
    let B = Distinct-remove (addrs ks) (addrs rest) b P.distinct in
    record {
      p_out = ground (arith, P.absent, listed-append p (addrs ks) (b ∷ addrs rest));
      b_out = ground (arith, B.absent, listed-append b (addrs ks) (addrs rest));
      apart = ground (arith, P.absent, listed-append p (addrs ks) (b ∷ addrs rest));
      b_rest = ground (arith, B.absent, listed-append b (addrs ks) (addrs rest));
    }

module _ {ℓ} {D : Type ℓ} (b : ℕ) (d : D) (rest : List (ℕ × D)) where
  -- hash_remove_bucket takes the present element out of its chain.
  pub unlink_present_lem :
      (i : ℕ) (k : Kept D)
      → Distinct (addrs (chain_with k ((b, d) ∷ rest)))
      → unlink_present b (stands i k b) (chain_with k ((b, d) ∷ rest)) ≡ some (chain_with k rest)
  unfolding unlink_present chain_with stands
  unlink_present_lem i nothing u = behind-at b d rest
  unlink_present_lem i (upto ks p e) u =
      relink-at b d rest p e ks (around_lem ks p e b d rest u).p_out

  pub data_at_lem :
      (k : Kept D)
      → Distinct (addrs (chain_with k ((b, d) ∷ rest)))
      → data_at b (chain_with k ((b, d) ∷ rest)) ≡ some d
  unfolding chain_with listed addrs
  data_at_lem nothing u = data_at-at b d rest [] refl
  data_at_lem (upto ks p e) u =
      let A = around_lem ks p e b d rest u in
      let out : listed b (addrs (ks ++ (p, e) ∷ [])) ≡ false =
        rw (addrs-append ks ((p, e) ∷ []))
          (ground (arith, A.b_out, A.apart, listed-append b (addrs ks) (p ∷ []))) in
      rw (← append_assoc ks ((p, e) ∷ []) ((b, d) ∷ rest))
        (data_at-at b d rest (ks ++ (p, e) ∷ []) out)

  pub next_bucket_lem :
      (k : Kept D)
      → Distinct (addrs (chain_with k ((b, d) ∷ rest)))
      → next_bucket b (chain_with k ((b, d) ∷ rest)) ≡ some (first_of rest)
  unfolding chain_with listed addrs
  next_bucket_lem nothing u = next_bucket-at b d rest [] refl
  next_bucket_lem (upto ks p e) u =
      let A = around_lem ks p e b d rest u in
      let out : listed b (addrs (ks ++ (p, e) ∷ [])) ≡ false =
        rw (addrs-append ks ((p, e) ∷ []))
          (ground (arith, A.b_out, A.apart, listed-append b (addrs ks) (p ∷ []))) in
      rw (← append_assoc ks ((p, e) ∷ []) ((b, d) ∷ rest))
        (next_bucket-at b d rest (ks ++ (p, e) ∷ []) out)
