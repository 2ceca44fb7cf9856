-- ===== src/Hash/Chain.antt =====
-- One chain: what a walk along it finds, adds and removes.
use batman_adv_userspace.Base.{
  ℕ, ◌+◌, ◌≡◌, refl, ◌∙◌, sym, List, [], ◌∷◌, ◌++◌, none, some, ◌==◌, if◌then◌else◌, arith, inl,
  inr, Bool-cases, Option-cases, length, Bool, true, false,
}
use batman_adv_userspace.Hash.Defs.{Callbacks, IsLawful, chain_find, chain_add, chain_remove}

module _ {ℓ} {D : Type ℓ} (cb : Callbacks D) where
  -- The comparison of the code as a test: are the keys the same?
  abbrev pub same : D → D → Bool
  same d q = cb.compare d q == 0

  -- How many data of a chain have the key of `q`.
  unfoldable pub hits : D → List D → ℕ
  hits q [] = 0
  hits q (d ∷ c) = if same d q then hits q c + 1 else hits q c

  pub hits-append : (q : D) (a b : List D) → hits q (a ++ b) ≡ hits q a + hits q b
  unfolding hits
  hits-append q [] b = omega arith
  hits-append q (d ∷ a) b = ground (arith, hits-append q a b)

  pub find_of_hits : (q : D) (c : List D) → hits q c ≡ 0 → chain_find cb q c ≡ none
  unfolding hits chain_find
  find_of_hits q [] h = refl
  find_of_hits q (d ∷ c) h = ground (arith, find_of_hits q c)

  pub hits_of_find : (q : D) (c : List D) → chain_find cb q c ≡ none → hits q c ≡ 0
  unfolding hits chain_find
  hits_of_find q [] h = refl
  hits_of_find q (d ∷ c) h = ground (arith, hits_of_find q c)

  pub find-append :
      (q d : D) (c : List D)
      → chain_find cb q (c ++ d ∷ [])
        ≡ elim (chain_find cb q c) [ some e ↦ some e | none ↦ if same d q then some d else none ]
  unfolding chain_find
  find-append q d [] = ground arith
  find-append q d (e ∷ c) = ground (arith, find-append q d c)

  -- A key that is there is not added; else the datum goes to the tail.
  pub chain_add_found :
      (d e : D) (c : List D) → chain_find cb d c ≡ some e → chain_add cb d c ≡ none
  unfolding chain_find chain_add
  chain_add_found d e [] h = cc
  chain_add_found d e (x ∷ c) h = ground (arith, chain_add_found d e c)

  pub chain_add_new :
      (d : D) (c : List D) → chain_find cb d c ≡ none → chain_add cb d c ≡ some (c ++ d ∷ [])
  unfolding chain_find chain_add
  chain_add_new d [] h = refl
  chain_add_new d (x ∷ c) h = ground (arith, chain_add_new d c)

  pub chain_remove_absent :
      (d : D) (c : List D) → chain_find cb d c ≡ none → chain_remove cb d c ≡ none
  unfolding chain_find chain_remove
  chain_remove_absent d [] h = refl
  chain_remove_absent d (x ∷ c) h = ground (arith, chain_remove_absent d c)

  module _ (lawful : IsLawful cb) where
    pub same_congr : (a b c : D) → same a b ≡ true → same c a ≡ same c b
    same_congr a b c h =
        ground
          (arith, lawful.compare_symm a b, lawful.compare_trans c a b, lawful.compare_trans c b a)

    pub same_congr_left : (a b c : D) → same a b ≡ true → same a c ≡ same b c
    same_congr_left a b c h =
        ground
          (arith, lawful.compare_symm a b, lawful.compare_trans a b c, lawful.compare_trans b a c)

    pub same_refl : (a : D) → same a a ≡ true
    same_refl a = ground (arith, lawful.compare_refl a)

    pub hits_congr : (a b : D) (c : List D) → same a b ≡ true → hits a c ≡ hits b c
    unfolding hits
    hits_congr a b [] h = refl
    hits_congr a b (d ∷ c) h = ground (arith, same_congr a b d h, hits_congr a b c h)

    -- What a removal takes out and leaves: one datum with the key, which was the first found, and a
    -- chain where every other key is found as before.
    pub record Removed (d e : D) (c : List D) (r : D × List D) : Type ℓ where
      pub taken : r.0 ≡ e
      pub key : same e d ≡ true
      pub shorter : length r.1 + 1 ≡ length c
      pub fewer : (q : D) → hits q r.1 + (if same d q then 1 else 0) ≡ hits q c
      pub others : (q : D) → same d q ≡ false → chain_find cb q r.1 ≡ chain_find cb q c

    pub chain_remove_found :
        (d e : D) (c : List D)
        → chain_find cb d c ≡ some e
        → (r : D × List D) × (chain_remove cb d c ≡ some r) × Removed d e c r
    unfolding chain_find chain_remove hits
    chain_remove_found d e [] h = cc
    chain_remove_found d e (x ∷ c) h = elim (Bool-cases (same x d)) [
      | inl s ↦ (
        (x, c),
        rw s,
        record {
          taken = ground arith;
          key = ground arith;
          shorter = omega arith;
          fewer = λ q. ground (arith, same_congr_left x d q s);
          others = λ q n. ground (arith, same_congr_left x d q s);
        },
      )
      | inr s ↦
          let ((y, r), run, o) = chain_remove_found d e c (ground arith) in
          (
            (y, x ∷ r),
            ground (arith, run),
            record {
              taken = o.taken;
              key = o.key;
              shorter = omega (arith, o.shorter);
              fewer = λ q. ground (arith, o.fewer q);
              others = λ q n. ground (arith, o.others q n);
            },
          )
    ]

    -- A key of the same class as one that is not found has no hits.
    pub no_hits : (q d : D) (c : List D) → chain_find cb d c ≡ none → same d q ≡ true → hits q c ≡ 0
    no_hits q d c absent s = sym (hits_congr d q c s) ∙ hits_of_find d c absent

    pub find-add :
        (q d : D) (c : List D)
        → chain_find cb d c ≡ none
        → chain_find cb q (c ++ d ∷ []) ≡ (if same d q then some d else chain_find cb q c)
    find-add q d c absent = elim (Bool-cases (same d q)) [
      | inl s ↦ rw (find-append, find_of_hits q c (no_hits q d c absent s), s)
      | inr s ↦ elim (Option-cases (chain_find cb q c)) [
        | inl e ↦ rw (find-append, e, s)
        | inr (x, e) ↦ rw (find-append, e, s)
      ]
    ]

    pub hits-add :
        (q d : D) (c : List D) → hits q (c ++ d ∷ []) ≡ hits q c + (if same d q then 1 else 0)
    unfolding hits
    hits-add q d c = rw hits-append (ground arith)
