-- ===== src/Hash/Remove.antt =====
-- `hash_remove`, and `hash_find` behind it: both sides of the lookup.
use batman_adv_userspace.Base.{
  ℕ, ◌+◌, ◌-◌, ◌≤◌, ◌≡◌, refl, ap, ◌∙◌, sym, List, [], Option, none, some, ==_iff, if◌then◌else◌,
  ◌>>=◌, arith, inl, inr, Bool-cases, Option-cases, length, Returns, set, get_elem?-get_or,
}
use batman_adv_userspace.Hash.Defs.{Callbacks, IsLawful, HashTable, chain_find, hash_remove}
use batman_adv_userspace.Hash.Chain.{
  same, hits, find_of_hits, chain_remove_absent, chain_remove_found, Removed, no_hits,
}
use batman_adv_userspace.Hash.Table.{
  chain_of, IsValid, view, update, set-IsValid, set-view, length-entries-set,
}

module _ {ℓ} {D : Type ℓ} (cb : Callbacks D) (lawful : IsLawful cb) where
  -- How many entries a lookup stands for.
  abbrev pub present : Option D → ℕ
  present none = 0
  present (some _) = 1

  -- What a call of `hash_remove` returns, and leaves behind.
  pub record Removes (h : HashTable D) (d : D) (r : Option D × HashTable D) : Type ℓ where
    pub valid : IsValid cb r.1
    pub returns : r.0 ≡ view cb h d
    pub reads : (q : D) → view cb r.1 q ≡ update cb (view cb h) d none q
    pub elements : r.1.elements + present r.0 ≡ h.elements
    pub size : r.1.size ≡ h.size

  view_absent :
      (h : HashTable D) (d q : D)
      → view cb h d ≡ none
      → view cb h q ≡ update cb (view cb h) d none q
  unfolding view
  view_absent h d q absent = elim (Bool-cases (same cb d q)) [
    | inl s ↦
        let home = lawful.choose_congr d q h.size ((==_iff _ 0).0 s) in
        rw (s, ← home)
          (find_of_hits cb q (chain_of cb h d) (no_hits cb lawful q d (chain_of cb h d) absent s))
    | inr s ↦ rw s
  ]

  -- The chain after a removal finds what the map with the key cleared finds.
  find-Removed :
      (d e q : D) (c : List D) (r : D × List D)
      → Removed cb lawful d e c r
      → hits cb q c ≤ 1
      → chain_find cb q r.1 ≡ (if same cb d q then none else chain_find cb q c)
  find-Removed d e q c r o once = elim (Bool-cases (same cb d q)) [
    | inl s ↦ rw s (find_of_hits cb q r.1 (ground (arith, o.fewer q)))
    | inr s ↦ rw s (o.others q s)
  ]

  -- On a valid table `hash_remove` does not fault; it returns what `hash_find` finds, clears the map
  -- at the key and nowhere else, counts one element less exactly when the key was there, and leaves a
  -- valid table.
  pub hash_remove_lem :
      {h : HashTable D} (d : D) → IsValid cb h → Returns (hash_remove cb h d) (Removes h d)
  unfolding hash_remove view
  hash_remove_lem {h} d v =
      let inside = lawful.choose-lt d h.size v.roomy in
      let c = chain_of cb h d in
      let i = cb.choose d h.size in
      let at = get_elem?-get_or h.table i [] (omega arith) in
      elim (Option-cases (chain_find cb d c)) [
        | inl absent ↦ (
          (none, h),
          rw (at, hash_remove, ◌>>=◌, chain_remove_absent cb d c absent),
          record {
            valid = v;
            returns = sym absent;
            reads = λ q. view_absent h d q absent;
            elements = omega arith;
            size = refl;
          },
        )
        | inr (e, found) ↦
            let ((x, r), run, o) = chain_remove_found cb lawful d e c found in
            let counted : h.elements - 1 + length c ≡ h.elements + length r =
              omega (arith, o.shorter, length-entries-set h.table i [] (omega arith), v.counted) in
            let filled : h.elements - 1 + 1 ≡ h.elements =
              omega (arith, o.shorter, length-entries-set h.table i [] (omega arith), v.counted) in
            (
              (some x, record h { table = set h.table i r; elements = h.elements - 1 }),
              rw (at, hash_remove, ◌>>=◌, run),
              record {
                valid =
                    set-IsValid cb lawful d r (h.elements - 1) v counted
                      (λ q. omega (arith, o.fewer q, v.once q i))
                      (λ q z n. omega (arith, o.fewer q));
                returns = ap some o.taken ∙ sym found;
                reads =
                    set-view cb lawful d r (h.elements - 1) none v
                      (λ q _. find-Removed d e q c (x, r) o (v.once q i));
                elements = filled;
                size = refl;
              },
            )
      ]
