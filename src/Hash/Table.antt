-- ===== src/Hash/Table.antt =====
-- The invariant of a table, and the map that it stands for under `hash_find`.
use mathlib.Core.Logic.{Ne-symm}
use native.Mathlib.Decide.{ℕ_discrete}
use batman_adv_userspace.Base.{
  ℕ, zero, suc, ◌+◌, ◌≤◌, ◌<◌, ◌≡◌, ◌≢◌, refl, ◌∙◌, sym, List, [], ◌∷◌, ◌++◌, Option, none, some,
  if◌then◌else◌, ◌>>=◌, arith, inl, inr, Bool-cases, Option-cases, length, Bool, true, false,
  Returns, ==_iff, get_or, set, length-set, length-append, get_elem?-get_or, get_or-set_self,
  get_or-set_ne,
}
use batman_adv_userspace.Hash.Defs.{
  Callbacks, IsLawful, HashTable, entries, chain_find, hash_add, hash_find,
}
use batman_adv_userspace.Hash.Chain.{
  same, hits, chain_add_found, chain_add_new, no_hits, find-add, hits-add,
}

module _ {ℓ} {D : Type ℓ} where
  -- Writing one chain changes the number of all entries by the change of that chain.
  pub length-entries-set :
      (cs : List (List D)) (i : ℕ) (c : List D)
      → i < length cs
      → length (entries (set cs i c)) + length (get_or cs i []) ≡ length (entries cs) + length c
  unfolding entries
  length-entries-set [] i c h = elim h [ ]
  length-entries-set (x ∷ cs) zero c h = simp length-append (omega arith)
  length-entries-set (x ∷ cs) (suc i) c h =
      simp length-append (omega (arith, length-entries-set cs i c (omega arith)))

module _ {ℓ} {D : Type ℓ} (cb : Callbacks D) where
  -- The chain of a key.
  abbrev pub chain_of : HashTable D → D → List D
  chain_of h q = get_or h.table (cb.choose q h.size) []

  -- The table has its size, counts its entries, and holds each key at most once, in its chain only.
  pub record IsValid (h : HashTable D) : Type ℓ where
    pub width : length h.table ≡ h.size
    pub roomy : 0 < h.size
    pub counted : length (entries h.table) ≡ h.elements
    pub once : (q : D) (i : ℕ) → hits cb q (get_or h.table i []) ≤ 1
    pub placed : (q : D) (i : ℕ) → cb.choose q h.size ≢ i → hits cb q (get_or h.table i []) ≡ 0

  -- The map from keys to data that the table stands for.
  unfoldable pub view : HashTable D → D → Option D
  view h q = chain_find cb q (chain_of h q)

  -- A map with the entry of one key replaced.
  abbrev pub update : (D → Option D) → D → Option D → D → Option D
  update f d v q = if same cb d q then v else f q

  module _ (lawful : IsLawful cb) where
    -- On a valid table `hash_find` does not fault, and returns what the map has at the key.
    pub hash_find_lem : {h : HashTable D} (q : D) → IsValid h → hash_find cb h q ≡ some (view h q)
    unfolding hash_find view
    hash_find_lem {h} q v =
        let inside = lawful.choose-lt q h.size v.roomy in
        rw (get_elem?-get_or h.table (cb.choose q h.size) [] (omega arith))

    -- One chain of a valid table, the key's own, replaced by `c`.
    pub set-IsValid :
        {h : HashTable D} (d : D) (c : List D) (n : ℕ)
        → IsValid h
        → n + length (chain_of h d) ≡ h.elements + length c
        → ((q : D) → hits cb q c ≤ 1)
        → ((q : D) → hits cb q (chain_of h d) ≡ 0 → same cb d q ≡ false → hits cb q c ≡ 0)
        → IsValid (record h { table = set h.table (cb.choose d h.size) c; elements = n })
    set-IsValid {h} d c n v size once kept =
        let inside = lawful.choose-lt d h.size v.roomy in
        let i = cb.choose d h.size in
        record {
          width = length-set h.table i c ∙ v.width;
          roomy = v.roomy;
          counted = omega (arith, length-entries-set h.table i c (omega arith), v.counted);
          once = λ q j. ground (
            arith,
            once q,
            v.once q j,
            get_or-set_self h.table i c [],
            get_or-set_ne h.table i j c [],
          );
          placed = λ q j ne. ground (
            arith,
            v.placed q j,
            v.placed q i,
            kept q,
            lawful.choose_congr d q h.size,
            get_or-set_self h.table i c [],
            get_or-set_ne h.table i j c [],
          );
        }

    -- What the map becomes, where `c` finds for each key what it should.
    pub set-view :
        {h : HashTable D} (d : D) (c : List D) (n : ℕ) (v : Option D)
        → IsValid h
        → ((q : D)
            → cb.choose q h.size ≡ cb.choose d h.size
            → chain_find cb q c ≡ (if same cb d q then v else chain_find cb q (chain_of h d)))
        → (q : D)
        → view (record h { table = set h.table (cb.choose d h.size) c; elements = n }) q
          ≡ update (view h) d v q
    unfolding view
    set-view {h} d c n v valid reads q =
        let inside = lawful.choose-lt d h.size valid.roomy in
        let i = cb.choose d h.size in
        let j = cb.choose q h.size in
        elim (ℕ_discrete j i) [
          | yes e ↦ rw (e, get_or-set_self h.table i c [] (omega arith)) (reads q e)
          | no ne ↦ elim (Bool-cases (same cb d q)) [
            | inl s ↦ absurd (ne (sym (lawful.choose_congr d q h.size ((==_iff _ 0).0 s))))
            | inr s ↦ rw (get_or-set_ne h.table i j c [] (Ne-symm ne), s)
          ]
        ]

    -- What a call of `hash_add` returns, and leaves behind.
    pub record Adds (h : HashTable D) (d : D) (r : Bool × HashTable D) : Type ℓ where
      pub valid : IsValid r.1
      pub status : r.0 ≡ elim (view h d) [ none ↦ true | some _ ↦ false ]
      pub reads : (q : D) → view r.1 q ≡ (if r.0 then update (view h) d (some d) q else view h q)
      pub elements : r.1.elements ≡ (if r.0 then h.elements + 1 else h.elements)
      pub size : r.1.size ≡ h.size

    -- On a valid table, and where its allocation succeeds, `hash_add` does not fault; it fails exactly
    -- when the key is there, and then changes nothing; else the map has the new datum at the key and
    -- is unchanged at all others, one element is counted more, and the table is valid again.
    pub hash_add_lem :
        {h : HashTable D} (d : D) → IsValid h → Returns (hash_add cb true h d) (Adds h d)
    unfolding hash_add view
    hash_add_lem {h} d v =
        let inside = lawful.choose-lt d h.size v.roomy in
        let c = chain_of h d in
        let at = get_elem?-get_or h.table (cb.choose d h.size) [] (omega arith) in
        elim (Option-cases (chain_find cb d c)) [
          | inr (e, found) ↦ (
            (false, h),
            rw (at, hash_add, ◌>>=◌, chain_add_found cb d e c found),
            record {
              valid = v;
              status = rw found;
              reads = λ q. refl;
              elements = refl;
              size = refl;
            },
          )
          | inl absent ↦
              let c' = c ++ d ∷ [] in
              (
                (
                  true,
                  record h {
                    table = set h.table (cb.choose d h.size) c';
                    elements = h.elements + 1;
                  },
                ),
                rw (at, hash_add, ◌>>=◌, chain_add_new cb d c absent),
                record {
                  valid =
                      set-IsValid d c' (h.elements + 1) v (rw length-append (omega arith))
                        (λ q. ground (
                          arith,
                          hits-add cb lawful q d c,
                          no_hits cb lawful q d c,
                          v.once q (cb.choose d h.size),
                        ))
                        (λ q z n. ground (arith, hits-add cb lawful q d c));
                  status = rw absent;
                  reads =
                      set-view d c' (h.elements + 1) (some d) v
                        (λ q _. find-add cb lawful q d c absent);
                  elements = refl;
                  size = refl;
                },
              )
        ]
