-- ===== src/Hash/Resize.antt =====
-- `hash_resize`: the copying loops lose nothing, so the new table stands for the same map.
use mathlib.Core.Logic.{Ne-symm}
use mathlib.Core.Path.{fun_ext}
use batman_adv_userspace.Base.{
  ℕ, zero, suc, ◌+◌, ◌≤◌, ◌<◌, ◌≡◌, ◌≢◌, refl, ap, ◌∙◌, List, [], ◌∷◌, ◌++◌, Option, none, some,
  if◌then◌else◌, ◌>>=◌, bind_assoc, arith, inl, inr, Bool-cases, length, Bool, true, false, Returns,
  get_or, replicate, length-replicate,
}
use batman_adv_userspace.Hash.Defs.{
  Callbacks, IsLawful, HashTable, entries, chain_find, copy_chain, copy_table, hash_init, hash_new,
  hash_add, hash_resize,
}
use batman_adv_userspace.Hash.Chain.{same, hits, hits-append, find_of_hits, same_refl}
use batman_adv_userspace.Hash.Table.{IsValid, view, hash_add_lem}

module _ {ℓ} {D : Type ℓ} where
  get_or-replicate : (n i : ℕ) → get_or (replicate {A = List D} n []) i [] ≡ []
  get_or-replicate zero i = refl
  get_or-replicate (suc n) zero = refl
  get_or-replicate (suc n) (suc i) = get_or-replicate n i

  entries-replicate : (n : ℕ) → entries (replicate {A = List D} n []) ≡ []
  unfolding entries
  entries-replicate zero = refl
  entries-replicate (suc n) = entries-replicate n

  -- The first that is there.
  abbrev pub first_of_two : Option D → Option D → Option D
  first_of_two none b = b
  first_of_two (some a) b = some a

module _ {ℓ} {D : Type ℓ} (cb : Callbacks D) (lawful : IsLawful cb) where
  -- `hash_new` of a positive size: a valid table that holds nothing.
  pub hash_new_lem :
      (n : ℕ)
      → 0 < n
      → Returns
          (hash_new {D = D} true true n)
          λ h. IsValid cb h × (h.size ≡ n) × (h.elements ≡ 0) × ((q : D) → view cb h q ≡ none)
  unfolding hash_new view hits chain_find
  hash_new_lem n pos = (
    record { table = replicate n []; elements = 0; size = n },
    refl,
    (
      record {
        width = length-replicate n [];
        roomy = pos;
        counted = ap length (entries-replicate n);
        once = λ q i. rw get_or-replicate (omega arith);
        placed = λ q i ne. rw get_or-replicate;
      },
      refl,
      refl,
      λ q. rw get_or-replicate,
    ),
  )

  find-entries-append :
      (q : D) (a b : List D)
      → chain_find cb q (a ++ b) ≡ first_of_two (chain_find cb q a) (chain_find cb q b)
  unfolding chain_find
  find-entries-append q [] b = refl
  find-entries-append q (d ∷ a) b = elim (Bool-cases (same cb d q)) [
    | inl s ↦ rw s
    | inr s ↦ rw s (find-entries-append q a b)
  ]

  -- What a table stands for after data with distinct new keys have been copied into it.
  record Copied (h : HashTable D) (es : List D) (r : HashTable D) : Type ℓ where
    valid : IsValid cb r
    size : r.size ≡ h.size
    elements : r.elements ≡ h.elements + length es
    reads : (q : D) → view cb r q ≡ first_of_two (view cb h q) (chain_find cb q es)

  copy_chain-append :
      (a b : List D) (h : HashTable D)
      → copy_chain cb h (a ++ b) ≡ (copy_chain cb h a >>= λ h'. copy_chain cb h' b)
  unfolding copy_chain
  copy_chain-append [] b h = refl
  copy_chain-append (d ∷ a) b h = simp (bind_assoc, copy_chain-append a b)

  copy_table-entries :
      (cs : List (List D)) (h : HashTable D) → copy_table cb h cs ≡ copy_chain cb h (entries cs)
  unfolding copy_table entries copy_chain
  copy_table-entries [] h = refl
  copy_table-entries (c ∷ cs) h = rw (copy_chain-append, ← fun_ext (copy_table-entries cs))

  -- A new key goes in.
  record Added (h : HashTable D) (d : D) (r : Bool × HashTable D) : Type ℓ where
    valid : IsValid cb r.1
    size : r.1.size ≡ h.size
    elements : r.1.elements ≡ h.elements + 1
    reads : (q : D) → view cb r.1 q ≡ (if same cb d q then some d else view cb h q)

  add_fresh :
      {h : HashTable D} (d : D)
      → IsValid cb h
      → view cb h d ≡ none
      → Returns (hash_add cb true h d) (Added h d)
  add_fresh {h} d v fresh =
      let (r, run, o) = hash_add_lem cb lawful d v in
      let added : r.0 ≡ true = rw fresh at o.status in
      (
        r,
        run,
        record {
          valid = o.valid;
          size = o.size;
          elements = rw added at o.elements;
          reads = λ q. rw added at (o.reads q);
        },
      )

  hits_le_cons : (q d : D) (es : List D) → hits cb q es ≤ hits cb q (d ∷ es)
  unfolding hits
  hits_le_cons q d es = ground arith

  distinct :
      (q d : D) (es : List D) → hits cb q (d ∷ es) ≤ 1 → 0 < hits cb q es → same cb d q ≡ false
  unfolding hits
  distinct q d es once p = ground arith

  no_later :
      (q d : D) (es : List D) → hits cb q (d ∷ es) ≤ 1 → same cb d q ≡ true → hits cb q es ≡ 0
  unfolding hits
  no_later q d es once s = ground arith

  hits_head : (q d : D) (es : List D) → same cb d q ≡ true → 0 < hits cb q (d ∷ es)
  unfolding hits
  hits_head q d es s = ground arith

  copy_chain_lem :
      (es : List D) {h : HashTable D}
      → IsValid cb h
      → ((q : D) → hits cb q es ≤ 1)
      → ((q : D) → 0 < hits cb q es → view cb h q ≡ none)
      → Returns (copy_chain cb h es) (Copied h es)
  unfolding copy_chain chain_find
  copy_chain_lem [] {h} v once apart = (
    h,
    refl,
    record { valid = v; size = refl; elements = omega arith; reads = λ q. keep (view cb h q) },
  )
    where
      keep : (o : Option D) → o ≡ first_of_two o none
      keep none = refl
      keep (some a) = refl
  copy_chain_lem (d ∷ es) {h} v once apart =
      let (added, run, o) = add_fresh d v (apart d (hits_head d d es (same_refl cb lawful d))) in
      let rest =
        copy_chain_lem es o.valid (λ q. omega (arith, hits_le_cons q d es, once q))
          (λ q p.
            rw (o.reads q, distinct q d es (once q) p)
              (apart q (omega (arith, hits_le_cons q d es)))) in
      (
        rest.0,
        rw run rest.1,
        record {
          valid = rest.2.valid;
          size = rest.2.size ∙ o.size;
          elements = omega (arith, rest.2.elements, o.elements);
          reads = λ q. rest.2.reads q ∙ step q added.1 (o.reads q);
        },
      )
    where
      step :
          (q : D) (h' : HashTable D)
          → view cb h' q ≡ (if same cb d q then some d else view cb h q)
          → first_of_two (view cb h' q) (chain_find cb q es)
            ≡ first_of_two (view cb h q) (if same cb d q then some d else chain_find cb q es)
      step q h' reads = elim (Bool-cases (same cb d q)) [
        | inl s ↦ rw (reads, s, apart q (hits_head q d es s))
        | inr s ↦ rw (reads, s)
      ]

  entries_nowhere :
      (q : D) (cs : List (List D))
      → ((i : ℕ) → hits cb q (get_or cs i []) ≡ 0)
      → hits cb q (entries cs) ≡ 0
  unfolding entries hits
  entries_nowhere q [] h = refl
  entries_nowhere q (c ∷ cs) h =
      rw (hits-append, h 0, entries_nowhere q cs (λ i. h (suc i))) (omega arith)

  keep : (o : Option D) → first_of_two o none ≡ o
  keep none = refl
  keep (some a) = refl

  -- Where only one chain has the key, all the entries find what that chain finds.
  entries_only :
      (q : D) (cs : List (List D)) (j : ℕ)
      → ((i : ℕ) → i ≢ j → hits cb q (get_or cs i []) ≡ 0)
      → (chain_find cb q (entries cs) ≡ chain_find cb q (get_or cs j []))
        × (hits cb q (entries cs) ≡ hits cb q (get_or cs j []))
  unfolding entries
  entries_only q [] j h = (refl, refl)
  entries_only q (c ∷ cs) zero h =
      let rest = entries_nowhere q cs (λ i. h (suc i) (omega arith)) in
      (
        find-entries-append q c (entries cs)
            ∙ rw (find_of_hits cb q (entries cs) rest) (keep (chain_find cb q c)),
        rw (hits-append, rest) (omega arith),
      )
  entries_only q (c ∷ cs) (suc j) h =
      let here = h 0 (omega arith) in
      let (found, counted) = entries_only q cs j (λ i n. h (suc i) (omega arith)) in
      (
        find-entries-append q c (entries cs) ∙ rw (find_of_hits cb q c here) found,
        rw (hits-append, here) (omega (arith, counted)),
      )

  -- With both allocations made, `hash_resize` of a valid table to any positive size does not fault and
  -- returns a valid table of that size, which counts as many elements and finds the same datum, or
  -- none, for every key.
  pub hash_resize_lem :
      {h : HashTable D} (n : ℕ)
      → IsValid cb h
      → 0 < n
      → (r : HashTable D) × (hash_resize cb true true h n ≡ some (some r))
        × IsValid cb r
        × (r.size ≡ n)
        × (r.elements ≡ h.elements)
        × ((q : D) → view cb r q ≡ view cb h q)
  unfolding hash_resize
  hash_resize_lem {h} n v pos =
      let (e, made, (ev, size, none_in, empty)) = hash_new_lem n pos in
      let made' : hash_init {D = D} (record { table = []; elements = 0; size = n }) ≡ e = cc made in
      let only = λ (q : D).
        entries_only q h.table (cb.choose q h.size) (λ i ne. v.placed q i (Ne-symm ne)) in
      let once : (q : D) → hits cb q (entries h.table) ≤ 1 =
        λ q. omega (arith, (only q).1, v.once q (cb.choose q h.size)) in
      let (r, run, c) = copy_chain_lem (entries h.table) ev once (λ q p. empty q) in
      (
        r,
        rw (copy_table-entries, made', run),
        c.valid,
        c.size ∙ size,
        omega (arith, c.elements, v.counted),
        λ q. c.reads q ∙ rw (empty q) (unfold view in (only q).0),
      )
