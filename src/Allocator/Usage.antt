-- ===== src/Allocator/Usage.antt =====
-- The counters of addMemory and removeMemory.
use batman_adv_userspace.Base.{
  ℕ, ◌+◌, ◌^◌, ◌%◌, ◌==◌, ◌≡◌, refl, ◌⊎◌, inl, inr, Option, none, some, List, [], ◌∷◌,
  if◌then◌else◌, arith, Bool-cases, Option-cases, ==_iff,
}
use mathlib.Core.Path.{subst}
use batman_adv_userspace.Allocator.Defs.{MemoryUsage, Stop, count_up, add_memory, remove_memory}

-- The counter of a tag; 0 where there is no entry for it.
unfoldable pub counter_of : ℕ → List MemoryUsage → ℕ
counter_of t [] = 0
counter_of t (u ∷ us) = if u.tag == t then u.counter else counter_of t us

-- One more of `tag`.
unfoldable pub one_more : ℕ → ℕ → ℕ → ℕ
one_more tag t n = if tag == t then (n + 1) % 2 ^ 32 else n

-- To split on what removeMemory gives and keep the equation.
Sum-cases :
    (o : Stop ⊎ List MemoryUsage)
    → ((s : Stop) × (o ≡ inl s)) ⊎ ((vs : List MemoryUsage) × (o ≡ inr vs))
Sum-cases (inl s) = inl (s, refl)
Sum-cases (inr vs) = inr (vs, refl)

-- Where an entry has the tag, its counter goes up by one and no other changes.
CountedUp : ℕ → List MemoryUsage → Option (List MemoryUsage) → Type 0
CountedUp tag us none = counter_of tag us ≡ 0
CountedUp tag us (some vs) = (t : ℕ) → counter_of t vs ≡ one_more tag t (counter_of t us)

count_up_lem : (tag : ℕ) (us : List MemoryUsage) → CountedUp tag us (count_up tag us)
unfolding count_up counter_of CountedUp one_more
count_up_lem tag [] = refl
count_up_lem tag (u ∷ us) = elim (Bool-cases (u.tag == tag)) [
  | inl e ↦ rw e λ t. ground arith
  | inr e ↦
      let ih = count_up_lem tag us in
      elim (Option-cases (count_up tag us)) [
        | inl f ↦
            let none_there : CountedUp tag us none = subst (CountedUp tag us) f ih in
            rw (e, f, CountedUp, counter_of) (rw e none_there)
        | inr (vs, f) ↦
            let after : CountedUp tag us (some vs) = subst (CountedUp tag us) f ih in
            rw (e, f) λ t. ground (arith, after t)
      ]
]

pub counter_of-add_memory :
    (length tag t : ℕ) (us : List MemoryUsage)
    → counter_of t (add_memory length tag us) ≡ one_more tag t (counter_of t us)
unfolding add_memory CountedUp counter_of one_more
counter_of-add_memory length tag t us =
    let counted = count_up_lem tag us in
    elim (Option-cases (count_up tag us)) [
      | inl f ↦
          let none_there : counter_of tag us ≡ 0 = subst (CountedUp tag us) f counted in
          rw (add_memory, f) (fresh_entry none_there)
      | inr (vs, f) ↦
          let after : CountedUp tag us (some vs) = subst (CountedUp tag us) f counted in
          rw (add_memory, f) (after t)
    ]
  where
    fresh_entry :
        counter_of tag us ≡ 0
        → counter_of t (record { length = length; counter = 1; tag = tag } ∷ us)
          ≡ one_more tag t (counter_of t us)
    fresh_entry h = elim (Bool-cases (tag == t)) [
      | inl e ↦
          let same : tag ≡ t = (==_iff tag t).0 e in
          let none_t : counter_of t us ≡ 0 = subst (λ k. counter_of k us ≡ 0) same h in
          rw (e, none_t) refl
      | inr e ↦ rw e refl
    ]

-- A counter above 0 goes down by one and no other changes.
unfoldable pub CountedDown : ℕ → List MemoryUsage → Stop ⊎ List MemoryUsage → Type 0
CountedDown tag us (inl s) = counter_of tag us ≡ 0
CountedDown tag us (inr vs) =
    (t : ℕ) → counter_of t us ≡ (if tag == t then counter_of t vs + 1 else counter_of t vs)

pub remove_memory_lem :
    (tag freetag : ℕ) (us : List MemoryUsage) → CountedDown tag us (remove_memory tag freetag us)
unfolding remove_memory counter_of CountedDown
remove_memory_lem tag freetag [] = refl
remove_memory_lem tag freetag (u ∷ us) = elim (Bool-cases (u.tag == tag)) [
  | inl e ↦ elim (Bool-cases (u.counter == 0)) [
    | inl z ↦ rw (e, z) (ground arith)
    | inr nz ↦ rw (e, nz) λ t. ground arith
  ]
  | inr e ↦
      let ih = remove_memory_lem tag freetag us in
      elim (Sum-cases (remove_memory tag freetag us)) [
        | inl (s, f) ↦
            let none_there : CountedDown tag us (inl s) = subst (CountedDown tag us) f ih in
            rw (e, f, CountedDown, counter_of) (rw e none_there)
        | inr (vs, f) ↦
            let after : CountedDown tag us (inr vs) = subst (CountedDown tag us) f ih in
            rw (e, f) λ t. ground (arith, after t)
      ]
]
