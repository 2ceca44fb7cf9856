-- ===== src/Purge/Select.antt =====
-- `purge_orig` on the neighbours of an originator that stays.
use batman_adv_userspace.Base.{
  ℕ, ◌≤◌, ◌≡◌, refl, ap, ◌∙◌, sym, List, [], ◌∷◌, ◌++◌, Option, none, some, Bool, true, false, ◌⊎◌,
  inl, inr, arith, Bool-cases, if◌then◌else◌, ltb,
}
use batman_adv_userspace.Mesh.{NeighNode}
use batman_adv_userspace.Purge.Defs.{timed_out, better, purge_neighs}

-- The neighbours that are not timed out, in their order, and whether there are others.
abbrev pub alive : ℕ → List NeighNode → List NeighNode
alive t [] = []
alive t (n ∷ ns) = if timed_out n.last_valid t then alive t ns else n ∷ alive t ns

abbrev pub some_dead : ℕ → List NeighNode → Bool
some_dead t [] = false
some_dead t (n ∷ ns) = if timed_out n.last_valid t then true else some_dead t ns

abbrev pub tq_of : Option NeighNode → ℕ
tq_of none = 0
tq_of (some n) = n.tq_avg

abbrev pub AllUpTo : ℕ → List NeighNode → Type 0
AllUpTo m [] = Unit
AllUpTo m (n ∷ ns) = (n.tq_avg ≤ m) × AllUpTo m ns

-- `best` stands in `ns`.
abbrev pub Chosen : List NeighNode → NeighNode → Type 0
Chosen ns b = (before : List NeighNode) × (after : List NeighNode) × (ns ≡ before ++ b ∷ after)

purge_neighs-kept :
    (t : ℕ) (ns : List NeighNode) (best : Option NeighNode)
    → ((purge_neighs t ns best).0 ≡ alive t ns) × ((purge_neighs t ns best).1 ≡ some_dead t ns)
unfolding purge_neighs
purge_neighs-kept t [] best = (refl, refl)
purge_neighs-kept t (n ∷ ns) best = elim (Bool-cases (timed_out n.last_valid t)) [
  | inl e ↦ rw e ((purge_neighs-kept t ns best).0, refl)
  | inr e ↦ rw e (
    ap (λ r. n ∷ r) (purge_neighs-kept t ns (better best n)).0,
    (purge_neighs-kept t ns (better best n)).1,
  )
]

better-tq :
    (best : Option NeighNode) (n : NeighNode)
    → (tq_of best ≤ tq_of (better best n)) × (n.tq_avg ≤ tq_of (better best n))
unfolding better
better-tq none n = (omega arith, omega arith)
better-tq (some b) n = elim (Bool-cases (ltb b.tq_avg n.tq_avg)) [
  | inl e ↦ rw e (ground arith, ground arith)
  | inr e ↦ rw e (ground arith, ground arith)
]

better-cases :
    (best : Option NeighNode) (n : NeighNode) → (better best n ≡ best) ⊎ (better best n ≡ some n)
unfolding better
better-cases none n = inr refl
better-cases (some b) n = elim (Bool-cases (ltb b.tq_avg n.tq_avg)) [
  | inl e ↦ inr (rw e)
  | inr e ↦ inl (rw e)
]

purge_neighs-best :
    (t : ℕ) (ns : List NeighNode) (best : Option NeighNode)
    → (tq_of best ≤ tq_of (purge_neighs t ns best).2)
      × AllUpTo (tq_of (purge_neighs t ns best).2) (purge_neighs t ns best).0
unfolding purge_neighs
purge_neighs-best t [] best = (omega arith, tt)
purge_neighs-best t (n ∷ ns) best = elim (Bool-cases (timed_out n.last_valid t)) [
  | inl e ↦ rw e (purge_neighs-best t ns best)
  | inr e ↦
      let (up, all) = purge_neighs-best t ns (better best n) in
      let (old, new) = better-tq best n in
      rw e (omega (arith, up, old), (omega (arith, up, new), all))
]

-- Where the best comes from: it is the one at the start, or it stands among those that stay.
purge_neighs-origin :
    (t : ℕ) (ns : List NeighNode) (best : Option NeighNode)
    → ((purge_neighs t ns best).2 ≡ best)
      ⊎ ((b : NeighNode) × ((purge_neighs t ns best).2 ≡ some b)
          × Chosen (purge_neighs t ns best).0 b)
unfolding purge_neighs
purge_neighs-origin t [] best = inl refl
purge_neighs-origin t (n ∷ ns) best = elim (Bool-cases (timed_out n.last_valid t)) [
  | inl e ↦ rw e (purge_neighs-origin t ns best)
  | inr e ↦ rw e (elim (purge_neighs-origin t ns (better best n)) [
    | inr (b, is, (before, after, split)) ↦ inr (b, is, (n ∷ before, after, ap (λ r. n ∷ r) split))
    | inl is ↦ elim (better-cases best n) [
      | inl same ↦ inl (is ∙ same)
      | inr new ↦ inr (n, is ∙ new, ([], (purge_neighs t ns (better best n)).0, refl))
    ]
  ])
]

better-some : (best : Option NeighNode) (n : NeighNode) → (b : NeighNode) × (better best n ≡ some b)
unfolding better
better-some none n = (n, refl)
better-some (some b) n = elim (Bool-cases (ltb b.tq_avg n.tq_avg)) [
  | inl e ↦ (n, rw e)
  | inr e ↦ (b, rw e)
]

-- Once there is a best there stays one.
purge_neighs-some :
    (t : ℕ) (ns : List NeighNode) (b : NeighNode)
    → (c : NeighNode) × ((purge_neighs t ns (some b)).2 ≡ some c)
unfolding purge_neighs
purge_neighs-some t [] b = (b, refl)
purge_neighs-some t (n ∷ ns) b = elim (Bool-cases (timed_out n.last_valid t)) [
  | inl e ↦ rw e (purge_neighs-some t ns b)
  | inr e ↦ let (b', is) = better-some (some b) n in rw (e, is) (purge_neighs-some t ns b')
]

purge_neighs-none :
    (t : ℕ) (ns : List NeighNode) → (purge_neighs t ns none).2 ≡ none → alive t ns ≡ []
unfolding purge_neighs better
purge_neighs-none t [] h = refl
purge_neighs-none t (n ∷ ns) h = elim (Bool-cases (timed_out n.last_valid t)) [
  | inl e ↦ rw e (purge_neighs-none t ns (sym (rw e refl) ∙ h))
  | inr e ↦
      let (c, is) = purge_neighs-some t ns n in
      let next : (purge_neighs t (n ∷ ns) none).2 ≡ (purge_neighs t ns (some n)).2 = rw e in cc
]

-- Purging keeps exactly the neighbours that are not timed out, in their order, and tells whether it
-- removed one; the best neighbour that it hands on has the greatest quality of those that stay, and
-- stands among them; it is NULL only where none stays.
pub purge_neighs_lem :
    (t : ℕ) (ns : List NeighNode)
    → ((purge_neighs t ns none).0 ≡ alive t ns)
      × ((purge_neighs t ns none).1 ≡ some_dead t ns)
      × AllUpTo (tq_of (purge_neighs t ns none).2) (alive t ns)
      × ((((purge_neighs t ns none).2 ≡ none) × (alive t ns ≡ []))
          ⊎ ((b : NeighNode) × ((purge_neighs t ns none).2 ≡ some b) × Chosen (alive t ns) b))
purge_neighs_lem t ns =
    let (kept, dead) = purge_neighs-kept t ns none in
    (
      kept,
      dead,
      (rw (← kept) (purge_neighs-best t ns none).1),
      (elim (purge_neighs-origin t ns none) [
        | inl e ↦ inl (e, purge_neighs-none t ns e)
        | inr b ↦ inr (rw (← kept) b)
      ]),
    )
