-- ===== src/RingBuffer/Average.antt =====
-- What `ring_buffer_avg` computes: the mean of the entries that are not 0, with no overflow.
use native.Mathlib.Nat.{le-div_iff_mul-le, div-le_of_le-mul, mod-eq_of_lt, zero-add}
use batman_adv_userspace.Base.{
  ℕ, zero, suc, ◌+◌, ◌*◌, ◌/◌, ◌%◌, ◌^◌, ◌≤◌, ◌<◌, ◌≡◌, refl, ap, List, [], ◌∷◌, some, ◌==◌,
  if◌then◌else◌, length, arith, ◌⊎◌, inl, inr, Bool-cases, ==_iff,
}
use batman_adv_userspace.RingBuffer.Defs.{ring_buffer_avg, avg_loop}

-- How many entries are not 0, and their sum, in unbounded arithmetic.
unfoldable pub heard : List ℕ → ℕ
heard [] = 0
heard (v ∷ vs) = if v == 0 then heard vs else heard vs + 1

unfoldable pub total : List ℕ → ℕ
total [] = 0
total (v ∷ vs) = v + total vs

-- Every entry is at most `m`.
abbrev pub AllAtMost : ℕ → List ℕ → Type 0
AllAtMost m [] = Unit
AllAtMost m (v ∷ vs) = (v ≤ m) × AllAtMost m vs

-- Every entry that is not 0 is at least `m`.
abbrev pub AllAtLeast : ℕ → List ℕ → Type 0
AllAtLeast m [] = Unit
AllAtLeast m (v ∷ vs) = ((v ≡ 0) ⊎ (m ≤ v)) × AllAtLeast m vs

heard-le-length : (vs : List ℕ) → heard vs ≤ length vs
unfolding heard
heard-le-length [] = omega arith
heard-le-length (v ∷ vs) = ground (arith, heard-le-length vs)

total-le : (m : ℕ) (vs : List ℕ) → AllAtMost m vs → total vs ≤ heard vs * m
unfolding heard total
total-le m [] h = omega arith
total-le m (v ∷ vs) (p, ps) = elim (Bool-cases (v == 0)) [
  | inl e ↦ rw e (omega (arith, total-le m vs ps, (==_iff v 0).0 e))
  | inr e ↦ rw e (omega (arith, total-le m vs ps))
]

le-total : (m : ℕ) (vs : List ℕ) → AllAtLeast m vs → heard vs * m ≤ total vs
unfolding heard total
le-total m [] h = omega arith
le-total m (v ∷ vs) (p, ps) = elim (Bool-cases (v == 0)) [
  | inl e ↦ rw e (omega (arith, le-total m vs ps))
  | inr e ↦ rw e (ground (arith, le-total m vs ps))
]

-- The loop adds up without a wrap while the bounds leave room.
avg_loop_lem :
    (n : ℕ) (vs : List ℕ) (count sum : ℕ)
    → length vs ≡ n
    → AllAtMost 255 vs
    → count + n < 2 ^ 16
    → sum + n * 255 < 2 ^ 16
    → avg_loop n vs count sum ≡ some (count + heard vs, sum + total vs)
unfolding avg_loop heard total
avg_loop_lem zero [] count sum l b hc hs = ground arith
avg_loop_lem zero (v ∷ vs) count sum l b hc hs = absurd (omega arith)
avg_loop_lem (suc n) [] count sum l b hc hs = absurd (omega arith)
avg_loop_lem (suc n) (v ∷ vs) count sum l (p, ps) hc hs =
    let c = if v == 0 then count else (count + 1) % 2 ^ 16 in
    let s = if v == 0 then sum else (sum + v) % 2 ^ 16 in ground (arith, avg_loop_lem n vs c s)

div-between : (s k lo hi : ℕ) → 0 < k → k * lo ≤ s → s ≤ k * hi → (lo ≤ s / k) × (s / k ≤ hi)
div-between s k lo hi hk h1 h2 =
    ((le-div_iff_mul-le {x = lo} {y = s} hk).1 (omega arith), div-le_of_le-mul k h2)

-- `ring_buffer_avg` of ten bytes does not fault, is the mean of the entries that are not 0 (0 if
-- there are none), neither sum nor count wraps, and the mean lies between any bounds of those entries.
pub ring_buffer_avg_lem :
    (lo hi : ℕ) (lq : List ℕ)
    → length lq ≡ 10
    → AllAtMost 255 lq
    → AllAtMost hi lq
    → AllAtLeast lo lq
    → (heard lq ≡ 0) × (ring_buffer_avg lq ≡ some 0)
      ⊎ (a : ℕ) × (ring_buffer_avg lq ≡ some a) × (a ≡ total lq / heard lq) × (lo ≤ a) × (a ≤ hi)
unfolding ring_buffer_avg
ring_buffer_avg_lem lo hi lq l b top bot = elim (Bool-cases (heard lq == 0)) [
  | inl e ↦ inl (
    (==_iff (heard lq) 0).0 e,
    rw (avg_loop_lem 10 lq 0 0 l b (omega arith) (omega arith), zero-add, e),
  )
  | inr e ↦
      let room = heard-le-length lq in
      let within =
        div-between (total lq) (heard lq) lo hi (ground arith) (le-total lo lq bot)
          (total-le hi lq top) in
      let byte =
        div-between (total lq) (heard lq) 0 255 (ground arith) (omega arith) (total-le 255 lq b) in
      inr (
        total lq / heard lq,
        rw (avg_loop_lem 10 lq 0 0 l b (omega arith) (omega arith), zero-add, zero-add, e)
            (ap some (mod-eq_of_lt (omega arith))),
        refl,
        within.0,
        within.1,
      )
]
