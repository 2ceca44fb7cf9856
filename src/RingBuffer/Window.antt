-- ===== src/RingBuffer/Window.antt =====
-- `ring_buffer_set` refines a sliding window: the oldest value leaves, the new one comes in.
use mathlib.Core.List.{append_assoc, append-nil}
use batman_adv_userspace.Base.{
  ℕ, zero, suc, ◌+◌, ◌%◌, ◌≤◌, ◌<◌, ◌≡◌, refl, ap, ◌∙◌, sym, List, [], ◌∷◌, ◌++◌, Option, some,
  ◌>>=◌, get_elem?, set, take, drop, length, length-set, length-append, length-drop, length-take,
  arith, inl, inr, Returns, Bool-cases, ltb,
}
use batman_adv_userspace.RingBuffer.Defs.{ring_buffer_set, tq_global_window_size}

-- The values in the order of their arrival, the oldest first: `lq_index` is the next to be replaced.
abbrev pub window : List ℕ → ℕ → List ℕ
window lq i = drop i lq ++ take i lq

pub record IsRing (lq : List ℕ) (i : ℕ) : Type 0 where
  pub full : length lq ≡ tq_global_window_size
  pub inside : i < tq_global_window_size

module _ {ℓ} {A : Type ℓ} where
  take-set :
      (xs : List A) (i : ℕ) (v : A)
      → i < length xs
      → take (suc i) (set xs i v) ≡ take i xs ++ v ∷ []
  take-set [] i v h = absurd (omega arith)
  take-set (x ∷ xs) zero v h = refl
  take-set (x ∷ xs) (suc i) v h = ap (λ t. x ∷ t) (take-set xs i v (omega arith))

  drop-set : (xs : List A) (i : ℕ) (v : A) → drop (suc i) (set xs i v) ≡ drop (suc i) xs
  drop-set [] i v = refl
  drop-set (x ∷ xs) zero v = refl
  drop-set (x ∷ xs) (suc i) v = drop-set xs i v

  drop-cons :
      (xs : List A) (i : ℕ)
      → i < length xs
      → (x : A) × (get_elem? xs i ≡ some x) × (drop i xs ≡ x ∷ drop (suc i) xs)
  drop-cons [] i h = absurd (omega arith)
  drop-cons (x ∷ xs) zero h = (x, refl, refl)
  drop-cons (x ∷ xs) (suc i) h = drop-cons xs i (omega arith)

  drop_all : (xs : List A) (i : ℕ) → length xs ≤ i → drop i xs ≡ []
  drop_all [] zero h = refl
  drop_all [] (suc i) h = refl
  drop_all (x ∷ xs) zero h = absurd (omega arith)
  drop_all (x ∷ xs) (suc i) h = drop_all xs i (omega arith)

  take_all : (xs : List A) (i : ℕ) → length xs ≤ i → take i xs ≡ xs
  take_all [] zero h = refl
  take_all [] (suc i) h = refl
  take_all (x ∷ xs) zero h = absurd (omega arith)
  take_all (x ∷ xs) (suc i) h = ap (λ t. x ∷ t) (take_all xs i (omega arith))

-- What one call leaves behind.
record Slides (lq : List ℕ) (i v : ℕ) (r : List ℕ × ℕ) : Type 0 where
  ring : IsRing r.0 r.1
  slides : window r.0 r.1 ≡ drop 1 (window lq i) ++ v ∷ []

window-set :
    (lq : List ℕ) (i v : ℕ)
    → IsRing lq i
    → window (set lq i v) ((i + 1) % 10) ≡ drop 1 (window lq i) ++ v ∷ []
window-set lq i v r =
    let (x, found, dropped) = drop-cons lq i (omega arith) in
    elim (Bool-cases (ltb i 9)) [
      | inl e ↦
          let next : (i + 1) % 10 ≡ suc i = ground arith in
          rw (next, drop-set lq i v, take-set lq i v (omega arith), dropped)
            (sym (append_assoc (drop (suc i) lq) (take i lq) (v ∷ [])))
      | inr e ↦
          let last : (i + 1) % 10 ≡ 0 = ground arith in
          let top : suc i ≡ 10 = ground arith in
          let whole = take_all (set lq i v) (suc i) (rw length-set (omega arith)) in
          let nothing = drop_all lq (suc i) (omega arith) in
          rw (last, dropped, nothing, append-nil) (sym whole ∙ take-set lq i v (omega arith))
    ]

set-Slides :
    (lq : List ℕ) (i v : ℕ) → IsRing lq i → Returns (ring_buffer_set lq i v) (Slides lq i v)
unfolding ring_buffer_set
set-Slides lq i v r =
    let (x, found, dropped) = drop-cons lq i (omega arith) in
    (
      (set lq i v, (i + 1) % 10),
      rw (found, ring_buffer_set),
      record {
        ring = record { full = length-set lq i v ∙ r.full; inside = omega arith };
        slides = window-set lq i v r;
      },
    )

-- A run of calls, one for each value.
unfoldable pub ring_buffer_set_all : List ℕ → ℕ → List ℕ → Option (List ℕ × ℕ)
ring_buffer_set_all lq i [] = some (lq, i)
ring_buffer_set_all lq i (v ∷ vs) = do
  (lq', i') ← ring_buffer_set lq i v
  ring_buffer_set_all lq' i' vs

drop-append_one :
    (w vs : List ℕ) (v : ℕ)
    → 0 < length w
    → drop (length vs) ((drop 1 w ++ v ∷ []) ++ vs) ≡ drop (suc (length vs)) (w ++ v ∷ vs)
drop-append_one [] vs v h = absurd (omega arith)
drop-append_one (x ∷ w) vs v h = ap (drop (length vs)) (append_assoc w (v ∷ []) vs)

length-window : (lq : List ℕ) (i : ℕ) → IsRing lq i → length (window lq i) ≡ 10
length-window lq i r =
    omega (arith, length-append (drop i lq) (take i lq), length-drop i lq, length-take i lq)

-- From a ring of ten entries with its index inside, any run of `ring_buffer_set` calls stays inside
-- the array and leaves such a ring; what it then holds, oldest first, is what is left of the old
-- contents followed by the values of the run, less as many of the oldest as came in.
pub ring_buffer_set_all_slides :
    (vs lq : List ℕ) (i : ℕ)
    → IsRing lq i
    → Returns
        (ring_buffer_set_all lq i vs)
        λ r. IsRing r.0 r.1 × (window r.0 r.1 ≡ drop (length vs) (window lq i ++ vs))
unfolding ring_buffer_set_all
ring_buffer_set_all_slides [] lq i r = ((lq, i), refl, (r, sym (append-nil _)))
ring_buffer_set_all_slides (v ∷ vs) lq i r =
    let ((lq', i'), run, s) = set-Slides lq i v r in
    let (out, runs, (ring, holds)) = ring_buffer_set_all_slides vs lq' i' s.ring in
    let pos : 0 < length (window lq i) = omega (arith, length-window lq i r) in
    (
      out,
      rw run runs,
      (
        ring,
        holds
            ∙ (ap (λ w. drop (length vs) (w ++ vs)) s.slides
                ∙ drop-append_one (window lq i) vs v pos),
      ),
    )
