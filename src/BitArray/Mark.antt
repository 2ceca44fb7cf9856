-- ===== src/BitArray/Mark.antt =====
-- `bit_mark`: the one digit that it sets, and where `1<<offset` fails.
use native.Mathlib.Nat.{
  div-div-eq-div-mul, mul_comm, pow-suc, one-le-pow, add-mul-div_left, mul-le-mul_right,
  lt-div-mul-add, div-lt_iff_lt-mul,
}
use mathlib.Core.Path.{subst}
use batman_adv_userspace.Base.{
  ℕ, suc, ◌+◌, ◌-◌, ◌*◌, ◌/◌, ◌%◌, ◌^◌, ◌≤◌, ◌<◌, ◌≡◌, refl, ap, ap₂, ◌∙◌, sym, [], ◌∷◌, ◌⊎◌, none,
  some, ◌==◌, arith, inl, inr, Bool-cases, Returns, ltb, bit_or, bit_or-pow, bit_or-disjoint,
  bit_at,
}
use batman_adv_userspace.BitArray.Defs.{Words, bit_mark, one_shl}
use batman_adv_userspace.BitArray.Shift.{value, IsWindow, pow-add}

-- The places that `1<<(n % WORD_BIT_SIZE)`, a shift of an int, marks as meant: all 64 with words of
-- 32 bits, and the first 31 with words of 64 bits.
abbrev pub IsMarkable : ℕ → ℕ → Type 0
IsMarkable k n = ((k ≡ 32) × (n < 64)) ⊎ ((k ≡ 64) × (n < 31))

pub one_shl_32 : (i : ℕ) → i < 32 → one_shl 32 i ≡ some (2 ^ i)
unfolding one_shl
one_shl_32 i lt = elim (Bool-cases (ltb i 31)) [
  | inl e ↦ rw e
  | inr e ↦ let last : i ≡ 31 = ground arith in rw last
]

one_shl_low : (k i : ℕ) → i < 31 → one_shl k i ≡ some (2 ^ i)
unfolding one_shl
one_shl_low k i lt = ground arith

-- A digit of the upper word of two.
pub bit_at_high : (lo hi i : ℕ) → lo < 2 ^ 32 → bit_at (lo + 2 ^ 32 * hi) (32 + i) ≡ bit_at hi i
bit_at_high lo hi i h =
    let shifted : (lo + 2 ^ 32 * hi) / 2 ^ 32 ≡ hi = omega arith in
    rw (pow-add 32 i, ← div-div-eq-div-mul (lo + 2 ^ 32 * hi) (2 ^ 32) (2 ^ i), shifted)

pub bit_at_low : (lo hi i : ℕ) → lo < 2 ^ 32 → i < 32 → bit_at (lo + 2 ^ 32 * hi) i ≡ bit_at lo i
bit_at_low lo hi i h lt =
    let sum : 32 ≡ i + suc (31 - i) = omega arith in
    let split : 2 ^ 32 ≡ 2 ^ i * (2 ^ (31 - i) * 2) =
      ap (λ (t : ℕ). 2 ^ t) sum
      ∙ (pow-add i (suc (31 - i)) ∙ ap (λ (t : ℕ). 2 ^ i * t) (pow-suc 2 (31 - i))) in
    let moved : lo + 2 ^ 32 * hi ≡ lo + 2 ^ i * (2 ^ (31 - i) * 2 * hi) =
      omega (arith, ap (λ (t : ℕ). t * hi) split) in
    rw (moved, add-mul-div_left lo (2 ^ (31 - i) * 2 * hi) (one-le-pow i 2 (omega arith)))
      (omega arith)

digit_room :
    (w p q d : ℕ) → d ≡ w / p → 0 < p → d < 2 * q → w < 2 * q * p → w + (1 - d % 2) * p < 2 * q * p
digit_room w p q d e pos dlt wlt = elim (Bool-cases (d % 2 == 1)) [
  | inl odd ↦ let o : d % 2 ≡ 1 = ground arith in rw o (omega arith)
  | inr even ↦
      let o : d % 2 ≡ 0 = ground arith in
      let up : (d + 2) * p ≤ 2 * q * p = mul-le-mul_right p (omega arith) in
      let near : w < w / p * p + p = lt-div-mul-add pos in
      let near' : w < d * p + p = rw e near in rw o (omega (arith, near', up))
]

-- Setting a digit below `k` keeps a word of `k` bits.
set_fits : (k i w : ℕ) → i < k → w < 2 ^ k → w + (1 - bit_at w i) * 2 ^ i < 2 ^ k
set_fits k i w lt h =
    let sum : k ≡ suc (k - 1 - i) + i = omega arith in
    let split : 2 ^ k ≡ 2 * 2 ^ (k - 1 - i) * 2 ^ i =
      ap (λ (t : ℕ). 2 ^ t) sum
      ∙ (pow-add (suc (k - 1 - i)) i
          ∙ ap (λ (t : ℕ). t * 2 ^ i) (pow-suc 2 (k - 1 - i) ∙ mul_comm (2 ^ (k - 1 - i)) 2)) in
    let h' : w < 2 * 2 ^ (k - 1 - i) * 2 ^ i = rw (← split) h in
    let pos = one-le-pow i 2 (omega arith) in
    rw split (
      digit_room w (2 ^ i) (2 ^ (k - 1 - i)) (w / 2 ^ i) refl pos ((div-lt_iff_lt-mul pos).1 h') h')

-- What marking place `n` leaves behind: that digit is 1, and no other has changed.
abbrev pub Marks : ℕ → Words → ℕ → Words → Type 0
Marks k ws n ws' = IsWindow k ws' × (value k ws' ≡ value k ws + (1 - bit_at (value k ws) n) * 2 ^ n)

Marks-32 :
    (n lo hi : ℕ)
    → n < 64
    → lo < 2 ^ 32
    → hi < 2 ^ 32
    → Returns (bit_mark 32 (lo ∷ hi ∷ []) n) (Marks 32 (lo ∷ hi ∷ []) n)
unfolding bit_mark
Marks-32 n lo hi lt a b = elim (Bool-cases (ltb n 32)) [
  | inl e ↦
      let q : n / 32 ≡ 0 = ground arith in
      let r : n % 32 ≡ n = ground arith in
      let i : n < 32 = ground arith in
      let whole : value 32 (lo ∷ hi ∷ []) ≡ lo + 2 ^ 32 * hi = omega arith in
      let digit : bit_at (value 32 (lo ∷ hi ∷ [])) n ≡ bit_at lo n =
        ap (λ (t : ℕ). bit_at t n) whole ∙ bit_at_low lo hi n a i in
      (
        bit_or lo (2 ^ n) ∷ hi ∷ [],
        rw (q, r, one_shl_32 n i) (ground arith),
        (
          rw (bit_or-pow n lo) (record { size = refl; fits = (set_fits 32 n lo i a, (b, tt)) }),
          rw (bit_or-pow n lo, digit) (omega arith),
        ),
      )
  | inr e ↦
      let q : n / 32 ≡ 1 = ground arith in
      let r : n % 32 ≡ n - 32 = ground arith in
      let i : n - 32 < 32 = ground arith in
      let sum : n ≡ 32 + (n - 32) = ground arith in
      let whole : value 32 (lo ∷ hi ∷ []) ≡ lo + 2 ^ 32 * hi = omega arith in
      let digit : bit_at (value 32 (lo ∷ hi ∷ [])) n ≡ bit_at hi (n - 32) =
        ap₂ bit_at whole sum ∙ bit_at_high lo hi (n - 32) a in
      let place : 2 ^ n ≡ 2 ^ 32 * 2 ^ (n - 32) = ap (λ (t : ℕ). 2 ^ t) sum ∙ pow-add 32 (n - 32) in
      (
        lo ∷ bit_or hi (2 ^ (n - 32)) ∷ [],
        rw (q, r, one_shl_32 (n - 32) i) (ground arith),
        (
          rw (bit_or-pow (n - 32) hi)
              (record { size = refl; fits = (a, (set_fits 32 (n - 32) hi i b, tt)) }),
          rw (bit_or-pow (n - 32) hi, digit, place) (omega arith),
        ),
      )
]

Marks-64 : (n w : ℕ) → n < 31 → w < 2 ^ 64 → Returns (bit_mark 64 (w ∷ []) n) (Marks 64 (w ∷ []) n)
unfolding bit_mark
Marks-64 n w lt a =
    let q : n / 64 ≡ 0 = omega arith in
    let r : n % 64 ≡ n = omega arith in
    let whole : value 64 (w ∷ []) ≡ w = omega arith in
    let digit : bit_at (value 64 (w ∷ [])) n ≡ bit_at w n = ap (λ (t : ℕ). bit_at t n) whole in
    (
      bit_or w (2 ^ n) ∷ [],
      rw (q, r, one_shl_low 64 n lt) (ground arith),
      (
        rw (bit_or-pow n w) (record { size = refl; fits = (set_fits 64 n w (omega arith) a, tt) }),
        rw (bit_or-pow n w, digit) (omega arith),
      ),
    )

-- Where the int shift serves, `bit_mark` does not fault, keeps the words in range, and sets the
-- digit `n` of the window and no other.
pub bit_mark-value :
    (k n : ℕ) (seq_bits : Words)
    → IsMarkable k n
    → IsWindow k seq_bits
    → Returns (bit_mark k seq_bits n) (Marks k seq_bits n)
bit_mark-value k n ws (inl (e, lt)) v =
    subst (λ (k : ℕ). IsWindow k ws → Returns (bit_mark k ws n) (Marks k ws n)) (sym e) (of_32 ws) v
  where
    of_32 : (ws : Words) → IsWindow 32 ws → Returns (bit_mark 32 ws n) (Marks 32 ws n)
    of_32 [] v = absurd (omega arith)
    of_32 (lo ∷ []) v = absurd (omega arith)
    of_32 (lo ∷ hi ∷ []) v = Marks-32 n lo hi lt v.fits.0 v.fits.1.0
    of_32 (lo ∷ hi ∷ x ∷ r) v = absurd (omega arith)
bit_mark-value k n ws (inr (e, lt)) v =
    subst (λ (k : ℕ). IsWindow k ws → Returns (bit_mark k ws n) (Marks k ws n)) (sym e) (of_64 ws) v
  where
    of_64 : (ws : Words) → IsWindow 64 ws → Returns (bit_mark 64 ws n) (Marks 64 ws n)
    of_64 [] v = absurd (omega arith)
    of_64 (w ∷ []) v = Marks-64 n w lt v.fits.0
    of_64 (w ∷ x ∷ r) v = absurd (omega arith)

-- With words of 64 bits a mark from the 32nd place on shifts the int 1 by its width or more: it
-- faults.
pub bit_mark-faults_64 :
    (n : ℕ) (seq_bits : Words) → 32 ≤ n → n < 64 → bit_mark 64 seq_bits n ≡ none
unfolding bit_mark
bit_mark-faults_64 n ws lo hi = ground arith

-- With one word of 64 bits a mark at the place 31 also sets all the places above it.
pub bit_mark-smears_64 :
    (w : ℕ) → w < 2 ^ 31 → bit_mark 64 (w ∷ []) 31 ≡ some ((w + (2 ^ 64 - 2 ^ 31)) ∷ [])
unfolding bit_mark
bit_mark-smears_64 w h = ap (λ (t : ℕ). some (t ∷ [])) (bit_or-disjoint 31 w (2 ^ 33 - 1) h)
