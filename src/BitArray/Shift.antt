-- ===== src/BitArray/Shift.antt =====
-- `bit_shift` at the two widths of `unsigned long`, and where it leaves the array.
use native.Mathlib.Nat.{pow-suc, one-le-pow, mul-div-mul_right, le-div_iff_mul-le, div-mul-le_self}
use mathlib.Core.Path.{subst}
use batman_adv_userspace.Base.{
  ℕ, zero, suc, ◌+◌, ◌-◌, ◌*◌, ◌/◌, ◌%◌, ◌^◌, ◌≤◌, ◌<◌, ◌≡◌, refl, ap, ◌∙◌, sym, [], ◌∷◌, ◌⊎◌, none,
  some, arith, inl, inr, Bool-cases, Returns, length, leb,
}
use batman_adv_userspace.BitArray.Defs.{Words, num_words, bit_shift}
use batman_adv_userspace.BitArray.Count.{AllFit}

-- The number whose binary digits are the window, the newest sequence number lowest.
abbrev pub value : ℕ → Words → ℕ
value k [] = 0
value k (w ∷ ws) = w + 2 ^ k * value k ws

pub record IsWindow (k : ℕ) (ws : Words) : Type 0 where
  pub size : length ws ≡ num_words k
  pub fits : AllFit k ws

pub pow-add : (a b : ℕ) → 2 ^ (a + b) ≡ 2 ^ a * 2 ^ b
pow-add zero b = ground (arith, ap (λ (t : ℕ). 2 ^ t) (zero_plus b))
  where
    zero_plus : (n : ℕ) → zero + n ≡ n
    zero_plus n = omega arith
pow-add (suc a) b =
    let e : suc a + b ≡ suc (a + b) = omega arith in
    rw (e, pow-suc, pow-suc, pow-add a b) (grind arith)

shift_64 : (n w : ℕ) → 0 < n → n < 64 → bit_shift 64 (w ∷ []) n ≡ some ((w * 2 ^ n % 2 ^ 64) ∷ [])
unfolding bit_shift
shift_64 n w pos lt =
    let q : n / 64 ≡ 0 = omega arith in let r : n % 64 ≡ n = omega arith in rw (q, r) (ground arith)

shift_32_low :
    (n lo hi : ℕ)
    → 0 < n
    → n < 32
    → bit_shift 32 (lo ∷ hi ∷ []) n
      ≡ some ((lo * 2 ^ n % 2 ^ 32) ∷ ((hi * 2 ^ n % 2 ^ 32 + lo / 2 ^ (32 - n)) % 2 ^ 32) ∷ [])
unfolding bit_shift
shift_32_low n lo hi pos lt =
    let q : n / 32 ≡ 0 = omega arith in let r : n % 32 ≡ n = omega arith in rw (q, r) (ground arith)

shift_32_high :
    (n lo hi : ℕ)
    → 32 ≤ n
    → n < 64
    → bit_shift 32 (lo ∷ hi ∷ []) n ≡ some (0 ∷ (lo * 2 ^ (n - 32) % 2 ^ 32) ∷ [])
unfolding bit_shift
shift_32_high n lo hi pos lt =
    let q : n / 32 ≡ 1 = omega arith in
    let r : n % 32 ≡ n - 32 = omega arith in rw (q, r) (ground arith)

-- Two words of 32 bits, shifted by a number whose power is `p`; `q` is the power of what is left.
two_words :
    (lo hi p q : ℕ)
    → 0 < p
    → q * p ≡ 2 ^ 32
    → lo * p % 2 ^ 32 + 2 ^ 32 * ((hi * p % 2 ^ 32 + lo / q) % 2 ^ 32)
      ≡ (lo + 2 ^ 32 * hi) * p % 2 ^ 64
two_words lo hi p q pos e =
    let carry : lo * p / 2 ^ 32 ≡ lo / q = rw (← e) (mul-div-mul_right lo q pos) in
    omega (arith, carry)

high_word : (lo hi p : ℕ) → 2 ^ 32 * (lo * p % 2 ^ 32) ≡ (lo + 2 ^ 32 * hi) * (2 ^ 32 * p) % 2 ^ 64
high_word lo hi p = omega arith

-- What a shift by `n` inside the window leaves behind.
abbrev pub Shifts : ℕ → Words → ℕ → Words → Type 0
Shifts k ws n ws' = IsWindow k ws' × (value k ws' ≡ value k ws * 2 ^ n % 2 ^ 64)

Shifts-32 :
    (n lo hi : ℕ)
    → n < 64
    → lo < 2 ^ 32
    → hi < 2 ^ 32
    → Returns (bit_shift 32 (lo ∷ hi ∷ []) n) (Shifts 32 (lo ∷ hi ∷ []) n)
Shifts-32 zero lo hi lt a b = (
  lo ∷ hi ∷ [],
  unfold bit_shift in refl,
  (record { size = refl; fits = (a, (b, tt)) }, omega arith),
)
Shifts-32 (suc m) lo hi lt a b = elim (Bool-cases (leb 32 (suc m))) [
  | inl e ↦
      let above : 32 ≤ suc m = ground arith in
      let sum : suc m ≡ 32 + (suc m - 32) = omega arith in
      let split : 2 ^ suc m ≡ 2 ^ 32 * 2 ^ (suc m - 32) =
        ap (λ (t : ℕ). 2 ^ t) sum ∙ pow-add 32 (suc m - 32) in
      (
        _,
        shift_32_high (suc m) lo hi above lt,
        (
          record { size = refl; fits = omega arith },
          omega (
            arith,
            high_word lo hi (2 ^ (suc m - 32)),
            ap (λ (t : ℕ). (lo + 2 ^ 32 * hi) * t % 2 ^ 64) split,
          ),
        ),
      )
  | inr e ↦
      let below : suc m < 32 = ground arith in
      let sum : 32 - suc m + suc m ≡ 32 = omega arith in
      let split : 2 ^ (32 - suc m) * 2 ^ suc m ≡ 2 ^ 32 =
        sym (pow-add (32 - suc m) (suc m)) ∙ ap (λ (t : ℕ). 2 ^ t) sum in
      (
        _,
        shift_32_low (suc m) lo hi (omega arith) below,
        (
          record { size = refl; fits = omega arith },
          omega (
            arith,
            two_words lo hi (2 ^ suc m) (2 ^ (32 - suc m)) (one-le-pow (suc m) 2 (omega arith))
                split,
          ),
        ),
      )
]

Shifts-64 :
    (n w : ℕ) → n < 64 → w < 2 ^ 64 → Returns (bit_shift 64 (w ∷ []) n) (Shifts 64 (w ∷ []) n)
Shifts-64 zero w lt a =
    (w ∷ [], unfold bit_shift in refl, (record { size = refl; fits = (a, tt) }, omega arith))
Shifts-64 (suc m) w lt a = (
  _,
  shift_64 (suc m) w (omega arith) lt,
  (record { size = refl; fits = omega arith }, omega arith),
)

-- At 32 or 64 bits to the word, a shift by less than the window does not fault, keeps the words in
-- range, and multiplies the window, read as a number, by 2 ^ n, dropping what leaves it.
pub bit_shift-value :
    (k n : ℕ) (seq_bits : Words)
    → (k ≡ 32) ⊎ (k ≡ 64)
    → IsWindow k seq_bits
    → n < 64
    → Returns (bit_shift k seq_bits n) (Shifts k seq_bits n)
bit_shift-value k n ws (inl e) v lt =
    subst (λ (k : ℕ). IsWindow k ws → Returns (bit_shift k ws n) (Shifts k ws n)) (sym e) (of_32 ws)
      v
  where
    of_32 : (ws : Words) → IsWindow 32 ws → Returns (bit_shift 32 ws n) (Shifts 32 ws n)
    of_32 [] v = absurd (omega arith)
    of_32 (lo ∷ []) v = absurd (omega arith)
    of_32 (lo ∷ hi ∷ []) v = Shifts-32 n lo hi lt v.fits.0 v.fits.1.0
    of_32 (lo ∷ hi ∷ x ∷ r) v = absurd (omega arith)
bit_shift-value k n ws (inr e) v lt =
    subst (λ (k : ℕ). IsWindow k ws → Returns (bit_shift k ws n) (Shifts k ws n)) (sym e) (of_64 ws)
      v
  where
    of_64 : (ws : Words) → IsWindow 64 ws → Returns (bit_shift 64 ws n) (Shifts 64 ws n)
    of_64 [] v = absurd (omega arith)
    of_64 (w ∷ []) v = Shifts-64 n w lt v.fits.0
    of_64 (w ∷ x ∷ r) v = absurd (omega arith)

-- A shift by the whole window or more reads below the array, at every word width.
pub bit_shift-faults : (k n : ℕ) (seq_bits : Words) → 0 < k → 64 ≤ n → bit_shift k seq_bits n ≡ none
unfolding bit_shift
bit_shift-faults k n ws pos h =
    let past : 64 / k ≤ n / k =
      (le-div_iff_mul-le {x = 64 / k} {y = n} pos).1 (omega (arith, div-mul-le_self 64 k)) in
    ground arith
