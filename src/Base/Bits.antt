-- ===== src/Base/Bits.antt =====
-- Laws of `&` and `|` at variables, from their recursion on the lowest binary digit.
use Prim.Native.Nat.{◌<◌, ◌-◌, ◌^◌, ℕ, zero, suc, ◌+◌, ◌*◌, ◌/◌, ◌%◌, ◌≤◌, min, max}
use Prim.Native.Nat.{bit_and, bit_or, digits, bitwise, bit_and-bitwise, bit_or-bitwise}
use mathlib.Core.Path.{◌≡◌, refl, ap, sym, ◌∙◌}
use native.Mathlib.Nat.{le_refl, zero-add, pow-suc, mul_comm, div-div-eq-div-mul}
use native.Mathlib.Omega.{arith}

module _ (empty : ℕ → ℕ) (digit : ℕ → ℕ → ℕ) where
  -- Fuel that the left number bounds serves as well as that number itself; `bound` bounds the fuel.
  enough_fuel :
      (bound fuel y x : ℕ)
      → fuel ≤ bound
      → x ≤ fuel
      → digits empty digit fuel x y ≡ bitwise empty digit x y
  enough_fuel bound zero y zero small le = refl
  enough_fuel bound (suc fuel) y zero small le = refl
  enough_fuel bound zero y (suc x) small le = absurd (omega arith)
  enough_fuel zero (suc fuel) y (suc x) small le = absurd (omega arith)
  enough_fuel (suc bound) (suc fuel) y (suc x) small le =
      let given = enough_fuel bound fuel (y / 2) (suc x / 2) (omega arith) (omega arith) in
      let own = enough_fuel bound x (y / 2) (suc x / 2) (omega arith) (omega arith) in
      omega (arith, given, own)

  lowest_digit :
      (x y : ℕ)
      → bitwise empty digit (suc x) y
        ≡ digit (suc x % 2) (y % 2) + 2 * bitwise empty digit (suc x / 2) (y / 2)
  lowest_digit x y =
      let shorter = enough_fuel x x (y / 2) (suc x / 2) (omega arith) (omega arith) in
      omega (arith, shorter)

-- `|` and `&` by their lowest digit.
pub bit_or_step : (x y : ℕ) → bit_or x y ≡ max (x % 2) (y % 2) + 2 * bit_or (x / 2) (y / 2)
bit_or_step (suc x) y = simp bit_or-bitwise (lowest_digit (λ rest. rest) max x y)
bit_or_step zero y = simp bit_or-bitwise (omega arith)

pub bit_and_step : (x y : ℕ) → bit_and x y ≡ min (x % 2) (y % 2) + 2 * bit_and (x / 2) (y / 2)
bit_and_step (suc x) y = simp bit_and-bitwise (lowest_digit (λ rest. 0) min x y)
bit_and_step zero y = simp bit_and-bitwise (omega arith)

-- `|` and `&` with 0 and with the number itself, by recursion on a bound of it.
record AtEnds (x : ℕ) : Type 0 where
  or_nothing : bit_or x 0 ≡ x
  and_nothing : bit_and x 0 ≡ 0
  and_same : bit_and x x ≡ x

at_ends : (bound x : ℕ) → x ≤ bound → AtEnds x
at_ends bound zero le = record { or_nothing = refl; and_nothing = refl; and_same = refl }
at_ends zero (suc x) le = absurd (omega arith)
at_ends (suc bound) (suc x) le =
    let half = at_ends bound (suc x / 2) (omega arith) in
    record {
      or_nothing = omega (arith, bit_or_step (suc x) 0, half.or_nothing);
      and_nothing = omega (arith, bit_and_step (suc x) 0, half.and_nothing);
      and_same = omega (arith, bit_and_step (suc x) (suc x), half.and_same);
    }

pub bit_and_self : (x : ℕ) → bit_and x x ≡ x
bit_and_self x = (at_ends x x (le_refl x)).and_same

-- The binary digit of `w` at place `i`.
abbrev pub bit_at : ℕ → ℕ → ℕ
bit_at w i = w / 2 ^ i % 2

bit_at-suc : (w i : ℕ) → bit_at w (suc i) ≡ bit_at (w / 2) i
bit_at-suc w i = rw (pow-suc, mul_comm (2 ^ i) 2, ← div-div-eq-div-mul w 2 (2 ^ i))

-- `w | 1 << i` adds the digit where it is 0.
pub bit_or-pow : (i w : ℕ) → bit_or w (2 ^ i) ≡ w + (1 - bit_at w i) * 2 ^ i
bit_or-pow zero w = omega (arith, bit_or_step w 1, (at_ends (w / 2) (w / 2) (le_refl _)).or_nothing)
bit_or-pow (suc i) w =
    let half : 2 ^ suc i / 2 ≡ 2 ^ i = omega (arith, pow-suc 2 i) in
    let even : 2 ^ suc i % 2 ≡ 0 = omega (arith, pow-suc 2 i) in
    let step : bit_or w (2 ^ suc i) ≡ bit_or (w / 2) (2 ^ i) * 2 + w % 2 =
      omega (arith, bit_or_step w (2 ^ suc i), ap (bit_or (w / 2)) half) in
    rw (step, bit_or-pow i (w / 2), bit_at-suc w i, pow-suc) (omega arith)

-- `w & 1 << i` is the digit in its place.
pub bit_and-pow : (i w : ℕ) → bit_and w (2 ^ i) ≡ bit_at w i * 2 ^ i
bit_and-pow zero w =
    omega (arith, bit_and_step w 1, (at_ends (w / 2) (w / 2) (le_refl _)).and_nothing)
bit_and-pow (suc i) w =
    let half : 2 ^ suc i / 2 ≡ 2 ^ i = omega (arith, pow-suc 2 i) in
    let even : 2 ^ suc i % 2 ≡ 0 = omega (arith, pow-suc 2 i) in
    let step : bit_and w (2 ^ suc i) ≡ bit_and (w / 2) (2 ^ i) * 2 =
      omega (arith, bit_and_step w (2 ^ suc i), ap (bit_and (w / 2)) half) in
    rw (step, bit_and-pow i (w / 2), bit_at-suc w i, pow-suc) (omega arith)

bit_or_zero_left : (b : ℕ) → bit_or 0 b ≡ b
bit_or_zero_left b = bit_or-bitwise 0 b

-- `|` of a number below `2 ^ k` and a multiple of `2 ^ k` is their sum.
pub bit_or-disjoint : (k r q : ℕ) → r < 2 ^ k → bit_or r (q * 2 ^ k) ≡ r + q * 2 ^ k
bit_or-disjoint zero r q h =
    let none_left : r ≡ 0 = omega arith in
    rw none_left (bit_or_zero_left (q * 2 ^ 0) ∙ sym (zero-add _))
bit_or-disjoint (suc k) r q h =
    let double : q * 2 ^ suc k ≡ q * 2 ^ k * 2 = rw pow-suc (omega arith) in
    let half : q * 2 ^ suc k / 2 ≡ q * 2 ^ k = omega arith in
    let step : bit_or r (q * 2 ^ suc k) ≡ bit_or (r / 2) (q * 2 ^ k) * 2 + r % 2 =
      omega (arith, bit_or_step r (q * 2 ^ suc k), ap (bit_or (r / 2)) half) in
    let small : r / 2 < 2 ^ k = omega (arith, pow-suc 2 k) in
    step ∙ rw (bit_or-disjoint k (r / 2) q small) (omega arith)
