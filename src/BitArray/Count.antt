-- ===== src/BitArray/Count.antt =====
-- `bit_packet_count`: the loop that clears one bit a round ends, and counts the ones.
use batman_adv_userspace.Base.{
  ℕ, zero, suc, ◌+◌, ◌-◌, ◌*◌, ◌/◌, ◌%◌, ◌^◌, ◌≤◌, ◌<◌, bit_and, ◌≡◌, refl, ap, ◌∙◌, [], ◌∷◌, some,
  ◌==◌, arith, inl, inr, bit_and_step, bit_and_self, Bool-cases, length,
}
use native.Mathlib.Nat.{pow-suc}
use batman_adv_userspace.BitArray.Defs.{Words, kernighan, bit_packet_count, bit_packet_count_from}

-- The ones among the lowest `k` binary digits.
unfoldable pub ones : ℕ → ℕ → ℕ
ones zero n = 0
ones (suc k) n = n % 2 + ones k (n / 2)

unfoldable pub ones_all : ℕ → Words → ℕ
ones_all k [] = 0
ones_all k (w ∷ ws) = ones k w + ones_all k ws

-- Every word fits `k` bits.
abbrev pub AllFit : ℕ → Words → Type 0
AllFit k [] = Unit
AllFit k (w ∷ ws) = (w < 2 ^ k) × AllFit k ws

-- `w & (w - 1)` of a number that is not 0 has one digit 1 less, and is smaller.
clear_lowest :
    (k w : ℕ)
    → w < 2 ^ k
    → 0 < w
    → (ones k (bit_and w (w - 1)) + 1 ≡ ones k w) × (bit_and w (w - 1) < w)
unfolding ones
clear_lowest zero w h pos = absurd (omega arith)
clear_lowest (suc k) w h pos = elim (Bool-cases (w % 2 == 1)) [
  | inl e ↦
      let odd : w % 2 ≡ 1 = ground arith in
      let halves : (w - 1) / 2 ≡ w / 2 = omega arith in
      let step : bit_and w (w - 1) ≡ w / 2 * 2 =
        omega (arith, bit_and_step w (w - 1), bit_and_self (w / 2), ap (bit_and (w / 2)) halves) in
      let half : w / 2 * 2 / 2 ≡ w / 2 = omega arith in rw (step, half) (omega arith)
  | inr e ↦
      let even : w % 2 ≡ 0 = ground arith in
      let halves : (w - 1) / 2 ≡ w / 2 - 1 = omega arith in
      let step : bit_and w (w - 1) ≡ bit_and (w / 2) (w / 2 - 1) * 2 =
        omega (arith, bit_and_step w (w - 1), ap (bit_and (w / 2)) halves) in
      let half : bit_and (w / 2) (w / 2 - 1) * 2 / 2 ≡ bit_and (w / 2) (w / 2 - 1) = omega arith in
      let rest = clear_lowest k (w / 2) (omega (arith, pow-suc 2 k)) (omega arith) in
      rw (step, half) (omega arith)
]

ones-zero : (k : ℕ) → ones k 0 ≡ 0
unfolding ones
ones-zero zero = refl
ones-zero (suc k) = omega (arith, ones-zero k)

kernighan_lem : (k fuel w h : ℕ) → w < 2 ^ k → w < fuel → kernighan fuel w h ≡ some (h + ones k w)
unfolding kernighan
kernighan_lem k zero w h fit enough = absurd (omega arith)
kernighan_lem k (suc fuel) zero h fit enough = ground (arith, ones-zero k)
kernighan_lem k (suc fuel) (suc w) h fit enough =
    let (fewer, smaller) = clear_lowest k (suc w) fit (omega arith) in
    let rest =
      kernighan_lem k fuel (bit_and (suc w) (suc w - 1)) (h + 1) (omega arith) (omega arith) in
    ground (arith, rest)

ones-le : (k n : ℕ) → ones k n ≤ k
unfolding ones
ones-le zero n = omega arith
ones-le (suc k) n = omega (arith, ones-le k (n / 2))

ones_all-le : (k : ℕ) (ws : Words) → ones_all k ws ≤ length ws * k
unfolding ones_all
ones_all-le k [] = omega arith
ones_all-le k (w ∷ ws) = omega (arith, ones-le k w, ones_all-le k ws)

count_from :
    (k h : ℕ) (ws : Words) → AllFit k ws → bit_packet_count_from h ws ≡ some (h + ones_all k ws)
unfolding bit_packet_count_from ones_all
count_from k h [] fit = ap some (omega arith)
count_from k h (w ∷ ws) (f, fs) =
    rw (kernighan_lem k (w + 1) w h f (omega arith))
      (count_from k (h + ones k w) ws fs ∙ ap some (omega arith))

-- For words that fit `k` bits the loops of `bit_packet_count` end, and the result is the number of
-- ones of all the words, at most the number of bits that they have together.
pub bit_packet_count_lem :
    (k : ℕ) (seq_bits : Words)
    → AllFit k seq_bits
    → (bit_packet_count seq_bits ≡ some (ones_all k seq_bits))
      × (ones_all k seq_bits ≤ length seq_bits * k)
unfolding bit_packet_count
bit_packet_count_lem k seq_bits fit =
    (count_from k 0 seq_bits fit ∙ ap some (omega arith), ones_all-le k seq_bits)
