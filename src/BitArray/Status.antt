-- ===== src/BitArray/Status.antt =====
-- `get_bit_status`: the digit that it reads, and where its index is out of the array.
use native.Mathlib.Nat.{one-le-pow}
use batman_adv_userspace.Base.{
  ℕ, ◌+◌, ◌-◌, ◌*◌, ◌/◌, ◌%◌, ◌^◌, ◌≤◌, ◌<◌, ◌≡◌, refl, ap, ap₂, ◌∙◌, [], ◌∷◌, ◌⊎◌, none, some,
  ◌==◌, if◌then◌else◌, arith, inl, inr, Bool-cases, ltb, leb, ◌||◌, bit_and, bit_and-pow, bit_at,
  true, false,
}
use batman_adv_userspace.BitArray.Defs.{Words, get_bit_status, is_negative, word_num_of, word_at}
use batman_adv_userspace.BitArray.Shift.{value, IsWindow}
use batman_adv_userspace.BitArray.Mark.{one_shl_32, bit_at_high, bit_at_low}

-- The index that a wrap gives: the difference is near -2 ^ 16, and the quotient is below 0.
word_num_of-wrapped :
    (k last curr : ℕ)
    → (k ≡ 32) ⊎ (k ≡ 64)
    → curr < 2 ^ 16
    → last + 2 ^ 16 < curr + 64
    → is_negative (word_num_of k last curr) ≡ true
unfolding word_num_of
word_num_of-wrapped k last curr (inl e) c w =
    let wrapped : ltb last curr ≡ true = ground arith in
    let quotient : (2 ^ 16 - (curr - last) / 32 % 2 ^ 16) % 2 ^ 16 ≡ 2 ^ 16 - (curr - last) / 32 =
      omega arith in
    rw (e, wrapped, quotient) (ground arith)
word_num_of-wrapped k last curr (inr e) c w =
    let wrapped : ltb last curr ≡ true = ground arith in
    let quotient : (2 ^ 16 - (curr - last) / 64 % 2 ^ 16) % 2 ^ 16 ≡ 2 ^ 16 - (curr - last) / 64 =
      omega arith in
    rw (e, wrapped, quotient) (ground arith)

-- Just after the 16-bit sequence number has wrapped, asking for a number from before the wrap that
-- is inside the window reads the array at an index below 0: it faults, with words of 32 or 64 bits.
pub get_bit_status-faults :
    (k : ℕ) (seq_bits : Words) (last curr : ℕ)
    → (k ≡ 32) ⊎ (k ≡ 64)
    → curr < 2 ^ 16
    → last + 2 ^ 16 < curr + 64
    → get_bit_status k seq_bits last curr ≡ none
unfolding get_bit_status word_at
get_bit_status-faults k ws last curr width c w =
    let inside : (is_negative ((last + 2 ^ 16 - curr) % 2 ^ 16)
          || leb 64 ((last + 2 ^ 16 - curr) % 2 ^ 16))
        ≡ false =
      ground arith in
    rw (get_bit_status, inside, word_at, word_num_of-wrapped k last curr width c w) refl

status_test : (w i : ℕ) → (if bit_and w (2 ^ i) == 0 then false else true) ≡ (bit_at w i == 1)
status_test w i =
    let pos = one-le-pow i 2 (omega arith) in
    rw (bit_and-pow i w) (elim (Bool-cases (bit_at w i == 1)) [
      | inl e ↦ let o : bit_at w i ≡ 1 = ground arith in rw o (ground arith)
      | inr e ↦ let o : bit_at w i ≡ 0 = ground arith in rw o (ground arith)
    ])

status_32 :
    (lo hi last curr : ℕ)
    → lo < 2 ^ 32
    → curr ≤ last
    → last < 2 ^ 16
    → get_bit_status 32 (lo ∷ hi ∷ []) last curr
      ≡ some (
          if ltb (last - curr) 64
          then bit_at (value 32 (lo ∷ hi ∷ [])) (last - curr) == 1
          else false)
unfolding get_bit_status
status_32 lo hi last curr a h c =
    let d = last - curr in
    let diff : (last + 2 ^ 16 - curr) % 2 ^ 16 ≡ d = omega arith in
    let ahead : ltb last curr ≡ false = ground arith in
    let whole : value 32 (lo ∷ hi ∷ []) ≡ lo + 2 ^ 32 * hi = omega arith in
    elim (Bool-cases (ltb d 32)) [
      | inl e ↦
          let i : d < 32 = ground arith in
          let q : d / 32 ≡ 0 = ground arith in
          let r : d % 32 ≡ d = ground arith in
          let digit : bit_at (value 32 (lo ∷ hi ∷ [])) d ≡ bit_at lo d =
            ap (λ (t : ℕ). bit_at t d) whole ∙ bit_at_low lo hi d a i in
          rw (diff, ahead, q, r, one_shl_32 d i, digit) (ground (arith, status_test lo d))
      | inr e ↦ elim (Bool-cases (ltb d 64)) [
        | inl f ↦
            let i : d - 32 < 32 = ground arith in
            let q : d / 32 ≡ 1 = ground arith in
            let r : d % 32 ≡ d - 32 = ground arith in
            let sum : d ≡ 32 + (d - 32) = ground arith in
            let digit : bit_at (value 32 (lo ∷ hi ∷ [])) d ≡ bit_at hi (d - 32) =
              ap₂ bit_at whole sum ∙ bit_at_high lo hi (d - 32) a in
            rw (diff, ahead, q, r, one_shl_32 (d - 32) i, digit)
              (ground (arith, status_test hi (d - 32)))
        | inr f ↦ rw diff (ground arith)
      ]
    ]

-- Without a wrap between them, the status of `curr_seqno` is the digit of the window at its distance
-- from `last_seqno`, and false outside the window (words of 32 bits).
pub get_bit_status-value :
    (seq_bits : Words) (last curr : ℕ)
    → IsWindow 32 seq_bits
    → curr ≤ last
    → last < 2 ^ 16
    → get_bit_status 32 seq_bits last curr
      ≡ some (if ltb (last - curr) 64 then bit_at (value 32 seq_bits) (last - curr) == 1 else false)
get_bit_status-value [] last curr v h c = absurd (omega arith)
get_bit_status-value (lo ∷ []) last curr v h c = absurd (omega arith)
get_bit_status-value (lo ∷ hi ∷ []) last curr v h c = status_32 lo hi last curr v.fits.0 h c
get_bit_status-value (lo ∷ hi ∷ x ∷ r) last curr v h c = absurd (omega arith)
