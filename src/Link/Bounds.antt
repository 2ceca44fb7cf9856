-- ===== src/Link/Bounds.antt =====
-- The link qualities stay bytes, and scaling never raises them.
use native.Mathlib.Nat.{
  div-le_of_le-mul, mul-le-mul, mul-le-mul_left, mul_comm, mul_assoc, mod-eq_of_lt,
}
use batman_adv_userspace.Base.{
  ℕ, ◌-◌, ◌*◌, ◌/◌, ◌≤◌, ◌≡◌, refl, ap, ◌∙◌, sym, arith, ◌==◌, if◌then◌else◌,
}
use batman_adv_userspace.Link.Defs.{tq_own_of, tq_asym_penalty_of, combined_tq}

-- A share of a share.
scaled_le : (tq a b : ℕ) → a ≤ 255 → b ≤ 255 → tq * a * b / (255 * 255) ≤ tq
scaled_le tq a b ha hb =
    let both : a * b ≤ 255 * 255 = mul-le-mul ha hb in
    let product : tq * a * b ≤ 255 * 255 * tq =
      omega (arith, mul_assoc tq a b, mul-le-mul_left tq both) in
    div-le_of_le-mul (255 * 255) product

-- With no more own broadcasts heard than packets received, the node's own quality is the share
-- `255 * total / real`, which its byte holds, and 0 where none was heard.
pub tq_own_of_lem :
    (total real : ℕ)
    → total ≤ real
    → (tq_own_of total real ≡ (if total == 0 then 0 else 255 * total / real))
      × (tq_own_of total real ≤ 255)
unfolding tq_own_of
tq_own_of_lem total real h =
    let share : 255 * total / real ≤ 255 =
      div-le_of_le-mul real (omega (arith, mul_comm real 255)) in
    (ground (arith, share), ground (arith, share))

cube_le : (x y : ℕ) → x ≤ y → 255 * x * x * x ≤ 255 * y * y * y
cube_le x y h = mul-le-mul (mul-le-mul (mul-le-mul_left 255 h) h) h

-- The penalty of a link with at most 64 packets in the window fits its byte, is 0 for none and 255 for
-- a full window, and never falls as more packets are received.
pub tq_asym_penalty_of_lem :
    (few many : ℕ)
    → few ≤ many
    → many ≤ 64
    → (tq_asym_penalty_of few ≤ tq_asym_penalty_of many)
      × (tq_asym_penalty_of many ≤ 255)
      × (tq_asym_penalty_of 0 ≡ 0)
      × (tq_asym_penalty_of 64 ≡ 255)
unfolding tq_asym_penalty_of
tq_asym_penalty_of_lem few many h k =
    let cubes = cube_le (64 - many) (64 - few) (omega arith) in
    (ground (arith, cubes), ground arith, refl, refl)

-- The new quality of a packet is the product of the three shares, cut to no byte, and at most each of
-- them, for shares that are bytes.
pub combined_tq_lem :
    (tq own penalty : ℕ)
    → tq ≤ 255
    → own ≤ 255
    → penalty ≤ 255
    → (combined_tq tq own penalty ≡ tq * own * penalty / (255 * 255))
      × (combined_tq tq own penalty ≤ tq)
      × (combined_tq tq own penalty ≤ own)
      × (combined_tq tq own penalty ≤ penalty)
unfolding combined_tq
combined_tq_lem tq own penalty ht ho hp =
    let a = scaled_le tq own penalty ho hp in
    let b = scaled_le own tq penalty ht hp in
    let c = scaled_le penalty tq own ht ho in
    let swap : tq * own * penalty / (255 * 255) ≡ own * tq * penalty / (255 * 255) =
      ap (λ t. t * penalty / (255 * 255)) (mul_comm tq own) in
    let turn : tq * own * penalty / (255 * 255) ≡ penalty * tq * own / (255 * 255) =
      ap (λ t. t / (255 * 255)) (mul_comm (tq * own) penalty ∙ sym (mul_assoc penalty tq own)) in
    let whole : combined_tq tq own penalty ≡ tq * own * penalty / (255 * 255) =
      mod-eq_of_lt (omega arith) in
    (whole, omega (arith, whole, a), omega (arith, whole, swap, b), omega (arith, whole, turn, c))
