-- ===== src/BitArray/Seen.antt =====
-- `bit_get_packet` and `get_bit_status` together: a packet that was marked is known.
use native.Mathlib.Nat.{add-mul-div_left, mul_comm, one-le-pow}
use batman_adv_userspace.Base.{
  ℕ, ◌+◌, ◌-◌, ◌*◌, ◌/◌, ◌%◌, ◌^◌, ◌≤◌, ◌<◌, ◌≡◌, ◌≢◌, refl, ap, ◌∙◌, some, if◌then◌else◌, arith,
  inl, inr, Bool-cases, Returns, leb, ltb, ◌==◌, none, bit_at, Bool, true, false,
}
use batman_adv_userspace.BitArray.Defs.{Words, get_bit_status, bit_get_packet}
use batman_adv_userspace.BitArray.Shift.{IsWindow, value}
use batman_adv_userspace.BitArray.Status.{get_bit_status-value, get_bit_status-faults}
use batman_adv_userspace.BitArray.Packet.{window_packet, with_digit, bit_get_packet-refines}

-- A digit that was set is set.
with_digit_self : (v n : ℕ) → bit_at (with_digit v n) n ≡ 1
with_digit_self v n =
    let moved : (v + 2 ^ n * (1 - bit_at v n)) / 2 ^ n ≡ v / 2 ^ n + (1 - bit_at v n) =
      add-mul-div_left v (1 - bit_at v n) (one-le-pow n 2 (omega arith)) in
    rw (mul_comm (1 - bit_at v n) (2 ^ n), moved) (omega arith)

-- `curr - last` as a uint16_t.
abbrev pub gap : ℕ → ℕ → ℕ
gap last curr = (curr + 2 ^ 16 - last) % 2 ^ 16

-- A packet that was taken as old: its digit is the one that was set.
known_old :
    (seq_bits : Words) (last curr : ℕ) (r : Bool × Words)
    → IsWindow 32 r.1
    → last < 2 ^ 16
    → curr < 2 ^ 16
    → gap last curr ≢ 2 ^ 16 - 64
    → curr < last + (2 ^ 16 - 64)
    → 2 ^ 16 - 64 ≤ gap last curr
    → (r.0, value 32 r.1) ≡ window_packet (value 32 seq_bits) (gap last curr) true
    → get_bit_status 32 r.1 (if r.0 then curr else last) curr ≡ some true
unfolding window_packet
known_old seq_bits last curr r w hl hc far near old val =
    let e : leb (2 ^ 16 - 64) (gap last curr) ≡ true = ground arith in
    let l : ltb (2 ^ 16 - 64) (gap last curr) ≡ true = ground arith in
    let q : (r.0, value 32 r.1) ≡ (false, with_digit (value 32 seq_bits) (2 ^ 16 - gap last curr)) =
      val ∙ rw (e, l) in
    let before : curr ≤ last = omega arith in
    let distance : 2 ^ 16 - gap last curr ≡ last - curr = omega arith in
    let inside : ltb (last - curr) 64 ≡ true = ground arith in
    let digit : bit_at (value 32 r.1) (last - curr) ≡ 1 =
      rw (ap (λ x. x.1) q, distance, with_digit_self (value 32 seq_bits) (last - curr)) in
    rw (ap (λ x. x.0) q, get_bit_status-value r.1 last curr w before hl, inside, digit)

-- The newest packet is known by the lowest digit.
newest :
    (last curr : ℕ) (r : Bool × Words)
    → IsWindow 32 r.1
    → curr < 2 ^ 16
    → r.0 ≡ true
    → bit_at (value 32 r.1) 0 ≡ 1
    → get_bit_status 32 r.1 (if r.0 then curr else last) curr ≡ some true
newest last curr r w hc taken digit =
    let none_between : curr - curr ≡ 0 = omega arith in
    rw (taken, get_bit_status-value r.1 curr curr w (omega arith) hc, none_between, digit)

-- A packet that was taken as new: its digit is the lowest.
known_new :
    (seq_bits : Words) (last curr : ℕ) (r : Bool × Words)
    → IsWindow 32 r.1
    → curr < 2 ^ 16
    → leb (2 ^ 16 - 64) (gap last curr) ≡ false
    → (r.0, value 32 r.1) ≡ window_packet (value 32 seq_bits) (gap last curr) true
    → get_bit_status 32 r.1 (if r.0 then curr else last) curr ≡ some true
unfolding window_packet
known_new seq_bits last curr r w hc e val = elim (Bool-cases (ltb 64 (gap last curr))) [
  | inl f ↦
      let p : (r.0, value 32 r.1) ≡ (true, 1) = val ∙ rw (e, f) in
      newest last curr r w hc (ap (λ x. x.0) p) (rw (ap (λ x. x.1) p))
  | inr f ↦
      let p : (r.0, value 32 r.1)
          ≡ (true, with_digit (value 32 seq_bits * 2 ^ gap last curr % 2 ^ 64) 0) =
        val ∙ rw (e, f) in
      newest last curr r w hc (ap (λ x. x.0) p)
        (rw (ap (λ x. x.1) p, with_digit_self (value 32 seq_bits * 2 ^ gap last curr % 2 ^ 64) 0))
]

-- The answer after it, by the contract of `bit_get_packet`.
known :
    (seq_bits : Words) (last curr : ℕ) (r : Bool × Words)
    → IsWindow 32 r.1
    → last < 2 ^ 16
    → curr < 2 ^ 16
    → gap last curr ≢ 2 ^ 16 - 64
    → curr < last + (2 ^ 16 - 64)
    → (r.0, value 32 r.1) ≡ window_packet (value 32 seq_bits) (gap last curr) true
    → get_bit_status 32 r.1 (if r.0 then curr else last) curr ≡ some true
unfolding window_packet
known seq_bits last curr r w hl hc far near val =
    elim (Bool-cases (leb (2 ^ 16 - 64) (gap last curr))) [
      | inl e ↦ known_old seq_bits last curr r w hl hc far near (ground arith) val
      | inr e ↦ known_new seq_bits last curr r w hc e val
    ]

-- Exactly one window behind, the packet is not marked and is out of the window.
edge_old :
    (seq_bits : Words) (last curr : ℕ) (r : Bool × Words)
    → last < 2 ^ 16
    → curr < 2 ^ 16
    → gap last curr ≡ 2 ^ 16 - 64
    → (r.0, value 32 r.1) ≡ window_packet (value 32 seq_bits) (gap last curr) true
    → get_bit_status 32 r.1 (if r.0 then curr else last) curr ≡ some false
unfolding window_packet get_bit_status
edge_old seq_bits last curr r hl hc edge val =
    let stays : r.0 ≡ false = ap (λ x. x.0) val ∙ rw edge refl in
    let outside : (last + 2 ^ 16 - curr) % 2 ^ 16 ≡ 64 = omega (arith, edge) in
    rw (stays, get_bit_status, outside) refl

-- Over a wrap, the packet is an old one, and the question for it faults.
wrapped_old :
    (seq_bits : Words) (last curr : ℕ) (r : Bool × Words)
    → curr < 2 ^ 16
    → last + (2 ^ 16 - 64) < curr
    → (r.0, value 32 r.1) ≡ window_packet (value 32 seq_bits) (gap last curr) true
    → get_bit_status 32 r.1 (if r.0 then curr else last) curr ≡ none
unfolding window_packet
wrapped_old seq_bits last curr r hc wrap val =
    let old : leb (2 ^ 16 - 64) (gap last curr) ≡ true = ground arith in
    let stays : r.0 ≡ false = ap (λ x. x.0) val ∙ rw old refl in
    rw stays (get_bit_status-faults 32 r.1 last curr (inl refl) hc (omega arith))

-- `bit_get_packet` marks a packet, and `get_bit_status` is asked for it with the newest number after that;
-- words have 32 bits. Exactly one window behind, the packet is not known. Where the sequence number has
-- wrapped between the packet and the newest one, the question faults. In every other case, whether the
-- packet was taken as new or as old, it is known. The packet is not exactly one window ahead.
pub bit_get_packet-get_bit_status :
    (seq_bits : Words) (last curr : ℕ)
    → IsWindow 32 seq_bits
    → last < 2 ^ 16
    → curr < 2 ^ 16
    → gap last curr ≢ 64
    → Returns (bit_get_packet 32 seq_bits (gap last curr) true) λ r.
      get_bit_status 32 r.1 (if r.0 then curr else last) curr ≡ (
        if gap last curr == 2 ^ 16 - 64
        then some false
        else (if ltb (last + (2 ^ 16 - 64)) curr then none else some true))
bit_get_packet-get_bit_status seq_bits last curr v hl hc ne =
    let (r, runs, (w, val)) =
      bit_get_packet-refines 32 seq_bits (inl refl) v (gap last curr) true (omega arith) ne
        (λ _ old. inl (refl, omega arith)) in
    (
      r,
      runs,
      elim (Bool-cases (gap last curr == 2 ^ 16 - 64)) [
        | inl e ↦ rw e (edge_old seq_bits last curr r hl hc (ground arith) val)
        | inr e ↦ elim (Bool-cases (ltb (last + (2 ^ 16 - 64)) curr)) [
          | inl f ↦ rw (e, f) (wrapped_old seq_bits last curr r hc (ground arith) val)
          | inr f ↦
              let far : gap last curr ≢ 2 ^ 16 - 64 = ground arith in
              rw (e, f) (known seq_bits last curr r w hl hc far (omega (arith, far, near f)) val)
        ]
      ],
    )
  where
    near : ltb (last + (2 ^ 16 - 64)) curr ≡ false → curr ≤ last + (2 ^ 16 - 64)
    near f = ground arith
