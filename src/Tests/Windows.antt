-- ===== src/Tests/Windows.antt =====
-- bitarray.c and ring_buffer.c on concrete windows.
use batman_adv_userspace.Base.{
  ℕ, ◌∷◌, [], ◌≡◌, refl, none, some, true, arith, inl, inr, Returns, List, ◌++◌, drop,
  if◌then◌else◌, ◌*◌, ◌/◌, ◌≤◌, ◌⊎◌, length, ◌==◌, ◌^◌, ◌-◌, ◌+◌, ltb, false,
}
use batman_adv_userspace.BitArray.{
  Words, IsWindow, Refines, Shifts, bit_get_packet, bit_shift, get_bit_status, bit_packet_count,
  ones_all, gap, bit_get_packet-refines, bit_get_packet-get_bit_status, bit_shift-value,
  get_bit_status-faults, bit_packet_count_lem,
}
use batman_adv_userspace.RingBuffer.{
  ring_buffer_set_all, ring_buffer_set_all_slides, ring_buffer_avg, ring_buffer_avg_lem, IsRing,
  window, heard, total,
}

abbrev five : Words
five = 5 ∷ 1 ∷ []

five-IsWindow : IsWindow 32 five
five-IsWindow = record { size = refl; fits = (omega arith, (omega arith, tt)) }

bit_get_packet-refines_example : Returns (bit_get_packet 32 five 3 true) (Refines 32 five 3 true)
bit_get_packet-refines_example =
    bit_get_packet-refines 32 five (inl refl) five-IsWindow 3 true (omega arith)
      (λ e. omega (arith, e)) (λ _ old. omega (arith, old))

bit_get_packet-get_bit_status_example : Returns (bit_get_packet 32 five (gap 2 65530) true) λ r.
    get_bit_status 32 r.1 (if r.0 then 65530 else 2) 65530 ≡ (
      if gap 2 65530 == 2 ^ 16 - 64
      then some false
      else (if ltb (2 + (2 ^ 16 - 64)) 65530 then none else some true))
bit_get_packet-get_bit_status_example =
    bit_get_packet-get_bit_status five 2 65530 five-IsWindow (omega arith) (omega arith)
      (λ e. omega (arith, e))

bit_shift-value_example : Returns (bit_shift 32 five 33) (Shifts 32 five 33)
bit_shift-value_example = bit_shift-value 32 33 five (inl refl) five-IsWindow (omega arith)

get_bit_status-faults_example : get_bit_status 32 five 2 65530 ≡ none
get_bit_status-faults_example =
    get_bit_status-faults 32 five 2 65530 (inl refl) (omega arith) (omega arith)

bit_packet_count_example :
    (bit_packet_count five ≡ some (ones_all 32 five)) × (ones_all 32 five ≤ length five * 32)
bit_packet_count_example = bit_packet_count_lem 32 five (omega arith, (omega arith, tt))

abbrev ring : List ℕ
ring = 9 ∷ 0 ∷ 8 ∷ 0 ∷ 0 ∷ 0 ∷ 0 ∷ 0 ∷ 0 ∷ 0 ∷ []

ring-IsRing : IsRing ring 9
ring-IsRing = record { full = refl; inside = omega arith }

ring_buffer_set_all_slides_example :
    Returns
      (ring_buffer_set_all ring 9 (1 ∷ 2 ∷ []))
      λ r. IsRing r.0 r.1 × (window r.0 r.1 ≡ drop 2 (window ring 9 ++ 1 ∷ 2 ∷ []))
ring_buffer_set_all_slides_example = ring_buffer_set_all_slides (1 ∷ 2 ∷ []) ring 9 ring-IsRing

ring_buffer_avg_example :
    (heard ring ≡ 0) × (ring_buffer_avg ring ≡ some 0)
    ⊎ (a : ℕ) × (ring_buffer_avg ring ≡ some a) × (a ≡ total ring / heard ring) × (8 ≤ a) × (a ≤ 9)
ring_buffer_avg_example =
    ring_buffer_avg_lem 8 9 ring refl
      (
        omega arith,
        (
          omega arith,
          (
            omega arith,
            (
              omega arith,
              (
                omega arith,
                (omega arith, (omega arith, (omega arith, (omega arith, (omega arith, tt))))),
              ),
            ),
          ),
        ),
      )
      (
        omega arith,
        (
          omega arith,
          (
            omega arith,
            (
              omega arith,
              (
                omega arith,
                (omega arith, (omega arith, (omega arith, (omega arith, (omega arith, tt))))),
              ),
            ),
          ),
        ),
      )
      (
        inr (omega arith),
        (
          inl refl,
          (
            inr (omega arith),
            (inl refl, (inl refl, (inl refl, (inl refl, (inl refl, (inl refl, (inl refl, tt))))))),
          ),
        ),
      )
