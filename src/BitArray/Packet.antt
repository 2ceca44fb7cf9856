-- ===== src/BitArray/Packet.antt =====
-- `bit_get_packet` refines a window that is a number, on every branch but the one that faults.
use batman_adv_userspace.Base.{
  ℕ, ◌+◌, ◌-◌, ◌*◌, ◌%◌, ◌^◌, ◌≤◌, ◌<◌, ◌≡◌, ◌≢◌, refl, ◌⊎◌, none, if◌then◌else◌, arith, inl, inr,
  Bool-cases, Returns, leb, ltb, bit_at, Bool, true, false, ◌&&◌,
}
use batman_adv_userspace.BitArray.Defs.{Words, bit_init, bit_get_packet, store}
use batman_adv_userspace.BitArray.Shift.{value, IsWindow, bit_shift-value, bit_shift-faults}
use batman_adv_userspace.BitArray.Mark.{IsMarkable, bit_mark-value}

-- The window as a number with the digit `n` set.
abbrev pub with_digit : ℕ → ℕ → ℕ
with_digit v n = v + (1 - bit_at v n) * 2 ^ n

abbrev pub IsWidth : ℕ → Type 0
IsWidth k = (k ≡ 32) ⊎ (k ≡ 64)

-- What the function promises for a window `v`, a 16-bit difference and a mark: whether the number is
-- new, and the window after it.
unfoldable pub window_packet : ℕ → ℕ → Bool → Bool × ℕ
window_packet v diff mark =
    if leb (2 ^ 16 - 64) diff
    then (false, if mark && ltb (2 ^ 16 - 64) diff then with_digit v (2 ^ 16 - diff) else v)
    else if ltb 64 diff
    then (true, if mark then 1 else 0)
    else (true, if mark then with_digit (v * 2 ^ diff % 2 ^ 64) 0 else v * 2 ^ diff % 2 ^ 64)

abbrev pub Refines : ℕ → Words → ℕ → Bool → Bool × Words → Type 0
Refines k ws diff mark r =
    IsWindow k r.1 × ((r.0, value k r.1) ≡ window_packet (value k ws) diff mark)

init-IsWindow : (k : ℕ) → IsWidth k → IsWindow k (bit_init k) × (value k (bit_init k) ≡ 0)
unfolding bit_init
init-IsWindow k (inl e) = rw e (record { size = refl; fits = omega arith }, refl)
init-IsWindow k (inr e) = rw e (record { size = refl; fits = omega arith }, refl)

latest :
    (k : ℕ) → IsWidth k → Returns (store (bit_init k) 0 1) λ ws. IsWindow k ws × (value k ws ≡ 1)
unfolding bit_init
latest k (inl e) = rw e (_, refl, (record { size = refl; fits = omega arith }, refl))
latest k (inr e) = rw e (_, refl, (record { size = refl; fits = omega arith }, refl))

IsMarkable-zero : (k : ℕ) → IsWidth k → IsMarkable k 0
IsMarkable-zero k (inl e) = inl (e, omega arith)
IsMarkable-zero k (inr e) = inr (e, omega arith)

module _ (k : ℕ) (seq_bits : Words) (width : IsWidth k) (v : IsWindow k seq_bits) where
  -- A number older than the newest one, inside the window: only the mark.
  old :
      (diff : ℕ) (mark : Bool)
      → diff < 2 ^ 16
      → 2 ^ 16 - 64 ≤ diff
      → (mark ≡ true → 2 ^ 16 - 64 < diff → IsMarkable k (2 ^ 16 - diff))
      → Returns (bit_get_packet k seq_bits diff mark) (Refines k seq_bits diff mark)
  unfolding bit_get_packet window_packet
  old diff false lt le can = ((false, seq_bits), ground arith, (v, ground arith))
  old diff true lt le can = elim (Bool-cases (ltb (2 ^ 16 - 64) diff)) [
    | inl e ↦
        let (ws, run, (w, marked)) =
          bit_mark-value k (2 ^ 16 - diff) seq_bits (can refl (ground arith)) v in
        ((false, ws), ground (arith, run), (w, ground (arith, marked)))
    | inr e ↦
        let edge : diff ≡ 2 ^ 16 - 64 = ground arith in
        ((false, seq_bits), rw edge (ground arith), (v, rw edge (ground arith)))
  ]

  -- A number too far ahead or behind: the window starts anew.
  far :
      (diff : ℕ) (mark : Bool)
      → 64 < diff
      → diff < 2 ^ 16 - 64
      → Returns (bit_get_packet k seq_bits diff mark) (Refines k seq_bits diff mark)
  unfolding bit_get_packet window_packet
  far diff true lo hi =
      let (ws, run, (w, one)) = latest k width in
      ((true, ws), ground (arith, run), (w, ground (arith, one)))
  far diff false lo hi =
      let (w, zeroed) = init-IsWindow k width in
      ((true, bit_init k), ground arith, (w, ground (arith, zeroed)))

  -- A newer number: the window moves.
  new :
      (diff : ℕ) (mark : Bool)
      → diff < 64
      → Returns (bit_get_packet k seq_bits diff mark) (Refines k seq_bits diff mark)
  unfolding bit_get_packet window_packet
  new diff false lt =
      let (ws, run, (w, moved)) = bit_shift-value k diff seq_bits width v lt in
      ((true, ws), ground (arith, run), (w, ground (arith, moved)))
  new diff true lt =
      let (ws, run, (w, moved)) = bit_shift-value k diff seq_bits width v lt in
      let (ws', run', (w', marked)) = bit_mark-value k 0 ws (IsMarkable-zero k width) w in
      ((true, ws'), ground (arith, run, run'), (w', ground (arith, moved, marked)))

  -- `bit_get_packet`, for words of 32 or 64 bits, any 16-bit difference but 64, and a mark that the
  -- int shift can make: it does not fault, keeps the words in range, and its result and the new
  -- window are those of `window_packet`.
  pub bit_get_packet-refines :
      (diff : ℕ) (mark : Bool)
      → diff < 2 ^ 16
      → diff ≢ 64
      → (mark ≡ true → 2 ^ 16 - 64 < diff → IsMarkable k (2 ^ 16 - diff))
      → Returns (bit_get_packet k seq_bits diff mark) (Refines k seq_bits diff mark)
  bit_get_packet-refines diff mark lt ne can = elim (Bool-cases (leb (2 ^ 16 - 64) diff)) [
    | inl e ↦ old diff mark lt (ground arith) can
    | inr e ↦ elim (Bool-cases (ltb 64 diff)) [
      | inl f ↦ far diff mark (ground arith) (ground arith)
      | inr f ↦ new diff mark (ground arith)
    ]
  ]

-- A number exactly one window ahead of the newest faults, at every word width.
pub bit_get_packet-faults :
    (k : ℕ) (seq_bits : Words) (mark : Bool) → 0 < k → bit_get_packet k seq_bits 64 mark ≡ none
unfolding bit_get_packet
bit_get_packet-faults k ws mark pos = ground (arith, bit_shift-faults k 64 ws pos (omega arith))
