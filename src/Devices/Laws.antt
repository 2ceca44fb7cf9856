-- ===== src/Devices/Laws.antt =====
-- linux.c: what the functions leave open, and what a write reports.
use batman_adv_userspace.Base.{
  ℕ, zero, suc, ◌+◌, ◌-◌, ◌<◌, ◌≤◌, ◌≢◌, ◌⊎◌, ap₂, ◌==◌, ◌≡◌, refl, sym, ap, ◌∙◌, [], ◌∷◌, ◌++◌,
  Bool, true, false, Option, none, some, ◌&&◌, inl, inr, arith, Bool-cases, ltb, ==_iff,
}
use batman_adv_userspace.Mesh.{Event, Mesh, emit}
use batman_adv_userspace.Schedule.{WriteResult, packets_per_cycle, send_loop, send_packet}
use batman_adv_userspace.Devices.Defs.{
  Fds, put_fd, TapCalls, Tap, tap_create, tap_destroy, tap_set_up, tap_fails, Attempt, write_loop,
  rawsock_write,
}

-- What is open where the device was made, or was not.
unfoldable pub Leaves : Fds → Option Tap × Fds → Type 0
unfolding put_fd
Leaves fds (none, after) = (q : ℕ) → after q ≡ fds q
Leaves fds (some t, after) = (q : ℕ) → after q ≡ put_fd t.tap true fds q

-- The two descriptors that the system gives out were not open, and are not the same.
unfoldable pub Unopened : Fds → Option ℕ → Option ℕ → Type 0
Unopened fds none tmp = Unit
Unopened fds (some fd) none = fds fd ≡ false
Unopened fds (some fd) (some tmp) = (fds fd ≡ false) × (fds tmp ≡ false) × ((tmp == fd) ≡ false)

-- Was it not open, a place of the set that is cleared is what it was.
cleared_is : (fds : Fds) (fd q : ℕ) → fds fd ≡ false → (q == fd) ≡ true → false ≡ fds q
cleared_is fds fd q a e = sym (ap fds ((==_iff q fd).0 e) ∙ a)

close_opened :
    (fds : Fds) (fd : ℕ) → fds fd ≡ false → (q : ℕ) → put_fd fd false (put_fd fd true fds) q ≡ fds q
unfolding put_fd
close_opened fds fd a q = elim (Bool-cases (q == fd)) [
  | inl e ↦ rw e (cleared_is fds fd q a e)
  | inr e ↦ rw e refl
]

module _ (fds : Fds) (fd tmp : ℕ) (a : fds fd ≡ false) (b : fds tmp ≡ false)
    (n : (tmp == fd) ≡ false) where
  abbrev both : Fds
  both = put_fd tmp true (put_fd fd true fds)

  tap_fails-Leaves : Leaves fds (tap_fails fd tmp both)
  unfolding Leaves tap_fails tap_destroy put_fd
  tap_fails-Leaves q = elim (Bool-cases (q == tmp)) [
    | inl e ↦ rw e (cleared_is fds tmp q b e)
    | inr e ↦ elim (Bool-cases (q == fd)) [
      | inl g ↦ rw (e, g) (cleared_is fds fd q a g)
      | inr g ↦ rw (e, g) refl
    ]
  ]

  -- The device stays, and the socket does not.
  device_stays : (q : ℕ) → put_fd tmp false both q ≡ put_fd fd true fds q
  unfolding put_fd
  device_stays q = elim (Bool-cases (q == tmp)) [
    | inl e ↦
        let other : (q == fd) ≡ false = ground (arith, e, n) in
        rw (e, other) (cleared_is fds tmp q b e)
    | inr e ↦ rw e refl
  ]

  set_up-Leaves : (calls : TapCalls) (mtu : ℕ) → Leaves fds (tap_set_up calls mtu fd tmp both)
  unfolding Leaves tap_set_up
  set_up-Leaves calls mtu =
      elim (Bool-cases
        (calls.get_hwaddr && (calls.set_hwaddr && (calls.get_flags && calls.set_flags)))) [
          | inr c ↦ rw (tap_set_up, c) tap_fails-Leaves
          | inl c ↦ elim (Bool-cases (ltb mtu 100)) [
            | inl d ↦ rw (tap_set_up, c, d) device_stays
            | inr d ↦ elim (Bool-cases calls.set_mtu) [
              | inl e ↦ rw (tap_set_up, c, d, e) device_stays
              | inr e ↦ rw (tap_set_up, c, d, e) tap_fails-Leaves
            ]
          ]
        ]

-- tap_create fails with every descriptor closed that it opened, or leaves the device open and nothing
-- else, where the descriptors that it gets were not open.
pub tap_create_lem :
    (calls : TapCalls) (mtu : ℕ) (fds : Fds)
    → Unopened fds calls.open_tun calls.socket
    → Leaves fds (tap_create calls mtu fds)
unfolding tap_create Unopened Leaves tap_destroy
tap_create_lem calls mtu fds = by_open calls.open_tun calls.socket refl refl
  where
    by_open :
        (o s : Option ℕ)
        → calls.open_tun ≡ o
        → calls.socket ≡ s
        → Unopened fds o s
        → Leaves fds (tap_create calls mtu fds)
    by_open none s e f U = rw (tap_create, e) (λ q. refl)
    by_open (some fd) none e f U = elim (Bool-cases calls.set_iff) [
      | inl g ↦ rw (tap_create, e, g, f) (close_opened fds fd U)
      | inr g ↦ rw (tap_create, e, g) (close_opened fds fd U)
    ]
    by_open (some fd) (some tmp) e f (a, b, n) = elim (Bool-cases calls.set_iff) [
      | inl g ↦ rw (tap_create, e, g, f) (set_up-Leaves fds fd tmp a b n calls mtu)
      | inr g ↦ rw (tap_create, e, g) (close_opened fds fd a)
    ]

-- What the rounds of rawsock_write come to, by the first `writev` that is not to be tried again, if any.
abbrev pub outcome : Attempt → WriteResult
outcome Attempt.taken = WriteResult.written
outcome Attempt.busy = WriteResult.dropped
outcome Attempt.refused = WriteResult.failed

loop_busy :
    (writev : ℕ → Attempt) (n k i : ℕ)
    → ((j : ℕ) → i ≤ j → j < i + n → writev j ≡ Attempt.busy)
    → write_loop writev (n + k) i ≡ write_loop writev k (i + n)
unfolding write_loop
loop_busy writev zero k i a =
    let rounds : zero + k ≡ k = omega arith in
    let place : i ≡ i + zero = omega arith in ap₂ (λ (r j : ℕ). write_loop writev r j) rounds place
loop_busy writev (suc n) k i a =
    let rounds : suc n + k ≡ suc (n + k) = omega arith in
    let place : suc i + n ≡ i + suc n = omega arith in
    ap (λ (r : ℕ). write_loop writev r i) rounds
    ∙ rw (write_loop, a i (omega arith) (omega arith))
        (loop_busy writev n k (suc i) λ j x y. a j (omega arith) (omega arith))
    ∙ ap (λ (j : ℕ). write_loop writev k j) place

by_attempt :
    (writev : ℕ → Attempt) (rounds n : ℕ) (w : Attempt)
    → writev n ≡ w
    → (rounds ≡ 0) ⊎ (w ≢ Attempt.busy)
    → write_loop writev (suc rounds) n ≡ outcome w
unfolding write_loop
by_attempt writev rounds n Attempt.taken is last = rw (write_loop, is) refl
by_attempt writev rounds n Attempt.refused is last = rw (write_loop, is) refl
by_attempt writev rounds n Attempt.busy is (inl none_left) = rw (write_loop, is, none_left) refl
by_attempt writev rounds n Attempt.busy is (inr ne) = absurd (ne refl)

rawsock_write_lem :
    (writev : ℕ → Attempt) (n : ℕ)
    → n < packets_per_cycle
    → ((j : ℕ) → j < n → writev j ≡ Attempt.busy)
    → (n ≡ 9) ⊎ (writev n ≢ Attempt.busy)
    → rawsock_write writev ≡ outcome (writev n)
unfolding rawsock_write
rawsock_write_lem writev n lt a last =
    let rounds : packets_per_cycle ≡ n + suc (packets_per_cycle - 1 - n) = omega arith in
    let place : 0 + n ≡ n = omega arith in
    ap (λ (t : ℕ). write_loop writev t 0) rounds
    ∙ loop_busy writev n (suc (packets_per_cycle - 1 - n)) 0 (λ j x y. a j (omega arith))
    ∙ ap (λ (t : ℕ). write_loop writev (suc (packets_per_cycle - 1 - n)) t) place
    ∙ by_attempt writev (packets_per_cycle - 1 - n) n (writev n) refl
        (elim last [ inl nine ↦ inl (omega arith) | inr ne ↦ inr ne ])

-- What send_packet gives by that `writev`.
abbrev pub frame_sent : Attempt → Event → Mesh → Option (Bool × Mesh)
frame_sent Attempt.taken e h = some (true, record h { events = h.events ++ e ∷ [] })
frame_sent Attempt.busy e h = some (true, h)
frame_sent Attempt.refused e h = some (false, h)

-- A packet that send_packet hands to rawsock_write leaves the program exactly once where the first
-- `writev` of its first call that is not to be tried again, among ten, takes it, and then 0 is returned;
-- where that one fails otherwise, nothing is sent and -1 returned. Where all ten are to be tried again,
-- nothing is sent and 0 is returned: the further calls that send_packet has for this are never made.
pub rawsock_write-send_packet :
    (writev : ℕ → ℕ → Attempt) (n : ℕ) (e : Event) (h : Mesh)
    → n < packets_per_cycle
    → ((j : ℕ) → j < n → writev 0 j ≡ Attempt.busy)
    → (n ≡ 9) ⊎ (writev 0 n ≢ Attempt.busy)
    → send_packet (λ i. rawsock_write (writev i)) e h ≡ frame_sent (writev 0 n) e h
unfolding send_packet send_loop emit
rawsock_write-send_packet writev n e h lt a last =
    by_first (writev 0 n) (rawsock_write_lem (writev 0) n lt a last)
  where
    by_first :
        (w : Attempt)
        → rawsock_write (writev 0) ≡ outcome w
        → send_packet (λ i. rawsock_write (writev i)) e h ≡ frame_sent w e h
    by_first Attempt.taken f = rw (send_packet, send_loop, f) refl
    by_first Attempt.busy f = rw (send_packet, send_loop, f) refl
    by_first Attempt.refused f = rw (send_packet, send_loop, f) refl
