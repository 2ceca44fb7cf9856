-- ===== src/Schedule/Retry.antt =====
-- `send_packet` on every course of its writes.
use batman_adv_userspace.Base.{
  ℕ, zero, suc, ◌+◌, ◌<◌, ◌≤◌, ◌≡◌, ◌≢◌, ◌⊎◌, inl, inr, refl, ap, ap₂, ◌∙◌, ◌-◌, ◌++◌, [], ◌∷◌,
  Option, some, Bool, true, false, arith,
}
use batman_adv_userspace.Mesh.{Event, Mesh, emit}
use batman_adv_userspace.Schedule.Send.{WriteResult, send_loop, send_packet, packets_per_cycle}

-- The state with the packet sent, once.
abbrev pub sent : Event → Mesh → Mesh
sent e h = record h { events = h.events ++ e ∷ [] }

loop_again :
    (write : ℕ → WriteResult) (n k i : ℕ) (e : Event) (h : Mesh)
    → ((j : ℕ) → i ≤ j → j < i + n → write j ≡ WriteResult.again)
    → send_loop write (n + k) i e h ≡ send_loop write k (i + n) e h
unfolding send_loop
loop_again write zero k i e h a =
    let rounds : zero + k ≡ k = omega arith in
    let place : i ≡ i + zero = omega arith in
    ap₂ (λ (r j : ℕ). send_loop write r j e h) rounds place
loop_again write (suc n) k i e h a =
    let rounds : suc n + k ≡ suc (n + k) = omega arith in
    let place : suc i + n ≡ i + suc n = omega arith in
    ap (λ (r : ℕ). send_loop write r i e h) rounds
    ∙ rw (send_loop, a i (omega arith) (omega arith))
        (loop_again write n k (suc i) e h λ j x y. a j (omega arith) (omega arith))
    ∙ ap (λ (j : ℕ). send_loop write k j e h) place

-- After `n` writes to be tried again, fewer than PACKETS_PER_CYCLE, the next decides.
after_again :
    (write : ℕ → WriteResult) (n : ℕ) (e : Event) (h : Mesh)
    → n < packets_per_cycle
    → ((j : ℕ) → j < n → write j ≡ WriteResult.again)
    → send_packet write e h ≡ send_loop write (suc (packets_per_cycle - 1 - n)) n e h
unfolding send_packet
after_again write n e h lt a =
    let rounds : packets_per_cycle ≡ n + suc (packets_per_cycle - 1 - n) = omega arith in
    let place : 0 + n ≡ n = omega arith in
    ap (λ (t : ℕ). send_loop write t 0 e h) rounds
    ∙ loop_again write n (suc (packets_per_cycle - 1 - n)) 0 e h (λ j x y. a j (omega arith))
    ∙ ap (λ (t : ℕ). send_loop write (suc (packets_per_cycle - 1 - n)) t e h) place

-- What the last write that is made decides: the packet is sent once and 0 returned, or -1 returned and
-- nothing sent, or, where it was dropped or to be tried again, nothing sent and 0 returned all the same.
abbrev pub decided : WriteResult → Event → Mesh → Option (Bool × Mesh)
decided WriteResult.written e h = some (true, sent e h)
decided WriteResult.dropped e h = some (true, h)
decided WriteResult.again e h = some (true, h)
decided WriteResult.failed e h = some (false, h)

by_write :
    (write : ℕ → WriteResult) (rounds n : ℕ) (e : Event) (h : Mesh) (w : WriteResult)
    → write n ≡ w
    → (rounds ≡ 0) ⊎ (w ≢ WriteResult.again)
    → send_loop write (suc rounds) n e h ≡ decided w e h
unfolding send_loop emit
by_write write rounds n e h WriteResult.written is last = rw (send_loop, is) refl
by_write write rounds n e h WriteResult.dropped is last = rw (send_loop, is) refl
by_write write rounds n e h WriteResult.failed is last = rw (send_loop, is) refl
by_write write rounds n e h WriteResult.again is (inl none_left) =
    rw (send_loop, is, none_left) refl
by_write write rounds n e h WriteResult.again is (inr ne) = absurd (ne refl)

-- `send_packet` makes its writes until one need not be tried again, and at most ten; the last of them
-- decides: the packet is sent exactly once where it succeeds. Where that write drops it, or all ten are
-- to be tried again, nothing is sent, and yet the function returns 0.
pub send_packet_lem :
    (write : ℕ → WriteResult) (n : ℕ) (e : Event) (h : Mesh)
    → n < packets_per_cycle
    → ((j : ℕ) → j < n → write j ≡ WriteResult.again)
    → (n ≡ 9) ⊎ (write n ≢ WriteResult.again)
    → send_packet write e h ≡ decided (write n) e h
send_packet_lem write n e h lt a last =
    after_again write n e h lt a
    ∙ by_write write (packets_per_cycle - 1 - n) n e h (write n) refl
        (elim last [ inl nine ↦ inl (omega arith) | inr ne ↦ inr ne ])
