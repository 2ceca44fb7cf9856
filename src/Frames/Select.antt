-- ===== src/Frames/Select.antt =====
-- posix-specific.c, `receive_packet`: the wait for a frame, the tap device, and the interfaces in the order
-- of their list. `write` is what the writes do by interface, round and attempt.
use batman_adv_userspace.Base.{
  ℕ, ◌%◌, ◌^◌, ◌==◌, List, [], ◌∷◌, Bool, true, false, Option, none, some, if◌then◌else◌, ltb,
}
use batman_adv_userspace.Schedule.{WriteResult, packets_per_cycle}
use batman_adv_userspace.Handler.{Received}
use batman_adv_userspace.Frames.Receive.{receive_frames}
use batman_adv_userspace.Frames.Tap.{receive_packet_tap}
use batman_adv_userspace.Mesh.{Mac, BatmanIf, M, ◌>>=◌, return, gets, lift}

-- What the loop around `select` ends with.
pub data Wait : Type 0 where
  waiting : Wait
  failed : Wait
  timed_out : Wait
  ready : Wait

-- Each `select` gives its 32-bit result, cut to an `int8_t`, and whether `errno` is EINTR.
unfoldable pub wait : List (ℕ × Bool) → Wait
wait [] = waiting
wait ((result, interrupted) ∷ more) =
    let rest = wait more in
    let res = result % 2 ^ 8 in
    if ltb res 128
    then (if res == 0 then timed_out else ready)
    else (if interrupted then rest else failed)

-- What is there to read: on the tap device, and by the number of an interface.
pub record Readable : Type 0 where
  pub tap_ready : Bool
  pub tap_frames : List (List ℕ)
  pub if_ready : ℕ → Bool
  pub if_frames : ℕ → List (Mac × Mac × List ℕ)

module _ (tap_writes : ℕ → ℕ → WriteResult) (write : ℕ → ℕ → Bool) (word_bit_size : ℕ)
    (clients : ℕ → Bool) (input : Readable) where
  -- The loop over the interfaces ends with the first that returns a packet or an error.
  unfoldable pub receive_ifs : List BatmanIf → M (Option Received × Bool)
  unfolding receive_frames
  receive_ifs [] = return (none, true)
  receive_ifs (i ∷ ifs) =
      if input.if_ready i.if_num
      then (do
        (packet, ok) ←
            receive_frames write word_bit_size clients i.if_num packets_per_cycle
              (input.if_frames i.if_num)
        elim packet [
          | some rcv ↦ return (some rcv, ok)
          | none ↦ (if ok then receive_ifs ifs else return (none, false))
        ])
      else receive_ifs ifs

  unfoldable pub receive_ready : M (Option Received × Bool)
  unfolding receive_packet_tap receive_ifs
  receive_ready = do
    ok ←
        (if input.tap_ready
          then receive_packet_tap tap_writes packets_per_cycle input.tap_frames
          else return true)
    h ← gets (λ h. h)
    if ok then receive_ifs h.if_list else return (none, false)

  -- Where the list of waits ends, the function has not returned, and there is no result.
  unfoldable pub receive_packet : List (ℕ × Bool) → M (Option Received × Bool)
  unfolding wait receive_ready
  receive_packet waits = elim (wait waits) [
    | waiting ↦ lift none
    | failed ↦ return (none, false)
    | timed_out ↦ return (none, true)
    | ready ↦ receive_ready
  ]
