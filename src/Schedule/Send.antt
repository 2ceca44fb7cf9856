-- ===== src/Schedule/Send.antt =====
-- posix-specific.c, `send_packet`. `write i` is what the i-th `rawsock_write` of the call does.
use batman_adv_userspace.Base.{ℕ, zero, suc, Bool, true, false}
use batman_adv_userspace.Mesh.{Event, M, ◌>>◌, return, emit}

-- A write that returns no error and sent the frame, one that returns none and dropped it, one that fails
-- with EAGAIN or ESPIPE, and one that fails otherwise.
pub data WriteResult : Type 0 where
  written : WriteResult
  dropped : WriteResult
  again : WriteResult
  failed : WriteResult

abbrev pub packets_per_cycle : ℕ
packets_per_cycle = 10

-- True is the 0 of the code, false its -1. The event is the frame that leaves the program.
unfoldable pub send_loop : (ℕ → WriteResult) → ℕ → ℕ → Event → M Bool
unfolding emit
send_loop write zero i e = return true
send_loop write (suc rounds) i e = elim (write i) [
  | WriteResult.written ↦ (do emit e; return true)
  | WriteResult.dropped ↦ return true
  | WriteResult.again ↦ send_loop write rounds (suc i) e
  | WriteResult.failed ↦ return false
]

unfoldable pub send_packet : (ℕ → WriteResult) → Event → M Bool
unfolding send_loop
send_packet write e = send_loop write packets_per_cycle 0 e
