-- ===== src/Tests/Queue.antt =====
-- A queue with two packets that are due, and one that is not.
use batman_adv_userspace.Base.{ℕ, ◌≡◌, refl, [], ◌∷◌, some, arith}
use batman_adv_userspace.Mesh.{Mesh, BatmanIf}
use batman_adv_userspace.Schedule.{
  WriteResult, AreForwarded, due, drained, send_outstanding_packets, send_outstanding_packets_lem,
}
use batman_adv_userspace.Tests.Data.{mac_a, ogm_a, mesh, queued}

abbrev only_if : BatmanIf
only_if = record { if_num = 0; hw_addr = mac_a; bcast_seqno = 1; out = ogm_a }

abbrev busy : Mesh
busy = record mesh { if_list = only_if ∷ []; forw_list = queued 10 ∷ queued 20 ∷ queued 90 ∷ [] }

abbrev all_written : ℕ → ℕ → WriteResult
all_written i j = WriteResult.written

send_outstanding_packets_example :
    send_outstanding_packets all_written 32 1000 50 ((50, 7) ∷ (51, 8) ∷ []) busy
    ≡ some (tt, drained 50 busy.forw_list busy)
unfolding due AreForwarded
send_outstanding_packets_example =
    send_outstanding_packets_lem all_written 32 1000 50 ((50, 7) ∷ (51, 8) ∷ []) busy (λ i j. refl)
      (refl, (refl, tt)) (omega arith)
