-- ===== src/Clients/Cycle.antt =====
-- posix-specific.c: a round of `unix_listen`, with what it makes `handle_packet` do.
use batman_adv_userspace.Base.{ℕ, List, [], ◌∷◌, Bool, true, false}
use batman_adv_userspace.Mesh.{M, lift, return, ◌>>=◌, ◌>>◌}
use batman_adv_userspace.Frames.{handle_client}
use batman_adv_userspace.Clients.Defs.{UnixIf}
use batman_adv_userspace.Clients.Thread.{Selected, goes_on, breaks, unix_round}

-- The packets of the clients go to `handle_packet` one after another.
unfoldable pub handle_packets : (ℕ → Bool) → List (ℕ × List ℕ) → M (Unit {0})
unfolding handle_client
handle_packets write [] = return tt
handle_packets write ((uid, bytes) ∷ r) = do handle_client write uid bytes; handle_packets write r

-- A round with what its packets do to the mesh; true where the loop goes on.
unfoldable pub unix_cycle : (ℕ → Bool) → ℕ → Selected → UnixIf → M (UnixIf × Bool)
unfolding unix_round handle_packets
unix_cycle write debug_level_max s u = do
  r ← lift (unix_round debug_level_max s u)
  elim r [
    | breaks ↦ return (u, false)
    | goes_on v packets ↦ (do handle_packets write packets; return (v, true))
  ]
