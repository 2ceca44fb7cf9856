-- ===== src/Handler/Cycle.antt =====
-- batman-adv.c, `batman`: the set-up of the interfaces, one round of the main loop, and the end.
-- `checkIntegrity`, `debug_orig` and `send_vis_packet` change no state of the model.
use batman_adv_userspace.Base.{
  ℕ, ◌+◌, ◌-◌, ◌*◌, ◌%◌, ◌^◌, List, [], ◌∷◌, Bool, true, false, Option, none, some, if◌then◌else◌,
  ltb,
}
use batman_adv_userspace.Hash.{hash_new}
use batman_adv_userspace.TransTable.{hna_update, transtable_init, transtable_quit}
use batman_adv_userspace.Schedule.{
  WriteResult, schedule_own_packet, own_send_time, send_outstanding_packets,
}
use batman_adv_userspace.Purge.{purge_orig, purge_timeout}
use batman_adv_userspace.Handler.Defs.{Received, handle_packet, compat_version}
use batman_adv_userspace.Vis.{send_vis_packet}
use batman_adv_userspace.Mesh.{ForwNode, BatmanIf, Ref, M, ◌>>=◌, ◌>>◌, return, gets, modify}

-- BAT_PACKET, TTL, TQ_MAX_VALUE
abbrev pub bat_packet : ℕ
bat_packet = 1

abbrev pub ttl_start : ℕ
ttl_start = 50

-- `batman_if->out` and `bcast_seqno` at the start.
unfoldable pub init_if : ℕ → BatmanIf → BatmanIf
init_if gateway_class i = record i {
  bcast_seqno = 1;
  out = record {
    packet_type = bat_packet;
    version = compat_version;
    flags = 0;
    ttl = ttl_start;
    gwflags = gateway_class;
    tq = 255;
    seqno = 1;
    orig = i.hw_addr;
    old_orig = i.hw_addr;
    num_hna = 0;
  };
}

unfoldable pub set_if : BatmanIf → List BatmanIf → List BatmanIf
set_if i [] = []
set_if i (j ∷ r) =
    if ltb j.if_num i.if_num
    then j ∷ set_if i r
    else (if ltb i.if_num j.if_num then j ∷ set_if i r else i ∷ r)

-- The loop over the interfaces, each with its first packet queued; `draws` are what `get_time` and
-- `rand_num` return.
unfoldable pub init_ifs : ℕ → ℕ → ℕ → (ℕ → ℕ × ℕ) → List BatmanIf → M (Unit {0})
unfolding init_if set_if schedule_own_packet own_send_time
init_ifs word_bit_size gateway_class interval draws [] = return tt
init_ifs word_bit_size gateway_class interval draws (i ∷ ifs) = do
  modify (λ h. record h { if_list = set_if (init_if gateway_class i) h.if_list })
  schedule_own_packet word_bit_size (own_send_time (draws i.if_num).0 interval (draws i.if_num).1)
      i.if_num
  init_ifs word_bit_size gateway_class interval draws ifs

-- The part before the loop; false where the table cannot be allocated.
unfoldable pub start : ℕ → ℕ → ℕ → (ℕ → ℕ × ℕ) → Bool → Bool → M Bool
unfolding hash_new init_ifs transtable_init
start word_bit_size gateway_class interval draws orig_malloc trans_malloc =
    elim (hash_new {D = Ref} orig_malloc true 128) [
      | none ↦ return false
      | some table ↦ (do
        modify (λ h. record h { orig_hash = table })
        h ← gets (λ h. h)
        init_ifs word_bit_size gateway_class interval draws h.if_list
        transtable_init trans_malloc true)
    ]

-- `select_timeout`; an empty queue reads what is behind its head, here a fault.
unfoldable pub select_timeout : ℕ → List ForwNode → Option ℕ
select_timeout curr_time [] = none
select_timeout curr_time (n ∷ r) =
    some (if ltb curr_time n.send_time then n.send_time - curr_time else 10)

-- One round of the loop from `receive_packet` on, which gave `rcv`, or nothing. `now` is the clock
-- throughout the round; `vis` is there where `vis_if.sock` is, with the class of the gateway and the
-- bytes that malloc leaves in the packet. Returns the new `debug_timeout`.
unfoldable pub round :
    ℕ
    → ℕ
    → ℕ
    → (ℕ → ℕ → WriteResult)
    → List (ℕ × ℕ)
    → Option (ℕ × (ℕ → ℕ))
    → ℕ
    → Option Received
    → ℕ
    → M ℕ
unfolding handle_packet hna_update send_outstanding_packets purge_orig send_vis_packet
round word_bit_size interval tap_mtu write draws vis now rcv debug_timeout = do
  modify (λ h. record h { curr_time = now })
  elim rcv [ none ↦ return tt | some r ↦ handle_packet word_bit_size r ]
  hna_update tap_mtu
  send_outstanding_packets write word_bit_size interval now draws
  if ltb (debug_timeout + 1000) now
      then (do
        purge_orig now now
        elim vis [
          | none ↦ return tt
          | some (gateway_class, unset) ↦ send_vis_packet unset gateway_class
        ]
        return now)
      else return debug_timeout

-- The end: all is purged, and the queue is freed. The tables that are freed after the purge are left as
-- they are.
unfoldable pub finish : ℕ → ℕ → M (Unit {0})
unfolding purge_orig transtable_quit
finish now interval = do
  purge_orig now ((now + 5 * purge_timeout + interval) % 2 ^ 32)
  transtable_quit
  modify (λ h. record h { forw_list = [] })
