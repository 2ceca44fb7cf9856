-- ===== src/Handler/Defs.antt =====
-- batman-adv.c, the handling of one received packet in `batman`. The debugging output is not modelled.
use batman_adv_userspace.Base.{
  ℕ, ◌+◌, ◌-◌, ◌%◌, ◌^◌, ◌==◌, List, [], ◌∷◌, Bool, false, none, some, ◌&&◌, ◌||◌, not,
  if◌then◌else◌, leb, get_elem?, set, bit_and,
}
use batman_adv_userspace.BitArray.{bit_mark, bit_packet_count}
use batman_adv_userspace.Address.{compare_orig}
use batman_adv_userspace.TransTable.{is_my_mac, bcast_addr}
use batman_adv_userspace.Originator.{get_orig_node, update_orig}
use batman_adv_userspace.Link.{count_real_packets, is_bidirectional_neigh}
use batman_adv_userspace.Schedule.{schedule_forward_packet, directlink_flag, batman_packet_size}
use batman_adv_userspace.Mesh.{
  Mac, OrigNode, BatmanPacket, BatmanIf, M, ◌>>=◌, ◌>>◌, return, gets, lift, when, orig_at,
  store_orig, find_if,
}

abbrev pub compat_version : ℕ
compat_version = 6

-- A received packet: `neigh`, `in`, the bytes behind the header, `in_len`, and `if_incoming->if_num`.
pub record Received : Type 0 where
  pub neigh : Mac
  pub in_packet : BatmanPacket
  pub in_hna : List ℕ
  pub in_len : ℕ
  pub if_incoming : ℕ

-- What becomes of a packet, by the tests on it alone and on the interfaces.
pub data Verdict : Type 0 where
  wrong_version : Verdict
  own_broadcast : Verdict
  broadcast_source : Verdict
  own_originator : Verdict
  zero_quality : Verdict
  echo : Verdict
  accepted : Verdict

-- `is_broadcast` is set in the loop over the interfaces, so it stays 0 where there is none.
unfoldable pub is_broadcast : Mac → List BatmanIf → Bool
unfolding compare_orig
is_broadcast neigh [] = false
is_broadcast neigh (i ∷ ifs) = compare_orig neigh bcast_addr == 0

unfoldable pub classify : Mac → BatmanPacket → List BatmanIf → Verdict
unfolding is_my_mac is_broadcast
classify neigh pack ifs =
    if not (pack.version == compat_version)
    then Verdict.wrong_version
    else (if is_my_mac neigh ifs
        then Verdict.own_broadcast
        else (if is_broadcast neigh ifs
            then Verdict.broadcast_source
            else (if is_my_mac pack.orig ifs
                then Verdict.own_originator
                else (if pack.tq == 0
                    then Verdict.zero_quality
                    else (if is_my_mac pack.old_orig ifs
                        then Verdict.echo
                        else Verdict.accepted)))))

unfoldable pub has_directlink : BatmanPacket → Bool
has_directlink pack = not (bit_and pack.flags directlink_flag == 0)

-- The packet is the node's own, as the neighbour sends it back: it is counted as heard where it is the
-- one sent last, by its sequence number in int arithmetic.
unfoldable pub hear_own : ℕ → Received → M (Unit {0})
unfolding get_orig_node find_if has_directlink orig_at store_orig bit_mark bit_packet_count
hear_own word_bit_size rcv = do
  p ← get_orig_node word_bit_size rcv.neigh
  h ← gets (λ h. h)
  i ← lift (find_if rcv.if_incoming h.if_list)
  let out : BatmanPacket = i.out
  when (has_directlink rcv.in_packet && rcv.in_packet.seqno + 2 == out.seqno) (do
    o ← orig_at p
    ws ← lift (get_elem? o.bcast_own rcv.if_incoming)
    ws' ← lift (bit_mark word_bit_size ws 0)
    count ← lift (bit_packet_count ws')
    store_orig p (record o {
      bcast_own = set o.bcast_own rcv.if_incoming ws';
      bcast_own_sum = set o.bcast_own_sum rcv.if_incoming (count % 2 ^ 8);
    }))

-- Is the ranking to be updated?
unfoldable pub ranks : Bool → Bool → OrigNode → BatmanPacket → Bool
ranks is_bidirectional is_duplicate o pack =
    is_bidirectional
    && (not is_duplicate || (o.last_real_seqno == pack.seqno && leb o.last_ttl (pack.ttl + 3)))

-- Is the packet forwarded? A direct neighbour's always is.
unfoldable pub forwards : Bool → Bool → Bool → Bool
forwards is_single_hop_neigh is_bidirectional is_duplicate =
    is_single_hop_neigh || (is_bidirectional && not is_duplicate)

-- The packet that passed the tests, with both originators at hand.
unfoldable pub rank_and_forward : ℕ → Received → Bool → Bool → ℕ → ℕ → M (Unit {0})
unfolding is_bidirectional_neigh orig_at ranks update_orig forwards schedule_forward_packet
rank_and_forward word_bit_size rcv is_duplicate is_single_hop_neigh orig_ptr neigh_ptr = do
  h ← gets (λ h. h)
  r ←
      is_bidirectional_neigh word_bit_size orig_ptr neigh_ptr rcv.in_packet h.curr_time
        rcv.if_incoming
  o ← orig_at orig_ptr
  when (ranks r.0 is_duplicate o r.1) (
      update_orig word_bit_size h.curr_time orig_ptr rcv.neigh r.1 rcv.if_incoming rcv.in_hna
        (rcv.in_len - batman_packet_size) is_duplicate h.curr_time)
  when (forwards is_single_hop_neigh r.0 is_duplicate) (
      schedule_forward_packet h.curr_time orig_ptr rcv.neigh r.1 rcv.in_hna is_single_hop_neigh
        rcv.in_len rcv.if_incoming)

unfoldable pub accept : ℕ → Received → M (Unit {0})
unfolding count_real_packets get_orig_node compare_orig orig_at rank_and_forward
accept word_bit_size rcv = do
  is_duplicate ← count_real_packets word_bit_size rcv.neigh rcv.in_packet rcv.if_incoming
  orig_ptr ← get_orig_node word_bit_size rcv.in_packet.orig
  let is_single_hop_neigh = compare_orig rcv.neigh rcv.in_packet.orig == 0
  neigh_ptr ←
      (if is_single_hop_neigh then return orig_ptr else get_orig_node word_bit_size rcv.neigh)
  on ← orig_at neigh_ptr
  elim on.router [
    | none ↦
        when is_single_hop_neigh
          (rank_and_forward word_bit_size rcv is_duplicate is_single_hop_neigh orig_ptr neigh_ptr)
    | some _ ↦
        rank_and_forward word_bit_size rcv is_duplicate is_single_hop_neigh orig_ptr neigh_ptr
  ]

unfoldable pub handle_packet : ℕ → Received → M (Unit {0})
unfolding classify hear_own count_real_packets accept
handle_packet word_bit_size rcv = do
  h ← gets (λ h. h)
  elim (classify rcv.neigh rcv.in_packet h.if_list) [
    | Verdict.own_originator ↦ hear_own word_bit_size rcv
    | Verdict.zero_quality ↦ (do
      _ ← count_real_packets word_bit_size rcv.neigh rcv.in_packet rcv.if_incoming
      return tt)
    | Verdict.accepted ↦ accept word_bit_size rcv
    | _ ↦ return tt
  ]
