-- ===== src/Link/Defs.antt =====
-- batman-adv.c, `count_real_packets` and `isBidirectionalNeigh`. The debugging output is not modelled.
use batman_adv_userspace.Base.{
  ℕ, ◌+◌, ◌-◌, ◌*◌, ◌/◌, ◌%◌, ◌^◌, ◌==◌, List, [], ◌∷◌, Bool, true, false, Option, none, some, ◌||◌,
  if◌then◌else◌, ltb, leb, get_elem?, min,
}
use batman_adv_userspace.BitArray.{get_bit_status, bit_get_packet, bit_packet_count}
use batman_adv_userspace.Originator.{create_neighbor, get_orig_node, is_sender}
use batman_adv_userspace.Mesh.{
  Mac, NeighNode, BatmanPacket, M, ◌>>=◌, ◌>>◌, return, lift, orig_at, store_orig, put_neigh,
}

-- TQ_MAX_VALUE, TQ_LOCAL_BIDRECT_SEND_MINIMUM, TQ_LOCAL_BIDRECT_RECV_MINIMUM, TQ_TOTAL_BIDRECT_LIMIT
abbrev pub tq_max_value : ℕ
tq_max_value = 255

abbrev pub tq_local_bidrect_send_minimum : ℕ
tq_local_bidrect_send_minimum = 1

abbrev pub tq_local_bidrect_recv_minimum : ℕ
tq_local_bidrect_recv_minimum = 1

abbrev pub tq_total_bidrect_limit : ℕ
tq_total_bidrect_limit = 1

-- `a - b` of two uint16_t, passed as an int16_t: its bit pattern.
abbrev pub seqno_diff : ℕ → ℕ → ℕ
seqno_diff a b = (a + 2 ^ 16 - b) % 2 ^ 16

module _ (word_bit_size : ℕ) where
  -- The body of the loop of `count_real_packets`, on one neighbour.
  unfoldable pub count_neigh : Mac → ℕ → ℕ → ℕ → Bool → NeighNode → M (Bool × NeighNode)
  unfolding is_sender get_bit_status bit_get_packet bit_packet_count
  count_neigh neigh if_incoming seqno last_real_seqno is_duplicate n = do
    dup ←
        (if is_duplicate
          then return true
          else lift (get_bit_status word_bit_size n.real_bits last_real_seqno seqno))
    r ← lift (
        bit_get_packet word_bit_size n.real_bits (seqno_diff seqno last_real_seqno)
          (is_sender neigh if_incoming n))
    count ← lift (bit_packet_count r.1)
    return (dup, record n { real_bits = r.1; real_packet_count = count % 2 ^ 8 })

  unfoldable pub count_neighs : Mac → ℕ → ℕ → ℕ → Bool → List NeighNode → M (Bool × List NeighNode)
  unfolding count_neigh
  count_neighs neigh if_incoming seqno last_real_seqno is_duplicate [] = return (is_duplicate, [])
  count_neighs neigh if_incoming seqno last_real_seqno is_duplicate (n ∷ ns) = do
    r ← count_neigh neigh if_incoming seqno last_real_seqno is_duplicate n
    s ← count_neighs neigh if_incoming seqno last_real_seqno r.0 ns
    return (s.0, r.1 ∷ s.1)

  unfoldable pub count_real_packets : Mac → BatmanPacket → ℕ → M Bool
  unfolding get_orig_node orig_at store_orig count_neighs
  count_real_packets neigh in_packet if_incoming = do
    p ← get_orig_node word_bit_size in_packet.orig
    o ← orig_at p
    r ← count_neighs neigh if_incoming in_packet.seqno o.last_real_seqno false o.neigh_list
    store_orig p (record o {
      neigh_list = r.1;
      last_real_seqno = if r.0 then o.last_real_seqno else in_packet.seqno;
    })
    return r.0

-- The last neighbour in the list that has this address and interface.
unfoldable pub last_neigh : Mac → ℕ → List NeighNode → Option NeighNode → Option NeighNode
unfolding is_sender
last_neigh addr if_incoming [] found = found
last_neigh addr if_incoming (n ∷ ns) found =
    last_neigh addr if_incoming ns (if is_sender addr if_incoming n then some n else found)

-- `tq_own`, a uint8_t, from the counts of own broadcasts heard and of packets received.
unfoldable pub tq_own_of : ℕ → ℕ → ℕ
tq_own_of total_count real_packet_count =
    if ltb total_count tq_local_bidrect_send_minimum
      || ltb real_packet_count tq_local_bidrect_recv_minimum
    then 0
    else tq_max_value * total_count / real_packet_count % 2 ^ 8

-- 1 - (1 - x)^3, scaled to TQ_MAX_VALUE, in int arithmetic. Past the window the cube is negative, and
-- the division cuts towards 0.
unfoldable pub tq_asym_penalty_of : ℕ → ℕ
tq_asym_penalty_of real_packet_count =
    if leb real_packet_count 64
    then tq_max_value
      - tq_max_value
        * (64 - real_packet_count)
        * (64 - real_packet_count)
        * (64 - real_packet_count)
        / (64 * 64 * 64)
    else tq_max_value
      + tq_max_value
        * (real_packet_count - 64)
        * (real_packet_count - 64)
        * (real_packet_count - 64)
        / (64 * 64 * 64)

-- The new `in->tq`, a uint8_t.
unfoldable pub combined_tq : ℕ → ℕ → ℕ → ℕ
combined_tq tq tq_own tq_asym_penalty =
    tq * tq_own * tq_asym_penalty / (tq_max_value * tq_max_value) % 2 ^ 8

-- The neighbour's own structure, made where there is none. It is looked for in the list of the one hop
-- neighbour, which is the originator's own list where the two are one.
unfoldable pub link_node : ℕ → ℕ → ℕ → M NeighNode
unfolding last_neigh orig_at create_neighbor
link_node word_bit_size neigh_ptr if_incoming = do
  on ← orig_at neigh_ptr
  elim (last_neigh on.orig if_incoming on.neigh_list none) [
    | some n ↦ return n
    | none ↦ create_neighbor word_bit_size neigh_ptr neigh_ptr on.orig if_incoming
  ]

-- Whether the link is bidirectional, and the packet with its quality scaled.
unfoldable pub is_bidirectional_neigh : ℕ → ℕ → ℕ → BatmanPacket → ℕ → ℕ → M (Bool × BatmanPacket)
unfolding link_node orig_at store_orig put_neigh tq_own_of tq_asym_penalty_of combined_tq
is_bidirectional_neigh word_bit_size orig_ptr neigh_ptr in_packet recv_time if_incoming = do
  n ← link_node word_bit_size neigh_ptr if_incoming
  o ← orig_at orig_ptr
  store_orig orig_ptr (record o {
    last_valid = recv_time;
    neigh_list =
        if orig_ptr == neigh_ptr
        then put_neigh (record n { last_valid = recv_time }) o.neigh_list
        else o.neigh_list;
  })
  on ← orig_at neigh_ptr
  sum ← lift (get_elem? on.bcast_own_sum if_incoming)
  let tq_own = tq_own_of (min sum n.real_packet_count) n.real_packet_count
  let penalty = tq_asym_penalty_of n.real_packet_count
  store_orig neigh_ptr (record on { tq_own = tq_own; tq_asym_penalty = penalty })
  let tq = combined_tq in_packet.tq tq_own penalty
  return (leb tq_total_bidrect_limit tq, record in_packet { tq = tq })
