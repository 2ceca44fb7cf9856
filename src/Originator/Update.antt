-- ===== src/Originator/Update.antt =====
-- originator.c, `update_orig`: rank the neighbours towards an originator by a received packet.
use batman_adv_userspace.Base.{
  ℕ, ◌*◌, ◌==◌, List, [], ◌∷◌, Bool, Option, none, some, ◌&&◌, ◌||◌, not, if◌then◌else◌, ltb,
  get_elem?, min,
}
use batman_adv_userspace.RingBuffer.{ring_buffer_set, ring_buffer_avg}
use batman_adv_userspace.Address.{compare_orig}
use batman_adv_userspace.Routes.{RecvBuff, update_routes, update_gw_list, same_ptr}
use batman_adv_userspace.Originator.Nodes.{create_neighbor, get_orig_node}
use batman_adv_userspace.Mesh.{
  Mac, NeighNode, BatmanPacket, M, ◌>>=◌, ◌>>◌, return, lift, when, orig_at, store_orig, neigh_at,
  put_neigh,
}

-- `ring_buffer_set` and then `ring_buffer_avg` on the link qualities of a neighbour.
unfoldable pub record_tq : NeighNode → ℕ → M NeighNode
unfolding ring_buffer_set ring_buffer_avg
record_tq n tq = do
  r ← lift (ring_buffer_set n.tq_recv n.tq_index tq)
  avg ← lift (ring_buffer_avg r.0)
  return (record n { tq_recv = r.0; tq_index = r.1; tq_avg = avg })

-- `neigh_node->orig_node->bcast_own_sum[if_num]`, through two pointers.
unfoldable pub own_sum : NeighNode → ℕ → M ℕ
unfolding orig_at
own_sum n if_num = do o ← orig_at n.orig_node; lift (get_elem? o.bcast_own_sum if_num)

-- The ranking so far.
pub record Ranking : Type 0 where
  pub max_tq : ℕ
  pub max_bcast_own : ℕ
  pub best : Option ℕ

-- The three-fold test of the loop and of its end: more quality, or the same with more own broadcasts
-- heard, or the same by the present router.
unfoldable pub beats : NeighNode → ℕ → Option ℕ → Ranking → Bool
unfolding same_ptr
beats n sum router k =
    ltb k.max_tq n.tq_avg
    || ((n.tq_avg == k.max_tq && ltb k.max_bcast_own sum)
        || (same_ptr router (some n.ptr) && n.tq_avg == k.max_tq))

unfoldable pub rank : NeighNode → ℕ → Option ℕ → Ranking → Ranking
unfolding beats
rank n sum router k =
    if beats n sum router k
    then record { max_tq = n.tq_avg; max_bcast_own = sum; best = some n.ptr }
    else k

-- The test reads `bcast_own_sum` only where the quality is at least the best so far.
unfoldable pub rank_neigh : NeighNode → ℕ → Option ℕ → Ranking → M Ranking
unfolding own_sum rank
rank_neigh n if_num router k =
    if ltb n.tq_avg k.max_tq
    then return k
    else (do sum ← own_sum n if_num; return (rank n sum router k))

-- Is this the neighbour that sent the packet?
unfoldable pub is_sender : Mac → ℕ → NeighNode → Bool
unfolding compare_orig
is_sender neigh if_incoming n = compare_orig n.addr neigh == 0 && n.if_incoming == if_incoming

-- The loop over the neighbours: the list with the others' rings moved on, the sender's pointer (the
-- last that fits), and the ranking of the others.
unfoldable pub rank_others :
    Option ℕ
    → Mac
    → ℕ
    → Bool
    → List NeighNode
    → Option ℕ
    → Ranking
    → M (List NeighNode × Option ℕ × Ranking)
unfolding is_sender record_tq rank_neigh
rank_others router neigh if_incoming is_duplicate [] sender k = return ([], sender, k)
rank_others router neigh if_incoming is_duplicate (n ∷ ns) sender k =
    if is_sender neigh if_incoming n
    then (do
      r ← rank_others router neigh if_incoming is_duplicate ns (some n.ptr) k
      return (n ∷ r.0, r.1, r.2))
    else (do
      n' ← (if is_duplicate then return n else record_tq n 0)
      k' ← rank_neigh n' if_incoming router k
      r ← rank_others router neigh if_incoming is_duplicate ns sender k'
      return (n' ∷ r.0, r.1, r.2))

-- The sender's structure, made where there was none.
unfoldable pub sender_node : ℕ → ℕ → Mac → ℕ → Option ℕ → M NeighNode
unfolding orig_at neigh_at get_orig_node create_neighbor
sender_node word_bit_size orig_ptr neigh if_incoming (some p) = do
  o ← orig_at orig_ptr
  lift (neigh_at p o.neigh_list)
sender_node word_bit_size orig_ptr neigh if_incoming none = do
  q ← get_orig_node word_bit_size neigh
  create_neighbor word_bit_size orig_ptr q neigh if_incoming

-- `hna` are the bytes behind the packet, `now` is what `get_time` returns in `update_gw_list`.
unfoldable pub update_orig :
    ℕ → ℕ → ℕ → Mac → BatmanPacket → ℕ → List ℕ → ℕ → Bool → ℕ → M (Unit {0})
unfolding rank_others sender_node record_tq rank_neigh update_routes update_gw_list orig_at
    store_orig put_neigh
update_orig word_bit_size now orig_ptr neigh in_packet if_incoming hna hna_buff_len is_duplicate
      rcvd_time =
    do
      o ← orig_at orig_ptr
      r ←
          rank_others o.router neigh if_incoming is_duplicate o.neigh_list none
            (record { max_tq = 0; max_bcast_own = 0; best = none })
      store_orig orig_ptr (record o { neigh_list = r.0 })
      n ← sender_node word_bit_size orig_ptr neigh if_incoming r.1
      n' ← record_tq n in_packet.tq
      o' ← orig_at orig_ptr
      store_orig orig_ptr (record o' {
        neigh_list =
            put_neigh
              (record n' {
                last_valid = rcvd_time;
                last_ttl = if is_duplicate then n.last_ttl else in_packet.ttl;
              })
              o'.neigh_list;
        last_ttl = if is_duplicate then o'.last_ttl else in_packet.ttl;
      })
      k ← rank_neigh n' if_incoming o'.router r.2
      update_routes orig_ptr k.best (RecvBuff.packet hna) (min hna_buff_len (in_packet.num_hna * 6))
      o'' ← orig_at orig_ptr
      when (not (o''.gwflags == in_packet.gwflags)) (update_gw_list now orig_ptr in_packet.gwflags)
      o3 ← orig_at orig_ptr
      store_orig orig_ptr (record o3 { gwflags = in_packet.gwflags })
