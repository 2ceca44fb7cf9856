-- ===== src/Schedule/Defs.antt =====
-- schedule.c. `get_time` and `rand_num` are arguments, `write` is what `rawsock_write` does by
-- interface and attempt, and `malloc` is taken to succeed. `restore_and_exit` is a fault here.
use batman_adv_userspace.Base.{
  ℕ, ◌+◌, ◌-◌, ◌*◌, ◌/◌, ◌%◌, ◌^◌, ◌==◌, List, [], ◌∷◌, Bool, true, false, Option, none, some, ◌&&◌,
  not, if◌then◌else◌, ltb, leb, get_elem?, set, take, bit_and,
}
use batman_adv_userspace.BitArray.{bit_get_packet, bit_packet_count}
use batman_adv_userspace.Hash.{entries}
use batman_adv_userspace.Address.{compare_orig}
use batman_adv_userspace.Routes.{same_ptr}
use batman_adv_userspace.Schedule.Send.{WriteResult, send_packet}
use batman_adv_userspace.Mesh.{
  Mac, OrigNode, NeighNode, ForwNode, BatmanPacket, BatmanIf, Ref, Event, M, ◌>>=◌, ◌>>◌, return,
  gets, lift, modify, orig_at, store_orig, neigh_at, find_if,
}

-- JITTER, DIRECTLINK, TQ_HOP_PENALTY, TQ_MAX_VALUE, `sizeof(struct batman_packet)`
abbrev pub jitter : ℕ
jitter = 100

abbrev pub directlink_flag : ℕ
directlink_flag = 0x40

abbrev pub tq_hop_penalty : ℕ
tq_hop_penalty = 10

abbrev pub tq_max_value : ℕ
tq_max_value = 255

abbrev pub batman_packet_size : ℕ
batman_packet_size = 22

-- The uint32_t time of the next own packet; `interval` is `originator_interval`, taken not negative,
-- and `rnd` is what `rand_num(2*JITTER)` returns.
unfoldable pub own_send_time : ℕ → ℕ → ℕ → ℕ
own_send_time now interval rnd = (now + interval + 2 ^ 32 - jitter + rnd) % 2 ^ 32

-- The loop over the queue with `list_add_before`, and the `list_add_tail` where no packet is later.
unfoldable pub insert_forw : ForwNode → List ForwNode → List ForwNode
insert_forw n [] = n ∷ []
insert_forw n (m ∷ r) =
    let rest = insert_forw n r in if ltb n.send_time m.send_time then n ∷ m ∷ r else m ∷ rest

-- `batman_if->out.seqno++`, on a uint16_t.
unfoldable pub bump_seqno : ℕ → List BatmanIf → List BatmanIf
bump_seqno if_num [] = []
bump_seqno if_num (i ∷ r) =
    let out : BatmanPacket = i.out in
    let rest = bump_seqno if_num r in
    if i.if_num == if_num
    then (record i { out = record out { seqno = (out.seqno + 1) % 2 ^ 16 } }) ∷ r
    else i ∷ rest

-- The bytes of the own packet: the interface's header and the announced addresses.
unfoldable pub own_node : ℕ → ℕ → List ℕ → BatmanIf → ForwNode
own_node send_time num_hna hna_buff i = record {
  send_time = send_time;
  own = true;
  pack = i.out;
  pack_hna = take (num_hna * 6) hna_buff;
  pack_buff_len = batman_packet_size + num_hna * 6;
  if_outgoing = some i.if_num;
}

-- The loop of `schedule_own_packet` over the originators: the window of own broadcasts heard back on
-- this interface moves on by one.
unfoldable pub age_own : ℕ → ℕ → List Ref → M (Unit {0})
unfolding orig_at store_orig bit_get_packet bit_packet_count
age_own word_bit_size if_num [] = return tt
age_own word_bit_size if_num (r ∷ rs) = do
  o ← orig_at r.ptr
  ws ← lift (get_elem? o.bcast_own if_num)
  q ← lift (bit_get_packet word_bit_size ws 1 false)
  count ← lift (bit_packet_count q.1)
  store_orig r.ptr (record o {
    bcast_own = set o.bcast_own if_num q.1;
    bcast_own_sum = set o.bcast_own_sum if_num (count % 2 ^ 8);
  })
  age_own word_bit_size if_num rs

unfoldable pub schedule_own_packet : ℕ → ℕ → ℕ → M (Unit {0})
unfolding find_if insert_forw own_node bump_seqno age_own entries
schedule_own_packet word_bit_size send_time if_num = do
  h ← gets (λ h. h)
  i ← lift (find_if if_num h.if_list)
  modify (λ h. record h {
    forw_list = insert_forw (own_node send_time h.num_hna h.hna_buff i) h.forw_list;
    if_list = bump_seqno if_num h.if_list;
  })
  age_own word_bit_size if_num (entries h.orig_hash.table)

-- The header to forward, from the received one; `router` is what `orig_node->router` points to.
unfoldable pub best_ogm : Option NeighNode → Mac → BatmanPacket → BatmanPacket
unfolding compare_orig
best_ogm none neigh pack = pack
best_ogm (some r) neigh pack =
    if not (r.tq_avg == 0) && not (compare_orig r.addr neigh == 0)
    then record pack { tq = r.tq_avg; ttl = (r.last_ttl + 2 ^ 8 - 1) % 2 ^ 8 }
    else pack

unfoldable pub hop_penalty : ℕ → ℕ
hop_penalty tq = tq * (tq_max_value - tq_hop_penalty) / tq_max_value

unfoldable pub forwarded : Option NeighNode → Mac → Bool → BatmanPacket → BatmanPacket
unfolding best_ogm hop_penalty
forwarded router neigh directlink in_packet =
    let pack =
      best_ogm router neigh (record in_packet { ttl = in_packet.ttl - 1; old_orig = neigh }) in
    record pack { tq = hop_penalty pack.tq; flags = if directlink then directlink_flag else 0 }

-- `orig_node->router`, read through; a dangling one faults.
unfoldable pub router_of : OrigNode → Option (Option NeighNode)
unfolding neigh_at
router_of o = elim o.router [
  | none ↦ some none
  | some p ↦ elim (neigh_at p o.neigh_list) [ none ↦ none | some n ↦ some (some n) ]
]

-- `hna` are the bytes behind the header.
unfoldable pub schedule_forward_packet :
    ℕ → ℕ → Mac → BatmanPacket → List ℕ → Bool → ℕ → ℕ → M (Unit {0})
unfolding orig_at router_of forwarded
schedule_forward_packet now orig_ptr neigh in_packet hna directlink buff_len if_outgoing =
    if leb in_packet.ttl 1 then return tt else (do
      o ← orig_at orig_ptr
      router ← lift (router_of o)
      modify (λ h. record h {
        forw_list =
            record {
              send_time = now;
              own = false;
              pack = forwarded router neigh directlink in_packet;
              pack_hna = hna;
              pack_buff_len = buff_len;
              if_outgoing = some if_outgoing;
            }
            ∷ h.forw_list;
      }))

-- On a little-endian machine.
unfoldable pub htons : ℕ → ℕ
htons n = n % 2 ^ 8 * 2 ^ 8 + n / 2 ^ 8 % 2 ^ 8

module _ (write : ℕ → ℕ → WriteResult) where
  unfoldable pub send_on : ForwNode → BatmanPacket → ℕ → M (Unit {0})
  unfolding send_packet
  send_on n pack if_num = do
    ok ← send_packet (write if_num) (Event.ogm if_num pack n.pack_hna n.pack_buff_len)
    if ok then return tt else lift none

  -- The loop over the interfaces.
  unfoldable pub send_all : ForwNode → BatmanPacket → Bool → List BatmanIf → M (Unit {0})
  unfolding send_on same_ptr
  send_all n pack directlink [] = return tt
  send_all n pack directlink (i ∷ ifs) = do
    send_on n
        (record pack {
          flags =
              if directlink && same_ptr n.if_outgoing (some i.if_num) then directlink_flag else 0;
        })
        i.if_num
    send_all n pack directlink ifs

  -- What is sent of one packet that is due. An own packet without an interface faults.
  unfoldable pub transmit : ForwNode → M (Unit {0})
  unfolding htons send_on send_all
  transmit n = do
    let old : BatmanPacket = n.pack
    let pack : BatmanPacket = record old { seqno = htons old.seqno }
    let directlink = not (bit_and old.flags directlink_flag == 0)
    h ← gets (λ h. h)
    elim n.if_outgoing [
      | none ↦
          if directlink
          then return tt
          else (if n.own then lift none else send_all n pack directlink h.if_list)
      | some i ↦
          if directlink && pack.ttl == 1
          then send_on n pack i
          else (if n.own && ltb 0 i then send_on n pack i else send_all n pack directlink h.if_list)
    ]

  -- Where the walk goes on after an own packet was queued again at `t`: at the packet that was next,
  -- which the new one may stand before.
  unfoldable pub cursor_after : ℕ → List ForwNode → List ForwNode → List ForwNode
  cursor_after t [] queue = []
  cursor_after t (m ∷ r) queue = if ltb t m.send_time then m ∷ r else queue

  -- The walk over the queue, at `queue`. Each round has a value of `get_time` and of `rand_num` at hand;
  -- where they run out, so does the walk. `list_del` with the head as the predecessor drops all that
  -- stands before the packet.
  unfoldable pub send_due : ℕ → ℕ → ℕ → List (ℕ × ℕ) → List ForwNode → M (Unit {0})
  unfolding transmit own_send_time schedule_own_packet cursor_after
  send_due word_bit_size interval curr_time draws [] = return tt
  send_due word_bit_size interval curr_time [] (n ∷ rest) =
      if ltb curr_time n.send_time then return tt else lift none
  send_due word_bit_size interval curr_time ((now, rnd) ∷ draws) (n ∷ rest) =
      if ltb curr_time n.send_time then return tt else (do
        transmit n
        modify (λ h. record h { forw_list = rest })
        next ←
            (if n.own
              then (elim n.if_outgoing [
                | none ↦ lift none
                | some i ↦ (do
                  schedule_own_packet word_bit_size (own_send_time now interval rnd) i
                  gets (λ h. cursor_after (own_send_time now interval rnd) rest h.forw_list))
              ])
              else return rest)
        send_due word_bit_size interval curr_time draws next)

  unfoldable pub send_outstanding_packets : ℕ → ℕ → ℕ → List (ℕ × ℕ) → M (Unit {0})
  unfolding send_due
  send_outstanding_packets word_bit_size interval curr_time draws = do
    h ← gets (λ h. h)
    send_due word_bit_size interval curr_time draws h.forw_list
