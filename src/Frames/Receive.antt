-- ===== src/Frames/Receive.antt =====
-- posix-specific.c, `receive_packet_batiface`, on one frame that `rawsock_read` returned, and
-- `handle_packet`. `write if_num` tells whether `rawsock_write` succeeds on an interface. The build
-- with BROADCAST_UNKNOWN_DEST, as batman-adv.h sets it, is modelled; the debugging output is not.
use batman_adv_userspace.Base.{
  ℕ, zero, suc, ◌-◌, ◌==◌, List, [], ◌∷◌, Bool, true, false, Option, none, some, ◌&&◌, ◌||◌,
  if◌then◌else◌, ltb, bytes_eq, set, take, drop, length,
}
use batman_adv_userspace.BitArray.{get_bit_status, bit_get_packet}
use batman_adv_userspace.TransTable.{is_my_mac, bcast_addr}
use batman_adv_userspace.Originator.{find_orig_node}
use batman_adv_userspace.Link.{seqno_diff}
use batman_adv_userspace.Schedule.{batman_packet_size}
use batman_adv_userspace.Handler.{Received, ttl_start}
use batman_adv_userspace.Frames.Layout.{
  bat_ogm, bat_icmp, bat_unicast, bat_bcast, echo_reply, destination_unreachable, echo_request,
  ttl_exceeded, icmp_packet_size, unicast_packet_size, bcast_packet_size, byte_at, mac_at, put_mac,
  ntohs_at, read_packet,
}
use batman_adv_userspace.Mesh.{
  Mac, NeighNode, BatmanIf, Event, M, ◌>>=◌, ◌>>◌, return, gets, lift, when, emit, orig_at,
  store_orig, neigh_at, find_if,
}

-- The round goes on to the next frame, or the function returns 1 with a packet, or it returns -1.
pub data Outcome : Type 0 where
  next : Outcome
  deliver : Received → Outcome
  error : Outcome

-- Where a frame to `dest` goes: the interface and the router of the originator, where it has both.
unfoldable pub route_to : Mac → M (Option (BatmanIf × NeighNode))
unfolding find_orig_node orig_at neigh_at find_if
route_to dest = do
  found ← find_orig_node dest
  elim found [
    | none ↦ return none
    | some p ↦ (do
      o ← orig_at p
      elim o.batman_if [
        | none ↦ return none
        | some i ↦ elim o.router [
          | none ↦ return none
          | some r ↦ (do
            n ← lift (neigh_at r o.neigh_list)
            h ← gets (λ h. h)
            f ← lift (find_if i h.if_list)
            return (some (f, n)))
        ]
      ])
  ]

module _ (write : ℕ → Bool) where
  unfoldable pub write_frame : ℕ → Mac → Mac → List ℕ → M Outcome
  unfolding emit
  write_frame if_num ether_dhost ether_shost bytes =
      if write if_num
      then (do emit (Event.frame if_num ether_dhost ether_shost bytes); return Outcome.next)
      else return Outcome.error

  -- The packet on its way to `dest`, with the ttl at `offset` lowered.
  unfoldable pub route_on : ℕ → Mac → List ℕ → M Outcome
  unfolding route_to write_frame byte_at
  route_on offset dest bytes = do
    r ← route_to dest
    elim r [
      | none ↦ return Outcome.next
      | some (i, n) ↦
          write_frame i.if_num n.addr i.hw_addr (set bytes offset (byte_at offset bytes - 1))
    ]

  unfoldable pub receive_unicast : Mac → Mac → List ℕ → M Outcome
  unfolding is_my_mac emit byte_at mac_at route_on
  receive_unicast ether_dhost ether_shost bytes =
      if bytes_eq ether_dhost bcast_addr
        || (bytes_eq ether_shost bcast_addr || ltb (length bytes) unicast_packet_size)
      then return Outcome.next
      else (do
        h ← gets (λ h. h)
        if is_my_mac (mac_at 2 bytes) h.if_list
            then (do emit (Event.tap (drop unicast_packet_size bytes)); return Outcome.next)
            else (if ltb (byte_at 8 bytes) 2
                then return Outcome.next
                else route_on 8 (mac_at 2 bytes) bytes))

  -- The packet goes back to its sender as an answer of the type `msg_type`.
  unfoldable pub answer : ℕ → Mac → List ℕ → M Outcome
  unfolding route_to write_frame mac_at put_mac
  answer msg_type ether_dhost bytes = do
    r ← route_to (mac_at 9 bytes)
    elim r [
      | none ↦ return Outcome.next
      | some (i, n) ↦ write_frame i.if_num n.addr i.hw_addr (
          set (set (put_mac 9 ether_dhost (put_mac 3 (mac_at 9 bytes) bytes)) 2 msg_type) 15
            ttl_start)
    ]

  -- `clients` tells whether `unix_packet[uid]` is there.
  unfoldable pub receive_icmp : (ℕ → Bool) → Mac → Mac → List ℕ → M Outcome
  unfolding is_my_mac emit byte_at mac_at answer route_on
  receive_icmp clients ether_dhost ether_shost bytes =
      if bytes_eq ether_dhost bcast_addr
        || (bytes_eq ether_shost bcast_addr || ltb (length bytes) icmp_packet_size)
      then return Outcome.next
      else (do
        h ← gets (λ h. h)
        if is_my_mac (mac_at 3 bytes) h.if_list
            then (if byte_at 2 bytes == echo_request
                then answer echo_reply ether_dhost bytes
                else (do
                  when (clients (byte_at 16 bytes))
                      (emit (Event.client (byte_at 16 bytes) (take icmp_packet_size bytes)))
                  return Outcome.next))
            else (if ltb (byte_at 15 bytes) 2
                then (if byte_at 2 bytes == echo_request
                    then answer ttl_exceeded ether_dhost bytes
                    else return Outcome.next)
                else route_on 15 (mac_at 3 bytes) bytes))

  -- The loop that sends a broadcast on every interface.
  unfoldable pub rebroadcast : Mac → List ℕ → List BatmanIf → M Outcome
  unfolding write_frame
  rebroadcast ether_dhost bytes [] = return Outcome.next
  rebroadcast ether_dhost bytes (i ∷ ifs) = do
    r ← write_frame i.if_num ether_dhost i.hw_addr bytes
    elim r [ Outcome.error ↦ return Outcome.error | _ ↦ rebroadcast ether_dhost bytes ifs ]

  -- A broadcast of a known originator: the flood history decides whether it is new.
  unfoldable pub flood : ℕ → ℕ → Mac → List ℕ → M Outcome
  unfolding orig_at store_orig get_bit_status bit_get_packet ntohs_at emit rebroadcast
  flood word_bit_size p ether_dhost bytes = do
    o ← orig_at p
    seen ← lift (get_bit_status word_bit_size o.seq_bits o.last_bcast_seqno (ntohs_at 8 bytes))
    if seen then return Outcome.next else (do
      q ← lift (
          bit_get_packet word_bit_size o.seq_bits (seqno_diff (ntohs_at 8 bytes) o.last_bcast_seqno)
            true)
      store_orig p (record o {
        seq_bits = q.1;
        last_bcast_seqno = if q.0 then ntohs_at 8 bytes else o.last_bcast_seqno;
      })
      emit (Event.tap (drop bcast_packet_size bytes))
      h ← gets (λ h. h)
      rebroadcast ether_dhost bytes h.if_list)

  unfoldable pub receive_bcast : ℕ → Mac → Mac → List ℕ → M Outcome
  unfolding is_my_mac mac_at find_orig_node flood
  receive_bcast word_bit_size ether_dhost ether_shost bytes =
      if bytes_eq ether_shost bcast_addr || ltb (length bytes) bcast_packet_size
      then return Outcome.next
      else (do
        h ← gets (λ h. h)
        if is_my_mac ether_shost h.if_list then return Outcome.next else (do
          found ← find_orig_node (mac_at 2 bytes)
          elim found [
            | none ↦ return Outcome.next
            | some p ↦ flood word_bit_size p ether_dhost bytes
          ]))

  -- The version is looked at for the debugging output only.
  unfoldable pub receive_frame : ℕ → (ℕ → Bool) → ℕ → Mac → Mac → List ℕ → M Outcome
  unfolding byte_at read_packet receive_unicast receive_icmp receive_bcast
  receive_frame word_bit_size clients if_num ether_dhost ether_shost bytes =
      if ltb (length bytes) 2
      then return Outcome.next
      else (if byte_at 0 bytes == bat_ogm
          then (if ltb (length bytes) batman_packet_size
              then return Outcome.next
              else return (
                  Outcome.deliver (record {
                    neigh = ether_shost;
                    in_packet = read_packet bytes;
                    in_hna = drop batman_packet_size bytes;
                    in_len = length bytes;
                    if_incoming = if_num;
                  })))
          else (if byte_at 0 bytes == bat_unicast
              then receive_unicast ether_dhost ether_shost bytes
              else (if byte_at 0 bytes == bat_icmp
                  then receive_icmp clients ether_dhost ether_shost bytes
                  else (if byte_at 0 bytes == bat_bcast
                      then receive_bcast word_bit_size ether_dhost ether_shost bytes
                      else return Outcome.next))))

  -- A packet of the local client `uid`; what cannot be sent goes back to it. A failed write is only
  -- reported.
  unfoldable pub handle_client : ℕ → List ℕ → M (Unit {0})
  unfolding byte_at mac_at put_mac route_to write_frame emit
  handle_client uid bytes =
      if byte_at 0 bytes == bat_icmp && byte_at 2 bytes == echo_request
      then (do
        r ← route_to (mac_at 3 bytes)
        elim r [
          | none ↦ emit (Event.client uid (set bytes 2 destination_unreachable))
          | some (i, n) ↦
              if ltb 0 (byte_at 15 bytes)
              then (do
                _ ← write_frame i.if_num n.addr i.hw_addr (put_mac 9 i.hw_addr (set bytes 16 uid))
                return tt)
              else emit (Event.client uid (set bytes 2 destination_unreachable))
        ])
      else return tt

-- The loop over the frames that are there to read (after them `rawsock_read` fails with EWOULDBLOCK), at most PACKETS_PER_CYCLE of them; true is the 0 of
-- the code, the packet its 1, and false its -1.
unfoldable pub receive_frames :
    (ℕ → ℕ → Bool) → ℕ → (ℕ → Bool) → ℕ → ℕ → List (Mac × Mac × List ℕ) → M (Option Received × Bool)
unfolding receive_frame
receive_frames write word_bit_size clients if_num zero frames = return (none, true)
receive_frames write word_bit_size clients if_num (suc rounds) [] = return (none, true)
receive_frames write word_bit_size clients if_num (suc rounds)
      ((ether_dhost, ether_shost, bytes) ∷ frames) =
    do
      r ← receive_frame (write rounds) word_bit_size clients if_num ether_dhost ether_shost bytes
      elim r [
        | Outcome.next ↦ receive_frames write word_bit_size clients if_num rounds frames
        | Outcome.deliver rcv ↦ return (some rcv, true)
        | Outcome.error ↦ return (none, false)
      ]
