-- ===== src/Frames/Tap.antt =====
-- posix-specific.c, `receive_packet_tap`, on the frames that were read from the tap device. `write` is
-- what `rawsock_write` does by interface and attempt. The build with BROADCAST_UNKNOWN_DEST is modelled.
use batman_adv_userspace.Base.{
  ℕ, zero, suc, ◌+◌, ◌%◌, ◌^◌, List, [], ◌∷◌, ◌++◌, Bool, true, false, none, some, ◌||◌,
  if◌then◌else◌, bytes_eq,
}
use batman_adv_userspace.TransTable.{hna_add, transtable_search, is_multicast_address, bcast_addr}
use batman_adv_userspace.Schedule.{WriteResult, send_packet}
use batman_adv_userspace.Handler.{compat_version, ttl_start}
use batman_adv_userspace.Frames.Layout.{bat_unicast, bat_bcast, mac_at, htons_bytes}
use batman_adv_userspace.Frames.Receive.{route_to}
use batman_adv_userspace.Mesh.{Mac, BatmanIf, Event, M, ◌>>=◌, ◌>>◌, return, gets, lift, modify}

unfoldable pub is_broadcast_address : Mac → Bool
is_broadcast_address dst_addr = bytes_eq dst_addr bcast_addr

-- `bcast_seqno++` of the first interface, on a uint16_t.
unfoldable pub bump_bcast_seqno : List BatmanIf → List BatmanIf
bump_bcast_seqno [] = []
bump_bcast_seqno (i ∷ r) = (record i { bcast_seqno = (i.bcast_seqno + 1) % 2 ^ 16 }) ∷ r

module _ (write : ℕ → ℕ → WriteResult) where
  -- True is the 0 of the code, false its -1.
  unfoldable pub broadcast_all : List ℕ → List BatmanIf → M Bool
  unfolding send_packet
  broadcast_all bytes [] = return true
  broadcast_all bytes (i ∷ ifs) = do
    ok ← send_packet (write i.if_num) (Event.frame i.if_num bcast_addr i.hw_addr bytes)
    if ok then broadcast_all bytes ifs else return false

  unfoldable pub tap_broadcast : BatmanIf → List ℕ → M Bool
  unfolding bump_bcast_seqno broadcast_all htons_bytes
  tap_broadcast i payload = do
    modify (λ h. record h { if_list = bump_bcast_seqno h.if_list })
    h ← gets (λ h. h)
    broadcast_all
        (bat_bcast ∷ compat_version ∷ (i.hw_addr ++ (htons_bytes i.bcast_seqno ++ payload)))
        h.if_list

  unfoldable pub tap_unicast : Mac → List ℕ → M Bool
  unfolding route_to send_packet
  tap_unicast dhost payload = do
    r ← route_to dhost
    elim r [
      | none ↦ return true
      | some (i, n) ↦ send_packet (write i.if_num) (
          Event.frame i.if_num n.addr i.hw_addr
            (bat_unicast ∷ compat_version ∷ (dhost ++ ttl_start ∷ payload)))
    ]

  -- The body of the loop; the payload begins with its Ethernet header. The first interface is read
  -- through the list.
  unfoldable pub receive_tap_frame : List ℕ → M Bool
  unfolding hna_add transtable_search mac_at is_broadcast_address is_multicast_address tap_broadcast
      tap_unicast
  receive_tap_frame payload = do
    h ← gets (λ h. h)
    elim h.if_list [
      | [] ↦ lift none
      | i ∷ _ ↦ (do
        hna_add (mac_at 6 payload) i.hw_addr
        found ← transtable_search (mac_at 0 payload)
        let dhost : Mac = elim found [ none ↦ bcast_addr | some a ↦ a ]
        if is_broadcast_address dhost || is_multicast_address dhost
            then tap_broadcast i payload
            else tap_unicast dhost payload)
    ]

  -- At most PACKETS_PER_CYCLE frames.
  unfoldable pub receive_packet_tap : ℕ → List (List ℕ) → M Bool
  unfolding receive_tap_frame
  receive_packet_tap zero frames = return true
  receive_packet_tap (suc rounds) [] = return true
  receive_packet_tap (suc rounds) (payload ∷ frames) = do
    ok ← receive_tap_frame payload
    if ok then receive_packet_tap rounds frames else return false
