-- ===== src/Frames/Layout.antt =====
-- packet.h: the packed structures as bytes, with their fields at fixed offsets.
use batman_adv_userspace.Base.{ℕ, ◌+◌, ◌*◌, ◌/◌, ◌%◌, ◌^◌, List, [], ◌∷◌, ◌++◌, get_or, take, drop}
use batman_adv_userspace.Mesh.{Mac, BatmanPacket}

-- BAT_PACKET, BAT_ICMP, BAT_UNICAST, BAT_BCAST, ECHO_REPLY, DESTINATION_UNREACHABLE, ECHO_REQUEST,
-- TTL_EXCEEDED
abbrev pub bat_ogm : ℕ
bat_ogm = 1

abbrev pub bat_icmp : ℕ
bat_icmp = 2

abbrev pub bat_unicast : ℕ
bat_unicast = 3

abbrev pub bat_bcast : ℕ
bat_bcast = 4

abbrev pub echo_reply : ℕ
echo_reply = 0

abbrev pub destination_unreachable : ℕ
destination_unreachable = 3

abbrev pub echo_request : ℕ
echo_request = 8

abbrev pub ttl_exceeded : ℕ
ttl_exceeded = 11

-- The sizes of the structures.
abbrev pub icmp_packet_size : ℕ
icmp_packet_size = 19

abbrev pub unicast_packet_size : ℕ
unicast_packet_size = 9

abbrev pub bcast_packet_size : ℕ
bcast_packet_size = 10

-- A byte, an address, and a uint16_t in network order, at an offset.
unfoldable pub byte_at : ℕ → List ℕ → ℕ
byte_at offset bytes = get_or bytes offset 0

unfoldable pub mac_at : ℕ → List ℕ → Mac
mac_at offset bytes = take 6 (drop offset bytes)

unfoldable pub put_mac : ℕ → Mac → List ℕ → List ℕ
put_mac offset mac bytes = take offset bytes ++ mac ++ drop (offset + 6) bytes

unfoldable pub ntohs_at : ℕ → List ℕ → ℕ
unfolding byte_at
ntohs_at offset bytes = byte_at offset bytes * 2 ^ 8 + byte_at (offset + 1) bytes

unfoldable pub htons_bytes : ℕ → List ℕ
htons_bytes n = n / 2 ^ 8 % 2 ^ 8 ∷ n % 2 ^ 8 ∷ []

-- `struct batman_packet` as it is read; the last byte is the padding.
unfoldable pub read_packet : List ℕ → BatmanPacket
unfolding byte_at mac_at ntohs_at
read_packet bytes = record {
  packet_type = byte_at 0 bytes;
  version = byte_at 1 bytes;
  flags = byte_at 2 bytes;
  ttl = byte_at 3 bytes;
  gwflags = byte_at 4 bytes;
  tq = byte_at 5 bytes;
  seqno = ntohs_at 6 bytes;
  orig = mac_at 8 bytes;
  old_orig = mac_at 14 bytes;
  num_hna = byte_at 20 bytes;
}
