-- ===== src/Mesh/Types.antt =====
-- The structures of packet.h and batman-adv.h. A pointer is a number; an interface is named by its
-- `if_num`, which `apply_init_args` gives out once each. `bcast_own` is cut into the slices of
-- NUM_WORDS words that the code always takes.
use batman_adv_userspace.Base.{ℕ, List, Bool, Option}
use batman_adv_userspace.BitArray.{Words}

-- `uint8_t addr[6]`
abbrev pub Mac : Type 0
Mac = List ℕ

-- `struct batman_packet`, without its padding.
pub record BatmanPacket : Type 0 where
  pub packet_type : ℕ
  pub version : ℕ
  pub flags : ℕ
  pub ttl : ℕ
  pub gwflags : ℕ
  pub tq : ℕ
  pub seqno : ℕ
  pub orig : Mac
  pub old_orig : Mac
  pub num_hna : ℕ

pub record NeighNode : Type 0 where
  pub ptr : ℕ
  pub addr : Mac
  pub real_packet_count : ℕ
  pub tq_recv : List ℕ
  pub tq_index : ℕ
  pub tq_avg : ℕ
  pub last_ttl : ℕ
  pub last_valid : ℕ
  pub real_bits : Words
  pub orig_node : ℕ
  pub if_incoming : ℕ

-- `uint8_t *hna_buff`: NULL, an allocated buffer, or one that was freed and not set to NULL.
pub data HnaBuff : Type 0 where
  null : HnaBuff
  live : List ℕ → HnaBuff
  freed : HnaBuff

pub record OrigNode : Type 0 where
  pub orig : Mac
  pub router : Option ℕ
  pub batman_if : Option ℕ
  pub last_valid : ℕ
  pub last_bcast_seqno : ℕ
  pub hna_buff : HnaBuff
  pub hna_list : List ℕ
  pub hna_buff_len : ℕ
  pub neigh_list : List NeighNode
  pub gwflags : ℕ
  pub bcast_own : List Words
  pub bcast_own_sum : List ℕ
  pub tq_own : ℕ
  pub tq_asym_penalty : ℕ
  pub last_real_seqno : ℕ
  pub last_ttl : ℕ
  pub seq_bits : Words

-- The buffer of a queued packet: its header, and the announced addresses that follow it.
pub record ForwNode : Type 0 where
  pub send_time : ℕ
  pub own : Bool
  pub pack : BatmanPacket
  pub pack_hna : List ℕ
  pub pack_buff_len : ℕ
  pub if_outgoing : Option ℕ

-- `deleted` is a time, and 0 for a gateway that is not deleted.
pub record GwNode : Type 0 where
  pub orig_node : ℕ
  pub last_failure : ℕ
  pub deleted : ℕ

pub record BatmanIf : Type 0 where
  pub if_num : ℕ
  pub hw_addr : Mac
  pub bcast_seqno : ℕ
  pub out : BatmanPacket

-- `struct trans_element_t`, without its list link: the lists name their elements.
pub record TransElement : Type 0 where
  pub mac : Mac
  pub batman_mac : Mac
  pub age : ℕ

-- What a `void *` of a table points to: the address of a structure, and the six bytes that it begins
-- with, which never change.
pub record Ref : Type 0 where
  pub ptr : ℕ
  pub key : Mac

-- What leaves the program: a queued packet on an interface, a frame on an interface, a frame to the
-- tap device, a message to the client of a `uid`, and a datagram to the visualisation server.
pub data Event : Type 0 where
  ogm : (if_num : ℕ) (pack : BatmanPacket) (pack_hna : List ℕ) (len : ℕ) → Event
  frame : (if_num : ℕ) (ether_dhost : Mac) (ether_shost : Mac) (bytes : List ℕ) → Event
  tap : (bytes : List ℕ) → Event
  client : (uid : ℕ) (bytes : List ℕ) → Event
  vis : (bytes : List ℕ) → Event
