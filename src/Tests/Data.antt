-- ===== src/Tests/Data.antt =====
-- Small values of the structures.
use batman_adv_userspace.Base.{ℕ, List, [], ◌∷◌, none, replicate, false}
use batman_adv_userspace.Hash.{HashTable}
use batman_adv_userspace.Mesh.{Mac, BatmanPacket, NeighNode, OrigNode, HnaBuff, ForwNode, Ref, Mesh}

abbrev pub mac_a : Mac
mac_a = 2 ∷ 0 ∷ 0 ∷ 0 ∷ 0 ∷ 1 ∷ []

abbrev pub mac_b : Mac
mac_b = 2 ∷ 0 ∷ 0 ∷ 0 ∷ 0 ∷ 2 ∷ []

abbrev pub ogm_a : BatmanPacket
ogm_a = record {
  packet_type = 1;
  version = 6;
  flags = 0;
  ttl = 50;
  gwflags = 0;
  tq = 200;
  seqno = 1000;
  orig = mac_a;
  old_orig = mac_b;
  num_hna = 0;
}

abbrev pub neigh : ℕ → ℕ → ℕ → NeighNode
neigh ptr last_valid tq_avg = record {
  ptr = ptr;
  addr = mac_b;
  real_packet_count = 3;
  tq_recv = replicate 10 tq_avg;
  tq_index = 0;
  tq_avg = tq_avg;
  last_ttl = 49;
  last_valid = last_valid;
  real_bits = replicate 2 0;
  orig_node = 1;
  if_incoming = 0;
}

abbrev pub hosts : List ℕ
hosts = 10 ∷ 0 ∷ 0 ∷ 0 ∷ 0 ∷ 7 ∷ []

abbrev pub other_hosts : List ℕ
other_hosts = 10 ∷ 0 ∷ 0 ∷ 0 ∷ 0 ∷ 8 ∷ []

abbrev pub orig_a : OrigNode
orig_a = record {
  orig = mac_a;
  router = none;
  batman_if = none;
  last_valid = 100;
  last_bcast_seqno = 0;
  hna_buff = HnaBuff.live hosts;
  hna_list = [];
  hna_buff_len = 6;
  neigh_list = [];
  gwflags = 0;
  bcast_own = [];
  bcast_own_sum = [];
  tq_own = 0;
  tq_asym_penalty = 0;
  last_real_seqno = 999;
  last_ttl = 50;
  seq_bits = replicate 2 0;
}

abbrev pub table4 : HashTable Ref
table4 = record { table = [] ∷ [] ∷ [] ∷ [] ∷ []; elements = 0; size = 4 }

abbrev pub mesh : Mesh
mesh = record {
  origs = (1, orig_a) ∷ [];
  orig_hash = table4;
  next = 2;
  gw_list = [];
  forw_list = [];
  if_list = [];
  elems = [];
  trans_hash = table4;
  hna_list = [];
  hna_changed = false;
  num_hna = 0;
  hna_buff = [];
  curr_time = 0;
  events = [];
}

abbrev pub queued : ℕ → ForwNode
queued send_time = record {
  send_time = send_time;
  own = false;
  pack = ogm_a;
  pack_hna = [];
  pack_buff_len = 22;
  if_outgoing = none;
}
