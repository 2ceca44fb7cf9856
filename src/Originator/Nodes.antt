-- ===== src/Originator/Nodes.antt =====
-- originator.c, `create_neighbor`, `find_orig_node` and `get_orig_node`. `malloc` is taken to succeed;
-- the structures are given out at addresses that were never used.
use batman_adv_userspace.Base.{
  ℕ, ◌+◌, ◌*◌, [], ◌∷◌, ◌++◌, true, Option, none, some, ltb, replicate, length,
}
use batman_adv_userspace.BitArray.{bit_init}
use batman_adv_userspace.RingBuffer.{tq_global_window_size}
use batman_adv_userspace.Hash.{hash_find, hash_add, hash_resize}
use batman_adv_userspace.Address.{mac_callbacks}
use batman_adv_userspace.Mesh.{
  Mac, OrigNode, NeighNode, HnaBuff, M, ◌>>=◌, ◌>>◌, return, gets, lift, modify, when, orig_at,
  store_orig,
}

unfoldable pub find_orig_node : Mac → M (Option ℕ)
unfolding hash_find
find_orig_node addr h =
    elim (hash_find mac_callbacks h.orig_hash (record { ptr = 0; key = addr })) [
      | none ↦ none
      | some none ↦ some (none, h)
      | some (some r) ↦ some (some r.ptr, h)
    ]

module _ (word_bit_size : ℕ) where
  -- The structure after `memset` to 0 and the assignments that follow.
  abbrev pub new_neigh : ℕ → ℕ → Mac → ℕ → NeighNode
  new_neigh ptr orig_neigh_node neigh if_incoming = record {
    ptr = ptr;
    addr = neigh;
    real_packet_count = 0;
    tq_recv = replicate tq_global_window_size 0;
    tq_index = 0;
    tq_avg = 0;
    last_ttl = 0;
    last_valid = 0;
    real_bits = bit_init word_bit_size;
    orig_node = orig_neigh_node;
    if_incoming = if_incoming;
  }

  unfoldable pub create_neighbor : ℕ → ℕ → Mac → ℕ → M NeighNode
  unfolding bit_init orig_at store_orig
  create_neighbor orig_ptr orig_neigh_node neigh if_incoming = do
    h ← gets (λ h. h)
    o ← orig_at orig_ptr
    modify (λ h. record h { next = h.next + 1 })
    store_orig orig_ptr (record o {
      neigh_list = o.neigh_list ++ new_neigh h.next orig_neigh_node neigh if_incoming ∷ [];
    })
    return (new_neigh h.next orig_neigh_node neigh if_incoming)

  -- `found_ifs` is the number of interfaces.
  abbrev pub new_orig : Mac → ℕ → OrigNode
  new_orig addr found_ifs = record {
    orig = addr;
    router = none;
    batman_if = none;
    last_valid = 0;
    last_bcast_seqno = 0;
    hna_buff = HnaBuff.null;
    hna_list = [];
    hna_buff_len = 0;
    neigh_list = [];
    gwflags = 0;
    bcast_own = replicate found_ifs (bit_init word_bit_size);
    bcast_own_sum = replicate found_ifs 0;
    tq_own = 0;
    tq_asym_penalty = 0;
    last_real_seqno = 0;
    last_ttl = 0;
    seq_bits = bit_init word_bit_size;
  }

  -- The table is doubled when it is more than a quarter full.
  unfoldable pub grow_orig_hash : M (Unit {0})
  unfolding hash_resize
  grow_orig_hash = do
    h ← gets (λ h. h)
    when (ltb h.orig_hash.size (h.orig_hash.elements * 4)) (do
      swaphash ← lift (hash_resize mac_callbacks true true h.orig_hash (h.orig_hash.size * 2))
      table ← lift swaphash
      modify (λ h. record h { orig_hash = table }))

  unfoldable pub get_orig_node : Mac → M ℕ
  unfolding find_orig_node hash_add grow_orig_hash bit_init
  get_orig_node addr = do
    found ← find_orig_node addr
    elim found [
      | some p ↦ return p
      | none ↦ (do
        h ← gets (λ h. h)
        (_, table) ←
            lift (hash_add mac_callbacks true h.orig_hash (record { ptr = h.next; key = addr }))
        modify (λ h. record h {
          origs = (h.next, new_orig addr (length h.if_list)) ∷ h.origs;
          orig_hash = table;
          next = h.next + 1;
        })
        grow_orig_hash
        return h.next)
    ]
