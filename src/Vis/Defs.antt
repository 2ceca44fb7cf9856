-- ===== src/Vis/Defs.antt =====
-- batman-adv.c, `generate_vis_packet` and `send_vis_packet`. The packet that an earlier call left is
-- freed and not read, so it is not in the model; `unset` are the bytes that malloc left at each offset,
-- and `gateway_class` the option of that name. `found_ifs` is the length of the list of interfaces. The
-- walk of `hash_iterate` is the list of the entries of the table.
use batman_adv_userspace.Base.{
  ℕ, zero, suc, ◌+◌, ◌-◌, ◌*◌, ◌%◌, ◌^◌, ◌==◌, true, false, List, [], ◌∷◌, ◌++◌, Option, none, some,
  ◌&&◌, if◌then◌else◌, ltb, leb, length, take, drop,
}
use batman_adv_userspace.Hash.{entries}
use batman_adv_userspace.Address.{compare_orig}
use batman_adv_userspace.Schedule.{router_of, tq_max_value}
use batman_adv_userspace.Mesh.{
  Mac, OrigNode, NeighNode, BatmanIf, Ref, Event, M, ◌>>=◌, return, gets, lift, orig_at, emit,
}

-- DATA_TYPE_NEIGH, DATA_TYPE_SEC_IF, DATA_TYPE_HNA, VIS_COMPAT_VERSION
abbrev pub data_type_neigh : ℕ
data_type_neigh = 1

abbrev pub data_type_sec_if : ℕ
data_type_sec_if = 2

abbrev pub data_type_hna : ℕ
data_type_hna = 3

abbrev pub vis_compat_version : ℕ
vis_compat_version = 148

-- `struct vis_data`; `value` is its field `data`.
pub record VisData : Type 0 where
  pub type : ℕ
  pub value : ℕ
  pub mac : Mac

-- The packet so far: the memory at `vis_packet`, and `vis_packet_size`, a uint16_t.
pub record VisPacket : Type 0 where
  pub bytes : List ℕ
  pub size : ℕ

-- A write into the memory; one that leaves it is a fault.
unfoldable pub write_at : ℕ → List ℕ → List ℕ → Option (List ℕ)
write_at offset new bytes =
    if leb (offset + length new) (length bytes)
    then some (take offset bytes ++ (new ++ drop (offset + length new) bytes))
    else none

-- The fields of the entry that starts `back` bytes before the end of the packet.
unfoldable pub put_data : ℕ → VisData → VisPacket → Option VisPacket
unfolding write_at
put_data back d p = elim (ltb p.size back) [
  | true ↦ none
  | false ↦ elim (write_at (p.size - back + 2) d.mac p.bytes) [
    | none ↦ none
    | some with_mac ↦ elim (write_at (p.size - back + 1) (d.value ∷ []) with_mac) [
      | none ↦ none
      | some with_data ↦ elim (write_at (p.size - back) (d.type ∷ []) with_data) [
        | none ↦ none
        | some full ↦ some (record p { bytes = full })
      ]
    ]
  ]
]

unfoldable pub sender_mac_of : VisPacket → Mac
sender_mac_of p = take 6 (drop 5 p.bytes)

-- The header, byte by byte: the two bytes of padding stay as they are.
unfoldable pub fill_header : ℕ → Mac → VisPacket → Option VisPacket
unfolding write_at
fill_header gateway_class sender_mac p = elim (write_at 5 sender_mac p.bytes) [
  | none ↦ none
  | some with_mac ↦ elim (write_at 4 (vis_compat_version ∷ []) with_mac) [
    | none ↦ none
    | some with_version ↦ elim (write_at 0 (gateway_class ∷ []) with_version) [
      | none ↦ none
      | some with_class ↦ elim (write_at 1 (tq_max_value ∷ []) with_class) [
        | none ↦ none
        | some full ↦ some (record p { bytes = full })
      ]
    ]
  ]
]

-- `if_list.next` as an interface; reading it as one where the list is empty is a fault.
unfoldable pub first_if : List BatmanIf → Option BatmanIf
first_if [] = none
first_if (i ∷ ifs) = some i

-- The loop over the announced addresses from `i` on; a read behind the buffer is a fault.
unfoldable pub put_hosts : ℕ → ℕ → List ℕ → VisPacket → Option VisPacket
unfolding put_data
put_hosts zero i hna_buff p = some p
put_hosts (suc n) i hna_buff p = elim (leb (6 * i + 6) (length hna_buff)) [
  | false ↦ none
  | true ↦
      elim (put_data (suc n * 8)
        record { type = data_type_hna; value = 0; mac = take 6 (drop (6 * i) hna_buff) } p) [
          | none ↦ none
          | some p' ↦ put_hosts n (suc i) hna_buff p'
        ]
]

module _ (unset : ℕ → ℕ) where
  -- `n` bytes as malloc left them, from an offset on.
  unfoldable pub fresh : ℕ → ℕ → List ℕ
  fresh offset zero = []
  fresh offset (suc n) = unset offset ∷ fresh (suc offset) n

  -- `vis_packet_size += n` and `debugRealloc` to that size.
  unfoldable pub grow : ℕ → VisPacket → VisPacket
  unfolding fresh
  grow n p =
      let size = (p.size + n) % 2 ^ 16 in
      record {
        bytes = take size p.bytes ++ fresh (length p.bytes) (size - length p.bytes);
        size = size;
      }

  -- Only neighbours one hop away, with a link quality above 0, get an entry.
  unfoldable pub add_neighbour : OrigNode → Option NeighNode → VisPacket → Option VisPacket
  unfolding compare_orig grow put_data
  add_neighbour o none p = some p
  add_neighbour o (some router) p =
      if compare_orig o.orig router.addr == 0 && ltb 0 router.tq_avg
      then put_data 8 record { type = data_type_neigh; value = router.tq_avg; mac = o.orig }
          (grow 8 p)
      else some p

  unfoldable pub neighbours : List Ref → VisPacket → M VisPacket
  unfolding orig_at router_of add_neighbour
  neighbours [] p = return p
  neighbours (r ∷ rs) p = do
    o ← orig_at r.ptr
    router ← lift (router_of o)
    p' ← lift (add_neighbour o router p)
    neighbours rs p'

  -- The loop over the interfaces, with its `continue` on a difference from `sender_mac`.
  unfoldable pub secondary : List BatmanIf → VisPacket → Option VisPacket
  unfolding compare_orig sender_mac_of grow put_data
  secondary [] p = some p
  secondary (i ∷ ifs) p = elim (compare_orig (sender_mac_of p) i.hw_addr == 0) [
    | false ↦ secondary ifs p
    | true ↦
        elim (put_data 8 record { type = data_type_sec_if; value = 0; mac = i.hw_addr }
          (grow 8 p)) [ none ↦ none | some p' ↦ secondary ifs p' ]
  ]

  unfoldable pub generate_vis_packet : ℕ → M (Option (List ℕ))
  unfolding first_if fill_header fresh neighbours secondary put_hosts grow entries
  generate_vis_packet gateway_class = do
    h ← gets (λ h. h)
    i ← lift (first_if h.if_list)
    p0 ← lift (fill_header gateway_class i.hw_addr record { bytes = fresh 0 11; size = 11 })
    p1 ← neighbours (entries h.orig_hash.table) p0
    p2 ← lift (if ltb 1 (length h.if_list) then secondary h.if_list p1 else some p1)
    p3 ← lift (
        if ltb 0 h.num_hna
        then put_hosts h.num_hna 0 h.hna_buff (grow (8 * h.num_hna) p2)
        else some p2)
    return (if p3.size == 11 then none else some p3.bytes)

  unfoldable pub send_vis_packet : ℕ → M (Unit {0})
  unfolding generate_vis_packet emit
  send_vis_packet gateway_class = do
    vis_packet ← generate_vis_packet gateway_class
    elim vis_packet [ none ↦ return tt | some bytes ↦ emit (Event.vis bytes) ]
