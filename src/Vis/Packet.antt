-- ===== src/Vis/Packet.antt =====
-- batman-adv.c: `generate_vis_packet` as a whole.
use batman_adv_userspace.Base.{
  ℕ, zero, suc, ◌+◌, ◌*◌, ◌^◌, ◌≤◌, ◌<◌, ◌==◌, ◌≡◌, refl, sym, ap, ◌∙◌, List, [], ◌∷◌, ◌++◌, Option,
  none, some, Bool, true, false, arith, if◌then◌else◌, ltb, length, length-append,
}
use mathlib.Core.List.{append_assoc, append-nil}
use batman_adv_userspace.Hash.{entries}
use batman_adv_userspace.Mesh.{Mac, BatmanIf, Mesh, ◌>>=◌}
use batman_adv_userspace.Vis.Defs.{
  VisData, fill_header, first_if, fresh, grow, secondary, put_hosts, generate_vis_packet,
}
use batman_adv_userspace.Vis.Write.{write_at_lem, grow_lem, length-fresh}
use batman_adv_userspace.Vis.Layout.{
  one_hop, same_address, hosts_of, header_of, bytes_of, AreReadable, AreSized, AreSized-append,
  one_hop-AreSized, same_address-AreSized, length-hosts_of,
}
use batman_adv_userspace.Vis.Loops.{
  holding, length-holding, neighbours_lem, secondary_lem, put_hosts_lem, with_room,
}

-- The entries of a packet: the neighbours one hop away, where there are two interfaces or more those that
-- have the address of the first one, and the announced hosts.
unfoldable pub entries_of : Mac → Mesh → List VisData
entries_of sender_mac h =
    one_hop h (entries h.orig_hash.table)
    ++ ((if ltb 1 (length h.if_list) then same_address sender_mac h.if_list else [])
        ++ hosts_of h.num_hna 0 h.hna_buff)

-- The packet with some entries; none where there is no entry.
unfoldable pub packet_of : (ℕ → ℕ) → ℕ → Mac → List VisData → Option (List ℕ)
packet_of unset gateway_class sender_mac [] = none
packet_of unset gateway_class sender_mac (d ∷ ds) =
    some (header_of unset gateway_class sender_mac ++ bytes_of (d ∷ ds))

module _ (unset : ℕ → ℕ) (gateway_class : ℕ) (sender_mac : Mac) (six : length sender_mac ≡ 6) where
  -- The header, written into the bytes that malloc left.
  fill_header_lem :
      fill_header gateway_class sender_mac record { bytes = fresh unset 0 11; size = 11 }
      ≡ some (holding unset gateway_class sender_mac six [])
  unfolding fill_header fresh header_of bytes_of
  fill_header_lem =
      let u = unset in
      let mac_at =
        write_at_lem 5 (u 0 ∷ u 1 ∷ u 2 ∷ u 3 ∷ u 4 ∷ []) (fresh unset 5 6) sender_mac []
          (fresh unset 0 11) refl (sym six) refl in
      let version_at =
        write_at_lem 4 (u 0 ∷ u 1 ∷ u 2 ∷ u 3 ∷ []) (u 4 ∷ []) (148 ∷ []) (sender_mac ++ [])
          (u 0 ∷ u 1 ∷ u 2 ∷ u 3 ∷ u 4 ∷ (sender_mac ++ [])) refl refl refl in
      let class_at =
        write_at_lem 0 [] (u 0 ∷ []) (gateway_class ∷ [])
          (u 1 ∷ u 2 ∷ u 3 ∷ 148 ∷ (sender_mac ++ []))
          (u 0 ∷ u 1 ∷ u 2 ∷ u 3 ∷ 148 ∷ (sender_mac ++ [])) refl refl refl in
      let range_at =
        write_at_lem 1 (gateway_class ∷ []) (u 1 ∷ []) (255 ∷ [])
          (u 2 ∷ u 3 ∷ 148 ∷ (sender_mac ++ []))
          (gateway_class ∷ u 1 ∷ u 2 ∷ u 3 ∷ 148 ∷ (sender_mac ++ [])) refl refl refl in
      rw (fill_header, mac_at, version_at, class_at, range_at) refl

  -- The announced hosts, behind the other entries.
  hosts_lem :
      (n : ℕ) (hna_buff : List ℕ) (ds : List VisData)
      → AreSized ds
      → 6 * n ≤ length hna_buff
      → 11 + 8 * (length ds + n) < 2 ^ 16
      → (if ltb 0 n
          then put_hosts n 0 hna_buff
              (grow unset (8 * n) (holding unset gateway_class sender_mac six ds))
          else some (holding unset gateway_class sender_mac six ds))
        ≡ some (holding unset gateway_class sender_mac six (ds ++ hosts_of n 0 hna_buff))
  unfolding hosts_of
  hosts_lem zero hna_buff ds s le few =
      ap (λ (t : List VisData). some (holding unset gateway_class sender_mac six t))
        (sym (append-nil ds))
  hosts_lem (suc n) hna_buff ds s le few =
      let p = holding unset gateway_class sender_mac six ds in
      let some_there : ltb 0 (suc n) ≡ true = ground arith in
      let room = fresh unset (length p.bytes) (8 * suc n) in
      let grown : grow unset (8 * suc n) p
          ≡ with_room unset gateway_class sender_mac six ds (suc n) room =
        grow_lem unset (8 * suc n) p (sym (length-holding unset gateway_class sender_mac six ds s))
          (omega (arith, few)) in
      rw (some_there, grown)
        (put_hosts_lem unset gateway_class sender_mac six (suc n) 0 hna_buff ds room
          (length-fresh unset (length p.bytes) (8 * suc n)) (omega (arith, le)) s)

  -- The interfaces, where there are two or more.
  several_lem :
      (several : Bool) (ifs : List BatmanIf) (ds : List VisData)
      → AreSized ds
      → 11 + 8 * (length ds + length (if several then same_address sender_mac ifs else [])) < 2 ^ 16
      → (if several
          then secondary unset ifs (holding unset gateway_class sender_mac six ds)
          else some (holding unset gateway_class sender_mac six ds))
        ≡ some (
            holding unset gateway_class sender_mac six
              (ds ++ (if several then same_address sender_mac ifs else [])))
  several_lem true ifs ds s few = secondary_lem unset gateway_class sender_mac six ifs ds s few
  several_lem false ifs ds s few =
      ap (λ (t : List VisData). some (holding unset gateway_class sender_mac six t))
        (sym (append-nil ds))

  several-AreSized :
      (several : Bool) (ifs : List BatmanIf)
      → AreSized (if several then same_address sender_mac ifs else [])
  unfolding AreSized
  several-AreSized true ifs = same_address-AreSized sender_mac ifs six
  several-AreSized false ifs = tt

  -- No packet where no entry follows the header.
  ending :
      (ds : List VisData)
      → (if (11 + 8 * length ds) == 11
          then none
          else some (header_of unset gateway_class sender_mac ++ bytes_of ds))
        ≡ packet_of unset gateway_class sender_mac ds
  unfolding packet_of
  ending [] = refl
  ending (d ∷ ds) =
      let more : ((11 + 8 * length (d ∷ ds)) == 11) ≡ false = ground arith in rw more refl

-- generate_vis_packet does not fault, changes no state of the model, and makes just the packet that
-- vis-types.h describes: the header with the class of the gateway, the range 255, the version 148, and the
-- address of the first interface; an entry for each originator of the table that is its own router and has
-- a link quality above 0; with two interfaces or more, one for each that has the address of the first;
-- and one for each announced host. There is no packet where there is no entry. The originators have
-- addresses of six bytes and routers that are there, the buffer of the hosts is long enough, and the size
-- fits in its uint16_t.
pub generate_vis_packet_lem :
    (unset : ℕ → ℕ) (gateway_class : ℕ) (i : BatmanIf) (ifs : List BatmanIf) (h : Mesh)
    → h.if_list ≡ i ∷ ifs
    → length i.hw_addr ≡ 6
    → AreReadable h (entries h.orig_hash.table)
    → 6 * h.num_hna ≤ length h.hna_buff
    → 11 + 8 * length (entries_of i.hw_addr h) < 2 ^ 16
    → generate_vis_packet unset gateway_class h
      ≡ some (packet_of unset gateway_class i.hw_addr (entries_of i.hw_addr h), h)
unfolding generate_vis_packet entries_of AreSized
generate_vis_packet_lem unset gateway_class i ifs h listed six R le few =
    let mac = i.hw_addr in
    let start : first_if h.if_list ≡ some i = rw (first_if, listed) refl in
    let several : Bool = ltb 1 (length h.if_list) in
    let near : List VisData = one_hop h (entries h.orig_hash.table) in
    let own : List VisData = if several then same_address mac h.if_list else [] in
    let hosts : List VisData = hosts_of h.num_hna 0 h.hna_buff in
    let all = length-append near (own ++ hosts) in
    let both = length-append own hosts in
    let count = length-hosts_of h.num_hna 0 h.hna_buff in
    let near_sized = one_hop-AreSized h (entries h.orig_hash.table) R in
    let own_sized = several-AreSized unset gateway_class mac six several h.if_list in
    let header = fill_header_lem unset gateway_class mac six in
    let first =
      neighbours_lem unset gateway_class mac six h (entries h.orig_hash.table) [] R tt
        (omega (arith, few, all, both)) in
    let second =
      several_lem unset gateway_class mac six several h.if_list near near_sized
        (omega (arith, few, all, both)) in
    let third =
      hosts_lem unset gateway_class mac six h.num_hna h.hna_buff (near ++ own)
        (AreSized-append near own near_sized own_sized) le
        (omega (arith, few, all, both, count, length-append near own)) in
    rw (generate_vis_packet, ◌>>=◌, start, header, first, second, third)
      (ap (λ (o : Option (List ℕ)). some (o, h))
          (ending unset gateway_class mac six ((near ++ own) ++ hosts))
        ∙ ap (λ (t : List VisData). some (packet_of unset gateway_class mac t, h))
            (append_assoc near own hosts))
