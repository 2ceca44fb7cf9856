-- ===== src/Vis/Loops.antt =====
-- batman-adv.c, `generate_vis_packet`: its three loops over a packet that holds some entries.
use batman_adv_userspace.Base.{
  ℕ, zero, suc, ◌+◌, ◌*◌, ◌^◌, ◌≤◌, ◌<◌, ◌≡◌, refl, sym, ap, ap₂, ◌∙◌, List, [], ◌∷◌, ◌++◌, Option,
  none, some, true, inl, inr, arith, Bool-cases, ltb, leb, length, take, drop, length-append,
  length-take, length-drop, take-append-drop, bytes_eq, bytes_eq→eq,
}
use mathlib.Core.List.{append_assoc, append-nil}
use batman_adv_userspace.Address.{compare_orig}
use batman_adv_userspace.Schedule.{router_of}
use batman_adv_userspace.Mesh.{Mac, OrigNode, NeighNode, BatmanIf, Ref, Mesh, orig_at, ◌>>=◌}
use batman_adv_userspace.Vis.Defs.{
  VisData, VisPacket, put_data, grow, add_neighbour, neighbours, secondary, put_hosts,
  sender_mac_of,
}
use batman_adv_userspace.Vis.Write.{data_of, put_data_lem, append_data, take_front}
use batman_adv_userspace.Vis.Layout.{
  neigh_entry, router_in, one_hop, same_address, hosts_of, header_of, bytes_of, AreReadable,
  AreSized, AreSized-append, bytes_of-append, length-bytes_of, neigh_entry-AreSized,
}

module _ (unset : ℕ → ℕ) (gateway_class : ℕ) (sender_mac : Mac) (six : length sender_mac ≡ 6) where
  -- The packet with these entries.
  abbrev pub holding : List VisData → VisPacket
  holding ds = record {
    bytes = header_of unset gateway_class sender_mac ++ bytes_of ds;
    size = 11 + 8 * length ds;
  }

  pub length-holding :
      (ds : List VisData)
      → AreSized ds
      → length (header_of unset gateway_class sender_mac ++ bytes_of ds) ≡ 11 + 8 * length ds
  unfolding header_of
  length-holding ds s =
      omega (arith, length-append sender_mac (bytes_of ds), six, length-bytes_of ds s)

  more_entries :
      (ds : List VisData) (d : VisData) → bytes_of (ds ++ d ∷ []) ≡ bytes_of ds ++ data_of d
  unfolding bytes_of
  more_entries ds d =
      bytes_of-append ds (d ∷ [])
      ∙ ap (λ r. bytes_of ds ++ (d.type ∷ d.value ∷ r)) (append-nil d.mac)

  -- One entry more.
  add_one :
      (ds : List VisData) (d : VisData)
      → AreSized ds
      → length d.mac ≡ 6
      → 11 + 8 * length ds + 8 < 2 ^ 16
      → put_data 8 d (grow unset 8 (holding ds)) ≡ some (holding (ds ++ d ∷ []))
  add_one ds d s long few =
      append_data unset d (holding ds) (sym (length-holding ds s)) few long
      ∙ ap₂ (λ (b : List ℕ) (n : ℕ). some (record { bytes = b; size = n }))
          (append_assoc (header_of unset gateway_class sender_mac) (bytes_of ds) (data_of d)
            ∙ ap (λ r. header_of unset gateway_class sender_mac ++ r) (sym (more_entries ds d)))
          (omega (arith, length-append ds (d ∷ [])))

  add_neighbour_lem :
      (ds : List VisData) (o : OrigNode) (n : Option NeighNode)
      → AreSized ds
      → length o.orig ≡ 6
      → 11 + 8 * (length ds + length (neigh_entry o n)) < 2 ^ 16
      → add_neighbour unset o n (holding ds) ≡ some (holding (ds ++ neigh_entry o n))
  unfolding add_neighbour neigh_entry compare_orig
  add_neighbour_lem ds o none s long few =
      ap (λ (t : List VisData). some (holding t)) (sym (append-nil ds))
  add_neighbour_lem ds o (some n) s long few = elim (Bool-cases (bytes_eq o.orig n.addr)) [
    | inr a ↦ rw a (ap (λ (t : List VisData). some (holding t)) (sym (append-nil ds)))
    | inl a ↦ elim (Bool-cases (ltb 0 n.tq_avg)) [
      | inr b ↦ rw (a, b) (ap (λ (t : List VisData). some (holding t)) (sym (append-nil ds)))
      | inl b ↦
          let few' : 11 + 8 * length ds + 8 < 2 ^ 16 = omega (arith, rw (a, b) at few) in
          rw (a, b) (add_one ds (record { type = 1; value = n.tq_avg; mac = o.orig }) s long few')
    ]
  ]

  pub secondary_lem :
      (ifs : List BatmanIf) (ds : List VisData)
      → AreSized ds
      → 11 + 8 * (length ds + length (same_address sender_mac ifs)) < 2 ^ 16
      → secondary unset ifs (holding ds) ≡ some (holding (ds ++ same_address sender_mac ifs))
  unfolding secondary same_address compare_orig sender_mac_of header_of AreSized
  secondary_lem [] ds s few = ap (λ (t : List VisData). some (holding t)) (sym (append-nil ds))
  secondary_lem (i ∷ ifs) ds s few =
      let sender : take 6 (sender_mac ++ bytes_of ds) ≡ sender_mac =
        take_front 6 sender_mac (bytes_of ds) (sym six) in
      elim (Bool-cases (bytes_eq sender_mac i.hw_addr)) [
        | inr e ↦ rw (secondary, sender, e) (secondary_lem ifs ds s (rw e at few))
        | inl e ↦
            let d : VisData = record { type = 2; value = 0; mac = i.hw_addr } in
            let long : length i.hw_addr ≡ 6 =
              ap length (sym (bytes_eq→eq sender_mac i.hw_addr e)) ∙ six in
            let few' : 11 + 8 * (length ds + suc (length (same_address sender_mac ifs))) < 2 ^ 16 =
              rw e at few in
            let added = add_one ds d s long (omega (arith, few')) in
            rw (secondary, sender, e, added)
              (secondary_lem ifs (ds ++ d ∷ []) (AreSized-append ds (d ∷ []) s (long, tt))
                  (omega (arith, few', length-append ds (d ∷ [])))
                ∙ ap (λ (t : List VisData). some (holding t))
                    (append_assoc ds (d ∷ []) (same_address sender_mac ifs)))
      ]

  neigh_length :
      (ds : List VisData) (o : OrigNode) (n : Option NeighNode) (rest : List VisData)
      → 11 + 8 * (length ds + length (neigh_entry o n ++ rest)) < 2 ^ 16
      → (11 + 8 * (length ds + length (neigh_entry o n)) < 2 ^ 16)
        × (11 + 8 * (length (ds ++ neigh_entry o n) + length rest) < 2 ^ 16)
  neigh_length ds o n rest few =
      let all = length-append (neigh_entry o n) rest in
      (omega (arith, few, all), omega (arith, few, all, length-append ds (neigh_entry o n)))

  pub neighbours_lem :
      (h : Mesh) (rs : List Ref) (ds : List VisData)
      → AreReadable h rs
      → AreSized ds
      → 11 + 8 * (length ds + length (one_hop h rs)) < 2 ^ 16
      → neighbours unset rs (holding ds) h ≡ some (holding (ds ++ one_hop h rs), h)
  unfolding neighbours one_hop AreReadable orig_at router_of router_in
  neighbours_lem h [] ds R s few =
      ap (λ (t : List VisData). some (holding t, h)) (sym (append-nil ds))
  neighbours_lem h (r ∷ rs) ds ((o, there, long, which), R) s few =
      let entry : List VisData = neigh_entry o (router_in o) in
      let all : one_hop h (r ∷ rs) ≡ entry ++ one_hop h rs = rw there refl in
      let (few1, few2) = neigh_length ds o (router_in o) (one_hop h rs) (rw all at few) in
      let seen : router_of o ≡ some (router_in o) = elim which [
        | inl e ↦ rw (router_of, e) refl
        | inr (p, n, e, at_p) ↦ rw (router_of, e, at_p) refl
      ] in
      let added = add_neighbour_lem ds o (router_in o) s long few1 in
      let later =
        neighbours_lem h rs (ds ++ entry) R
          (AreSized-append ds entry s (neigh_entry-AreSized o (router_in o) long)) few2 in
      rw (neighbours, ◌>>=◌, there, seen, added)
        (later
          ∙ ap (λ (t : List VisData). some (holding t, h)) (append_assoc ds entry (one_hop h rs)))

  -- The packet with these entries, and room for `n` more.
  abbrev pub with_room : List VisData → ℕ → List ℕ → VisPacket
  with_room ds n room = record {
    bytes = (header_of unset gateway_class sender_mac ++ bytes_of ds) ++ room;
    size = 11 + 8 * length ds + 8 * n;
  }

  -- The room for one entry, and what is behind it.
  split_room :
      (n : ℕ) (room : List ℕ)
      → length room ≡ 8 * suc n
      → (t : ℕ) × (v : ℕ) × (old : List ℕ) × (behind : List ℕ) × (room ≡ t ∷ v ∷ (old ++ behind))
        × (length old ≡ 6)
        × (length behind ≡ 8 * n)
  split_room n [] e = absurd omega (arith, e)
  split_room n (t ∷ []) e = absurd omega (arith, e)
  split_room n (t ∷ v ∷ room) e = (
    t,
    v,
    take 6 room,
    drop 6 room,
    ap (λ r. t ∷ v ∷ r) (sym (take-append-drop 6 room)),
    omega (arith, e, length-take 6 room),
    omega (arith, e, length-drop 6 room),
  )

  pub put_hosts_lem :
      (n i : ℕ) (hna_buff : List ℕ) (ds : List VisData) (room : List ℕ)
      → length room ≡ 8 * n
      → 6 * (i + n) ≤ length hna_buff
      → AreSized ds
      → put_hosts n i hna_buff (with_room ds n room) ≡ some (holding (ds ++ hosts_of n i hna_buff))
  unfolding put_hosts hosts_of AreSized
  put_hosts_lem zero i hna_buff ds [] e le s =
      ap₂ (λ (b : List ℕ) (n : ℕ). some (record { bytes = b; size = n }))
        (append-nil _
          ∙ ap (λ r. header_of unset gateway_class sender_mac ++ bytes_of r) (sym (append-nil ds)))
        (omega (arith, ap length (append-nil ds)))
  put_hosts_lem zero i hna_buff ds (b ∷ room) e le s = absurd omega (arith, e)
  put_hosts_lem (suc n) i hna_buff ds room e le s =
      let (t, v, old, behind, split, old_six, left) = split_room n room e in
      let d : VisData = record { type = 3; value = 0; mac = take 6 (drop (6 * i) hna_buff) } in
      let long : length d.mac ≡ 6 =
        omega (arith, le, length-take 6 (drop (6 * i) hna_buff), length-drop (6 * i) hna_buff) in
      let inside : leb (6 * i + 6) (length hna_buff) ≡ true = ground (arith, le) in
      let front = header_of unset gateway_class sender_mac ++ bytes_of ds in
      let written =
        put_data_lem (suc n * 8) d (with_room ds (suc n) room) front old behind t v
          (ap (λ r. front ++ r) split) (omega (arith, length-holding ds s)) old_six long in
      let shape : front ++ (data_of d ++ behind)
          ≡ (header_of unset gateway_class sender_mac ++ bytes_of (ds ++ d ∷ [])) ++ behind =
        sym (append_assoc front (data_of d) behind)
        ∙ ap (λ r. r ++ behind)
            (append_assoc (header_of unset gateway_class sender_mac) (bytes_of ds) (data_of d)
              ∙ ap (λ r. header_of unset gateway_class sender_mac ++ r)
                  (sym (more_entries ds d))) in
      let next : record (with_room ds (suc n) room) { bytes = front ++ (data_of d ++ behind) }
          ≡ with_room (ds ++ d ∷ []) n behind =
        ap₂ (λ (b : List ℕ) (n : ℕ). record { bytes = b; size = n }) shape
          (omega (arith, length-append ds (d ∷ []))) in
      rw (put_hosts, inside, written)
        (ap (λ (p : VisPacket). put_hosts n (suc i) hna_buff p) next
          ∙ put_hosts_lem n (suc i) hna_buff (ds ++ d ∷ []) behind left (omega (arith, le))
              (AreSized-append ds (d ∷ []) s (long, tt))
          ∙ ap (λ (t : List VisData). some (holding t))
              (append_assoc ds (d ∷ []) (hosts_of n (suc i) hna_buff)))
