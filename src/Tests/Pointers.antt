-- ===== src/Tests/Pointers.antt =====
-- dlist.h, list-batman.c and the visualisation packet on small states.
use batman_adv_userspace.Base.{◌≡◌, refl, [], ◌∷◌, some, inr, arith, bytes_eq, listed, Distinct}
use batman_adv_userspace.LinkedList.{
  Links, write, Chain, last, IsRing, Serves, Deletes, IsList, Forward, Keeps, Deleted, dlist_lem,
  dlist_del_lem, list_lem, list_del_lem,
}
use batman_adv_userspace.Mesh.{Mesh, BatmanIf, at, neigh_at}
use batman_adv_userspace.Hash.{entries}
use batman_adv_userspace.Vis.{
  AreReadable, packet_of, entries_of, one_hop, hosts_of, same_address, neigh_entry, router_in,
  generate_vis_packet, generate_vis_packet_lem,
}
use batman_adv_userspace.Tests.Data.{mac_a, mac_b, ogm_a, mesh, hosts, orig_a, neigh}

-- A head at 1 and two entries.
abbrev ring : Links
ring = record {
  next = write 1 2 (write 2 3 (write 3 1 (λ p. 0)));
  prev = write 1 3 (write 2 1 (write 3 2 (λ p. 0)));
}

ring-IsRing : IsRing ring 1 (2 ∷ 3 ∷ [])
unfolding Chain last Distinct listed write
ring-IsRing = record {
  chain = (refl, refl, (refl, refl, tt));
  last_next = refl;
  head_prev = refl;
  distinct = (refl, (refl, (refl, tt)));
  allocated = refl;
}

ring-IsList : IsList ring 1 (2 ∷ 3 ∷ [])
unfolding Forward last Distinct listed write
ring-IsList = record {
  forward = (refl, (refl, tt));
  last_next = refl;
  head_prev = refl;
  distinct = (refl, (refl, (refl, tt)));
  allocated = refl;
}

dlist_example : Serves ring 1 4 (2 ∷ 3 ∷ [])
unfolding listed
dlist_example = dlist_lem ring 1 4 (2 ∷ 3 ∷ []) ring-IsRing refl refl

dlist_del_example : Deletes ring 1 2 [] (3 ∷ [])
dlist_del_example = dlist_del_lem ring 1 2 [] (3 ∷ []) ring-IsRing

list_example : Keeps ring 1 4 (2 ∷ 3 ∷ [])
unfolding listed
list_example = list_lem ring 1 4 (2 ∷ 3 ∷ []) ring-IsList refl refl

list_del_example : Deleted ring 1 3 (2 ∷ []) []
list_del_example = list_del_lem ring 1 3 (2 ∷ []) [] ring-IsList

abbrev if_a : BatmanIf
if_a = record { if_num = 0; hw_addr = mac_a; bcast_seqno = 1; out = ogm_a }

abbrev if_b : BatmanIf
if_b = record { if_num = 1; hw_addr = mac_b; bcast_seqno = 1; out = ogm_a }

-- A node with one interface that announces one host, and has a neighbour that is its own router.
abbrev announcing : Mesh
announcing = record mesh {
  origs =
      (1, record orig_a { orig = mac_b; router = some 7; neigh_list = neigh 7 100 220 ∷ [] }) ∷ [];
  orig_hash = record {
    table = (record { ptr = 1; key = mac_b } ∷ []) ∷ [];
    elements = 1;
    size = 1;
  };
  if_list = if_a ∷ [];
  num_hna = 1;
  hna_buff = hosts;
}

generate_vis_packet_example :
    generate_vis_packet (λ o. 0) 2 announcing
    ≡ some (packet_of (λ o. 0) 2 mac_a (entries_of mac_a announcing), announcing)
unfolding entries neigh_at bytes_eq AreReadable at entries_of one_hop hosts_of same_address
    neigh_entry router_in
generate_vis_packet_example =
    generate_vis_packet_lem (λ o. 0) 2 if_a [] announcing refl refl
      ((_, refl, refl, inr (7, _, refl, refl)), tt) (omega arith) (omega arith)
