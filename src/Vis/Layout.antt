-- ===== src/Vis/Layout.antt =====
-- batman-adv.c, `generate_vis_packet`: the packet that it is to make, described without its buffer.
use batman_adv_userspace.Base.{
  ℕ, zero, suc, ◌*◌, ◌≡◌, refl, sym, ap, ◌∙◌, List, [], ◌∷◌, ◌++◌, Option, none, some, ◌⊎◌, inl,
  inr, ◌&&◌, arith, Bool-cases, if◌then◌else◌, ltb, length, take, drop, length-append, bytes_eq,
  bytes_eq→eq,
}
use mathlib.Core.List.{append_assoc}
use batman_adv_userspace.Mesh.{Mac, OrigNode, NeighNode, BatmanIf, Ref, Mesh, at, neigh_at}
use batman_adv_userspace.Vis.Defs.{VisData}

-- An entry for an originator whose router is the originator itself, and has a link quality above 0.
unfoldable pub neigh_entry : OrigNode → Option NeighNode → List VisData
neigh_entry o none = []
neigh_entry o (some n) =
    if bytes_eq o.orig n.addr && ltb 0 n.tq_avg
    then record { type = 1; value = n.tq_avg; mac = o.orig } ∷ []
    else []

unfoldable pub router_in : OrigNode → Option NeighNode
router_in o = elim o.router [ none ↦ none | some p ↦ neigh_at p o.neigh_list ]

unfoldable pub one_hop : Mesh → List Ref → List VisData
unfolding neigh_entry router_in
one_hop h [] = []
one_hop h (r ∷ rs) =
    elim (at r.ptr h.origs) [ none ↦ [] | some o ↦ neigh_entry o (router_in o) ] ++ one_hop h rs

-- An entry for each interface that has this address.
unfoldable pub same_address : Mac → List BatmanIf → List VisData
same_address mac [] = []
same_address mac (i ∷ ifs) =
    (if bytes_eq mac i.hw_addr then record { type = 2; value = 0; mac = i.hw_addr } ∷ [] else [])
    ++ same_address mac ifs

-- An entry for each of `n` addresses in the buffer, from the `i`-th on.
unfoldable pub hosts_of : ℕ → ℕ → List ℕ → List VisData
hosts_of zero i hna_buff = []
hosts_of (suc n) i hna_buff =
    record { type = 3; value = 0; mac = take 6 (drop (6 * i) hna_buff) }
    ∷ hosts_of n (suc i) hna_buff

-- The bytes of vis-types.h: the header, and eight bytes for each entry.
unfoldable pub header_of : (ℕ → ℕ) → ℕ → Mac → List ℕ
header_of unset gateway_class sender_mac =
    gateway_class ∷ 255 ∷ unset 2 ∷ unset 3 ∷ 148 ∷ sender_mac

unfoldable pub bytes_of : List VisData → List ℕ
bytes_of [] = []
bytes_of (d ∷ ds) = d.type ∷ d.value ∷ (d.mac ++ bytes_of ds)

-- The references lead to originators with addresses of six bytes, whose routers are there.
unfoldable pub AreReadable : Mesh → List Ref → Type 0
AreReadable h [] = Unit
AreReadable h (r ∷ rs) =
    ((o : OrigNode) × (at r.ptr h.origs ≡ some o)
      × (length o.orig ≡ 6)
      × ((o.router ≡ none)
          ⊎ ((p : ℕ) × (n : NeighNode) × (o.router ≡ some p) × (neigh_at p o.neigh_list ≡ some n))))
    × AreReadable h rs

-- Every entry has an address of six bytes.
unfoldable pub AreSized : List VisData → Type 0
AreSized [] = Unit
AreSized (d ∷ ds) = (length d.mac ≡ 6) × AreSized ds

pub AreSized-append : (a b : List VisData) → AreSized a → AreSized b → AreSized (a ++ b)
unfolding AreSized
AreSized-append [] b s t = t
AreSized-append (d ∷ a) b (six, s) t = (six, AreSized-append a b s t)

pub bytes_of-append : (a b : List VisData) → bytes_of (a ++ b) ≡ bytes_of a ++ bytes_of b
unfolding bytes_of
bytes_of-append [] b = refl
bytes_of-append (d ∷ a) b =
    ap (λ r. d.type ∷ d.value ∷ (d.mac ++ r)) (bytes_of-append a b)
    ∙ ap (λ r. d.type ∷ d.value ∷ r) (sym (append_assoc d.mac (bytes_of a) (bytes_of b)))

pub length-bytes_of : (ds : List VisData) → AreSized ds → length (bytes_of ds) ≡ 8 * length ds
unfolding bytes_of AreSized
length-bytes_of [] s = omega arith
length-bytes_of (d ∷ ds) (six, s) =
    omega (arith, length-append d.mac (bytes_of ds), six, length-bytes_of ds s)

pub neigh_entry-AreSized :
    (o : OrigNode) (n : Option NeighNode) → length o.orig ≡ 6 → AreSized (neigh_entry o n)
unfolding neigh_entry AreSized
neigh_entry-AreSized o none six = tt
neigh_entry-AreSized o (some n) six = elim (Bool-cases (bytes_eq o.orig n.addr && ltb 0 n.tq_avg)) [
  | inl e ↦ rw e (six, tt)
  | inr e ↦ rw e tt
]

pub one_hop-AreSized : (h : Mesh) (rs : List Ref) → AreReadable h rs → AreSized (one_hop h rs)
unfolding one_hop AreReadable AreSized
one_hop-AreSized h [] R = tt
one_hop-AreSized h (r ∷ rs) ((o, there, six, _), R) = rw there (
    AreSized-append (neigh_entry o (router_in o)) (one_hop h rs)
      (neigh_entry-AreSized o (router_in o) six) (one_hop-AreSized h rs R))

pub same_address-AreSized :
    (mac : Mac) (ifs : List BatmanIf) → length mac ≡ 6 → AreSized (same_address mac ifs)
unfolding same_address AreSized
same_address-AreSized mac [] six = tt
same_address-AreSized mac (i ∷ ifs) six = elim (Bool-cases (bytes_eq mac i.hw_addr)) [
  | inl e ↦
      let own : length i.hw_addr ≡ 6 = ap length (sym (bytes_eq→eq mac i.hw_addr e)) ∙ six in
      rw e (own, same_address-AreSized mac ifs six)
  | inr e ↦ rw e (same_address-AreSized mac ifs six)
]

pub length-hosts_of : (n i : ℕ) (hna_buff : List ℕ) → length (hosts_of n i hna_buff) ≡ n
unfolding hosts_of
length-hosts_of zero i hna_buff = refl
length-hosts_of (suc n) i hna_buff = omega (arith, length-hosts_of n (suc i) hna_buff)
