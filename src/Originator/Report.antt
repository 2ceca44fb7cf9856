-- ===== src/Originator/Report.antt =====
-- originator.c, `debug_orig`: the messages about gateways, the queue and the originators, as pairs of a debug
-- level and what the message is about. The walk with `hash_iterate` is a list of the table's references.
use batman_adv_userspace.Base.{
  ℕ, ◌+◌, ◌%◌, ◌^◌, ◌==◌, List, [], ◌∷◌, ◌++◌, Bool, none, some, ◌||◌, if◌then◌else◌,
}
use batman_adv_userspace.Hash.{entries}
use batman_adv_userspace.Mesh.{
  Mac, NeighNode, ForwNode, OrigNode, GwNode, Ref, M, ◌>>=◌, return, gets, lift, orig_at, neigh_at,
}

pub data Line : Type 0 where
  bod : Line
  title : Line
  no_gateways : Line
  forward_list : Line
  queued : Mac → ℕ → Line
  originator_list : Line
  name : Mac → Line
  router : Mac → ℕ → Line
  router_valid : Mac → ℕ → ℕ → Line
  potential : Mac → ℕ → Line
  newline : Line
  no_nodes : Line
  eod : Line

abbrev pub Lines : Type 0
Lines = List (ℕ × Line)

-- The part for level 2, and `batman_count` behind it.
unfoldable pub report_gateways : Bool → List GwNode → Lines × ℕ
report_gateways watched [] =
    (if watched then (2, bod) ∷ (2, title) ∷ (2, no_gateways) ∷ (2, eod) ∷ [] else [], 0)
report_gateways watched (g ∷ r) =
    if watched then ((2, bod) ∷ (2, title) ∷ (2, eod) ∷ [], 1) else ([], 0)

unfoldable pub report_queue : List ForwNode → Lines
report_queue [] = []
report_queue (f ∷ r) = (4, queued f.pack.orig f.send_time) ∷ report_queue r

unfoldable pub report_neighs : List NeighNode → Lines
report_neighs [] = []
report_neighs (n ∷ r) =
    (1, potential n.addr n.tq_avg) ∷ (4, potential n.addr n.tq_avg) ∷ report_neighs r

-- An originator with its router.
unfoldable pub report_node : OrigNode → NeighNode → Lines
unfolding report_neighs
report_node o n =
    (1, name o.orig)
    ∷ (1, router n.addr n.tq_avg)
    ∷ (4, name o.orig)
    ∷ (4, router_valid n.addr n.tq_avg o.last_valid)
    ∷ (report_neighs o.neigh_list ++ (1, newline) ∷ [])

-- The loop over the table; one without a router is passed over.
unfoldable pub report_origs : List Ref → ℕ → M (Lines × ℕ)
unfolding orig_at neigh_at report_node
report_origs [] count = return ([], count)
report_origs (r ∷ rs) count = do
  o ← orig_at r.ptr
  elim o.router [
    | none ↦ report_origs rs count
    | some p ↦ (do
      n ← lift (neigh_at p o.neigh_list)
      (lines, after) ← report_origs rs ((count + 1) % 2 ^ 16)
      return (report_node o n ++ lines, after))
  ]

unfoldable pub report_details : Bool → List ForwNode → Lines
unfolding report_queue
report_details watched forw_list =
    if watched
    then (4, title)
      ∷ (4, forward_list)
      ∷ (report_queue forw_list ++ (4, originator_list) ∷ (4, title) ∷ [])
    else []

-- The arguments tell whether the levels 1, 2 and 4 have clients.
unfoldable pub debug_orig : Bool → Bool → Bool → M Lines
unfolding report_gateways report_details report_origs entries
debug_orig has_1 has_2 has_4 = do
  h ← gets (λ h. h)
  let (first, count) = report_gateways has_2 h.gw_list
  if has_1 || has_4
      then (do
        (lines, after) ← report_origs (entries h.orig_hash.table) count
        let none_found = if after == 0 then (1, no_nodes) ∷ (4, no_nodes) ∷ [] else []
        return (
            first
            ++ ((1, bod)
                ∷ (1, title)
                ∷ (report_details has_4 h.forw_list
                    ++ (lines ++ (none_found ++ (1, eod) ∷ (4, eod) ∷ []))))))
      else return first
