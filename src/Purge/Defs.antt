-- ===== src/Purge/Defs.antt =====
-- originator.c, `purge_orig`. The walk of `hash_iterate` is the list of the entries of the table, taken
-- once: the only change to the table is the removal of the present entry. The debugging output is not
-- modelled.
use batman_adv_userspace.Base.{
  ℕ, ◌+◌, ◌-◌, ◌*◌, ◌%◌, ◌^◌, ◌==◌, List, [], ◌∷◌, Bool, true, false, Option, none, some, ◌&&◌, not,
  if◌then◌else◌, ltb,
}
use batman_adv_userspace.Hash.{HashTable, entries}
use batman_adv_userspace.Routes.{RecvBuff, update_routes}
use batman_adv_userspace.Mesh.{
  NeighNode, GwNode, Ref, M, ◌>>=◌, ◌>>◌, return, gets, lift, modify, when, free, orig_at,
  store_orig, neigh_at,
}

-- PURGE_TIMEOUT
abbrev pub purge_timeout : ℕ
purge_timeout = 200000

-- `last_valid + PURGE_TIMEOUT < curr_time`, on uint32_t.
unfoldable pub timed_out : ℕ → ℕ → Bool
timed_out last_valid curr_time = ltb ((last_valid + purge_timeout) % 2 ^ 32) curr_time

-- `best_neigh_node` after a neighbour that stays.
unfoldable pub better : Option NeighNode → NeighNode → Option NeighNode
better none n = some n
better (some b) n = if ltb b.tq_avg n.tq_avg then some n else some b

-- The walk over the neighbours: those that stay, `neigh_purged`, and `best_neigh_node`.
unfoldable pub purge_neighs :
    ℕ → List NeighNode → Option NeighNode → List NeighNode × Bool × Option NeighNode
unfolding timed_out better
purge_neighs curr_time [] best = ([], false, best)
purge_neighs curr_time (n ∷ ns) best =
    let gone = purge_neighs curr_time ns best in
    let stays = purge_neighs curr_time ns (better best n) in
    if timed_out n.last_valid curr_time
    then (gone.0, true, gone.2)
    else (n ∷ stays.0, stays.1, stays.2)

-- Is there a reason for a new router? The present one is read only where both are there; it may be one
-- that was just freed, which faults.
unfoldable pub reroute : Option NeighNode → Option ℕ → List NeighNode → Option Bool
unfolding neigh_at
reroute none router neighs = some true
reroute (some b) none neighs = some true
reroute (some b) (some p) neighs = elim (neigh_at p neighs) [
  | none ↦ none
  | some r ↦ some (ltb r.tq_avg b.tq_avg)
]

unfoldable pub ptr_of : Option NeighNode → Option ℕ
ptr_of none = none
ptr_of (some n) = some n.ptr

unfoldable pub purge_live : ℕ → ℕ → M (Unit {0})
unfolding orig_at store_orig purge_neighs reroute ptr_of update_routes
purge_live curr_time p = do
  o ← orig_at p
  let r = purge_neighs curr_time o.neigh_list none
  store_orig p (record o { neigh_list = r.0 })
  when r.1 (do
    change ← lift (reroute r.2 o.router r.0)
    when change (update_routes p (ptr_of r.2) RecvBuff.own o.hna_buff_len))

-- The first gateway of this originator that is not deleted yet.
unfoldable pub delete_gateway : ℕ → ℕ → List GwNode → List GwNode
delete_gateway now p [] = []
delete_gateway now p (g ∷ gws) =
    let rest = delete_gateway now p gws in
    if g.deleted == 0 && g.orig_node == p then (record g { deleted = now }) ∷ gws else g ∷ rest

-- `hash_remove_bucket`: the element that holds this pointer is unlinked, and the count goes down.
unfoldable pub unlink_bucket : ℕ → List Ref → List Ref
unlink_bucket p [] = []
unlink_bucket p (r ∷ rs) = if r.ptr == p then rs else r ∷ unlink_bucket p rs

unfoldable pub unlink_table : ℕ → List (List Ref) → List (List Ref)
unfolding unlink_bucket
unlink_table p [] = []
unlink_table p (c ∷ cs) = unlink_bucket p c ∷ unlink_table p cs

unfoldable pub hash_remove_bucket : ℕ → HashTable Ref → HashTable Ref
unfolding unlink_table
hash_remove_bucket p hash = record hash {
  table = unlink_table p hash.table;
  elements = hash.elements - 1;
}

-- An originator that timed out; `now` is what `get_time` returns.
unfoldable pub purge_dead : ℕ → ℕ → M (Unit {0})
unfolding hash_remove_bucket orig_at store_orig delete_gateway update_routes free
purge_dead now p = do
  modify (λ h. record h { orig_hash = hash_remove_bucket p h.orig_hash })
  o ← orig_at p
  store_orig p (record o { neigh_list = [] })
  modify (λ h. record h { gw_list = delete_gateway now p h.gw_list })
  update_routes p none RecvBuff.null 0
  modify (λ h. record h { origs = free p h.origs })

unfoldable pub purge_one : ℕ → ℕ → ℕ → M (Unit {0})
unfolding orig_at timed_out purge_dead purge_live
purge_one now curr_time p = do
  o ← orig_at p
  if timed_out o.last_valid curr_time then purge_dead now p else purge_live curr_time p

unfoldable pub purge_origs : ℕ → ℕ → List Ref → M (Unit {0})
unfolding purge_one
purge_origs now curr_time [] = return tt
purge_origs now curr_time (r ∷ rs) = do purge_one now curr_time r.ptr; purge_origs now curr_time rs

-- The walk over the gateways: those deleted for long are freed.
unfoldable pub purge_gateways : ℕ → List GwNode → List GwNode
purge_gateways curr_time [] = []
purge_gateways curr_time (g ∷ gws) =
    let rest = purge_gateways curr_time gws in
    if not (g.deleted == 0) && ltb ((g.deleted + 3 * purge_timeout) % 2 ^ 32) curr_time
    then rest
    else g ∷ rest

unfoldable pub purge_orig : ℕ → ℕ → M (Unit {0})
unfolding purge_origs purge_gateways entries
purge_orig now curr_time = do
  h ← gets (λ h. h)
  purge_origs now curr_time (entries h.orig_hash.table)
  modify (λ h. record h { gw_list = purge_gateways curr_time h.gw_list })
