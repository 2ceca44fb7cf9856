-- ===== src/Routes/Defs.antt =====
-- batman-adv.c, `update_routes` and `update_gw_list`. The debugging output is not modelled.
use batman_adv_userspace.Base.{
  ℕ, ◌==◌, List, [], ◌∷◌, ◌++◌, Bool, true, false, Option, none, some, not, if◌then◌else◌, bytes_eq,
  take, leb,
}
use batman_adv_userspace.TransTable.{hna_add_buff, hna_del_buff}
use batman_adv_userspace.Mesh.{
  OrigNode, GwNode, HnaBuff, M, ◌>>=◌, ◌>>◌, return, gets, lift, modify, when, orig_at, store_orig,
  neigh_at,
}

-- `hna_recv_buff`: NULL, bytes of the received packet, or the originator's own buffer, as `purge_orig`
-- passes it.
pub data RecvBuff : Type 0 where
  null : RecvBuff
  packet : List ℕ → RecvBuff
  own : RecvBuff

-- Pointers that may be NULL.
unfoldable pub same_ptr : Option ℕ → Option ℕ → Bool
same_ptr none none = true
same_ptr (some a) (some b) = a == b
same_ptr _ _ = false

-- The first part: the router of `orig_ptr` becomes `neigh`, a neighbour in its own list or NULL.
unfoldable pub set_router : ℕ → Option ℕ → M (Unit {0})
unfolding orig_at store_orig same_ptr neigh_at
set_router orig_ptr neigh = do
  o ← orig_at orig_ptr
  when (not (same_ptr o.router neigh)) (elim neigh [
    | none ↦ store_orig orig_ptr (record o { router = none })
    | some p ↦ (do
      n ← lift (neigh_at p o.neigh_list)
      store_orig orig_ptr (record o { router = some p; batman_if = some n.if_incoming }))
  ])

-- The bytes that the received buffer holds; one that was freed faults.
unfoldable pub recv_bytes : RecvBuff → HnaBuff → Option (List ℕ)
recv_bytes RecvBuff.null b = none
recv_bytes (RecvBuff.packet bytes) b = some bytes
recv_bytes RecvBuff.own (HnaBuff.live bytes) = some bytes
recv_bytes RecvBuff.own _ = none

-- A copy of the first `len` bytes of the received buffer into a new one, whose hosts are added.
unfoldable pub announce : ℕ → RecvBuff → ℕ → M (Unit {0})
unfolding orig_at store_orig recv_bytes hna_add_buff
announce orig_ptr recv len = do
  o ← orig_at orig_ptr
  bytes ← lift (recv_bytes recv o.hna_buff)
  store_orig orig_ptr (record o { hna_buff = HnaBuff.live (take len bytes); hna_buff_len = len })
  hna_add_buff orig_ptr

-- `changed`: the lengths differ, or else the contents compare equal.
unfoldable pub hna_differs : RecvBuff → ℕ → OrigNode → Option Bool
unfolding recv_bytes
hna_differs recv len o = if not (len == o.hna_buff_len) then some true else (elim o.hna_buff [
  | HnaBuff.live old ↦ elim (recv_bytes recv o.hna_buff) [
    | none ↦ none
    | some bytes ↦ some (bytes_eq (take len bytes) (take len old))
  ]
  | _ ↦ none
])

-- Is the received pointer NULL? The originator's own buffer is, where it is.
unfoldable pub recv_is_null : RecvBuff → HnaBuff → Bool
recv_is_null RecvBuff.null b = true
recv_is_null (RecvBuff.packet _) b = false
recv_is_null RecvBuff.own HnaBuff.null = true
recv_is_null RecvBuff.own _ = false

unfoldable pub own_is_null : HnaBuff → Bool
own_is_null HnaBuff.null = true
own_is_null _ = false

-- The second part.
unfoldable pub update_hna : ℕ → RecvBuff → ℕ → M (Unit {0})
unfolding orig_at announce hna_differs recv_is_null own_is_null hna_del_buff
update_hna orig_ptr recv len = do
  o ← orig_at orig_ptr
  if recv_is_null recv o.hna_buff
      then (if own_is_null o.hna_buff then return tt else hna_del_buff orig_ptr)
      else (if own_is_null o.hna_buff then announce orig_ptr recv len else (do
        changed ← lift (hna_differs recv len o)
        when changed (do hna_del_buff orig_ptr; announce orig_ptr recv len)))

unfoldable pub update_routes : ℕ → Option ℕ → RecvBuff → ℕ → M (Unit {0})
unfolding set_router update_hna
update_routes orig_ptr neigh recv len = do set_router orig_ptr neigh; update_hna orig_ptr recv len

-- The walk over the gateways; the Boolean tells whether one was found, the new class goes to the
-- originator.
unfoldable pub mark_gateway : ℕ → ℕ → ℕ → List GwNode → Bool × List GwNode
mark_gateway now orig_ptr new_gwflags [] = (false, [])
mark_gateway now orig_ptr new_gwflags (g ∷ gws) =
    let (found, rest) = mark_gateway now orig_ptr new_gwflags gws in
    if g.orig_node == orig_ptr
    then (true, record g { deleted = if new_gwflags == 0 then now else 0 } ∷ gws)
    else (found, g ∷ rest)

-- The number of entries of `gw2string`.
abbrev pub gw2string_size : ℕ
gw2string_size = 12

-- `now` is what `get_time` returns. A new gateway's class indexes `gw2string` for the debugging output,
-- unchecked: a class past its end faults.
unfoldable pub update_gw_list : ℕ → ℕ → ℕ → M (Unit {0})
unfolding mark_gateway orig_at store_orig
update_gw_list now orig_ptr new_gwflags = do
  h ← gets (λ h. h)
  let r = mark_gateway now orig_ptr new_gwflags h.gw_list
  if r.0
      then (do
        modify (λ h. record h { gw_list = r.1 })
        when (not (new_gwflags == 0))
            (do o ← orig_at orig_ptr; store_orig orig_ptr (record o { gwflags = new_gwflags })))
      else (if leb gw2string_size new_gwflags
          then lift none
          else modify (λ h. record h {
            gw_list =
                h.gw_list ++ record { orig_node = orig_ptr; last_failure = now; deleted = 0 } ∷ [];
          }))
