-- ===== src/TransTable/Update.antt =====
-- trans_table.c, `hna_update`: the announcement of the local hosts.
use batman_adv_userspace.Base.{
  ℕ, ◌+◌, ◌-◌, ◌/◌, ◌%◌, ◌^◌, List, [], ◌∷◌, ◌++◌, true, false, none, ◌&&◌, ◌||◌, not,
  if◌then◌else◌, ltb, bytes_eq,
}
use batman_adv_userspace.Mesh.{
  Mac, BatmanIf, BatmanPacket, M, ◌>>=◌, ◌>>◌, return, gets, lift, modify, when,
}
use batman_adv_userspace.TransTable.Defs.{elem_at, hna_del, age_threshold, batman_maxframesize}

-- The walk of `hna_update` over the local list: old entries go, but never the node's own address
-- `own`; the count of those that stay. `age` is an int, and the difference to the uint32_t clock wraps.
unfoldable pub purge_hna : Mac → List ℕ → ℕ → M ℕ
unfolding elem_at hna_del
purge_hna own [] cnt_hna = return cnt_hna
purge_hna own (p ∷ r) cnt_hna = do
  e ← elem_at p
  h ← gets (λ h. h)
  let old = ltb age_threshold ((h.curr_time + 2 ^ 32 - e.age) % 2 ^ 32) && not (bytes_eq e.mac own)
  when old (do hna_del p; modify (λ h. record h { hna_changed = true }))
  purge_hna own r (if old then cnt_hna else cnt_hna + 1)

-- The announced bytes: the addresses of the local list, in its order.
unfoldable pub write_hna : List ℕ → M (List ℕ)
unfolding elem_at
write_hna [] = return []
write_hna (p ∷ r) = do e ← elem_at p; rest ← write_hna r; return (e.mac ++ rest)

-- `num_hna` after the cut: what fits the frame, and at most 255. `tap_mtu - BATMAN_MAXFRAMESIZE` is
-- unsigned, so it wraps for a smaller `tap_mtu`.
unfoldable pub announced : ℕ → ℕ → ℕ
announced tap_mtu cnt_hna =
    let room = (tap_mtu + 2 ^ 64 - batman_maxframesize) % 2 ^ 64 / 6 in
    if ltb room cnt_hna || ltb 255 cnt_hna then (if ltb 255 room then 255 else room) else cnt_hna

-- `out.num_hna` of the first interface.
unfoldable pub set_num_hna : ℕ → List BatmanIf → List BatmanIf
set_num_hna n [] = []
set_num_hna n (i ∷ r) =
    let out : BatmanPacket = i.out in (record i { out = record out { num_hna = n % 2 ^ 8 } }) ∷ r

unfoldable pub hna_update : ℕ → M (Unit {0})
unfolding purge_hna write_hna announced set_num_hna
hna_update tap_mtu = do
  h ← gets (λ h. h)
  elim h.if_list [
    | [] ↦ lift none
    | i ∷ _ ↦ (do
      cnt_hna ← purge_hna i.hw_addr h.hna_list 0
      h' ← gets (λ h. h)
      when h'.hna_changed (do
        bytes ← write_hna h'.hna_list
        modify (λ h. record h {
          num_hna = announced tap_mtu cnt_hna;
          hna_buff = bytes;
          hna_changed = false;
          if_list = set_num_hna (announced tap_mtu cnt_hna) h.if_list;
        })))
  ]
