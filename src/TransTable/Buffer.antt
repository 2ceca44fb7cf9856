-- ===== src/TransTable/Buffer.antt =====
-- trans_table.c, `hna_add_buff` and `hna_del_buff`: the hosts that an originator announces.
use batman_adv_userspace.Base.{
  ℕ, zero, suc, ◌/◌, List, [], ◌∷◌, none, some, ◌==◌, if◌then◌else◌, take, drop,
}
use batman_adv_userspace.Mesh.{
  Mac, HnaBuff, M, ◌>>=◌, ◌>>◌, return, lift, when, orig_at, store_orig,
}
use batman_adv_userspace.TransTable.Defs.{find_elem, hna_del, transtable_add}

-- The walk takes the next element before it deletes this one.
unfoldable pub hna_remove_list : List ℕ → M (Unit {0})
unfolding hna_del
hna_remove_list [] = return tt
hna_remove_list (p ∷ r) = do hna_del p; hna_remove_list r

-- The loop of `hna_add_buff` with `rounds` rounds left, at the bytes `rest`. A host that was added
-- and is not found would be a NULL that is written through.
unfoldable pub add_hosts : ℕ → ℕ → Mac → List ℕ → M (Unit {0})
unfolding transtable_add find_elem orig_at store_orig
add_hosts zero orig_ptr orig rest = return tt
add_hosts (suc rounds) orig_ptr orig rest = do
  added ← transtable_add (take 6 rest) orig
  when added (do
    found ← find_elem (take 6 rest)
    elim found [
      | none ↦ lift none
      | some p ↦ (do
        o ← orig_at orig_ptr
        store_orig orig_ptr (record o { hna_list = p ∷ o.hna_list }))
    ])
  add_hosts rounds orig_ptr orig (drop 6 rest)

-- A buffer that is not there faults if a host is read from it.
unfoldable pub hna_add_buff : ℕ → M (Unit {0})
unfolding add_hosts orig_at
hna_add_buff orig_ptr = do
  o ← orig_at orig_ptr
  elim o.hna_buff [
    | HnaBuff.live bytes ↦ add_hosts (o.hna_buff_len / 6) orig_ptr o.orig bytes
    | _ ↦ (if o.hna_buff_len / 6 == 0 then return tt else lift none)
  ]

-- The buffer is freed, and the pointer to it stays; a second free faults.
unfoldable pub hna_del_buff : ℕ → M (Unit {0})
unfolding hna_remove_list orig_at store_orig
hna_del_buff orig_ptr = do
  o ← orig_at orig_ptr
  hna_remove_list o.hna_list
  o' ← orig_at orig_ptr
  elim o'.hna_buff [
    | HnaBuff.freed ↦ lift none
    | HnaBuff.null ↦ store_orig orig_ptr (record o' { hna_buff_len = 0 })
    | HnaBuff.live _ ↦
        store_orig orig_ptr (record o' { hna_buff = HnaBuff.freed; hna_buff_len = 0 })
  ]
