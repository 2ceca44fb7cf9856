-- ===== src/TransTable/Defs.antt =====
-- trans_table.c. The elements are a heap by address; the table holds references to them, and the lists
-- name them. `dlist_del` unlinks an element from whichever list it is in. `malloc` is taken to succeed.
-- The debugging output is not modelled.
use batman_adv_userspace.Base.{
  ℕ, ◌+◌, List, [], ◌∷◌, Bool, true, false, Option, none, some, ◌==◌, ◌&&◌, ◌||◌, if◌then◌else◌,
  bytes_eq, get_or, bit_and,
}
use batman_adv_userspace.Hash.{hash_find, hash_add, hash_remove, hash_new, hash_delete}
use batman_adv_userspace.Mesh.{
  Mac, TransElement, Ref, OrigNode, BatmanIf, M, ◌>>=◌, ◌>>◌, return, gets, lift, modify, at, put,
  free,
}
use batman_adv_userspace.Address.{mac_callbacks, compare_orig}

-- AGE_THRESHOLD and BATMAN_MAXFRAMESIZE: the Ethernet header of 14 bytes, and the larger of the two
-- payload headers, `struct bcast_packet` with 10.
abbrev pub age_threshold : ℕ
age_threshold = 3600000

abbrev pub batman_maxframesize : ℕ
batman_maxframesize = 14 + 10

abbrev pub bcast_addr : Mac
bcast_addr = 0xff ∷ 0xff ∷ 0xff ∷ 0xff ∷ 0xff ∷ 0xff ∷ []

abbrev pub zero_addr : Mac
zero_addr = 0 ∷ 0 ∷ 0 ∷ 0 ∷ 0 ∷ 0 ∷ []

-- The multicast range 01:00:5e:00:00:00 to 01:00:5e:7f:ff:ff.
unfoldable pub is_multicast_address : Mac → Bool
is_multicast_address mac =
    get_or mac 0 0 == 0x01
    && (get_or mac 1 0 == 0x00 && (get_or mac 2 0 == 0x5e && bit_and (get_or mac 3 0) 0x80 == 0))

-- The loop over the interfaces.
unfoldable pub is_my_mac : Mac → List BatmanIf → Bool
unfolding compare_orig
is_my_mac addr [] = false
is_my_mac addr (i ∷ ifs) = if compare_orig i.hw_addr addr == 0 then true else is_my_mac addr ifs

-- `hash_find(trans_hash, mac)`; the element is read through its pointer.
unfoldable pub find_elem : Mac → M (Option ℕ)
unfolding hash_find
find_elem mac h = elim (hash_find mac_callbacks h.trans_hash (record { ptr = 0; key = mac })) [
  | none ↦ none
  | some none ↦ some (none, h)
  | some (some r) ↦ some (some r.ptr, h)
]

unfoldable pub elem_at : ℕ → M TransElement
unfolding at
elem_at p h = elim (at p h.elems) [ none ↦ none | some e ↦ some (e, h) ]

unfoldable pub store_elem : ℕ → TransElement → M (Unit {0})
unfolding at put
store_elem p e h = elim (at p h.elems) [
  | none ↦ none
  | some _ ↦ some (tt, record h { elems = put p e h.elems })
]

unfoldable pub unlink : ℕ → List ℕ → List ℕ
unlink p [] = []
unlink p (q ∷ r) = if q == p then r else q ∷ unlink p r

unfoldable pub unlink_all : ℕ → List (ℕ × OrigNode) → List (ℕ × OrigNode)
unfolding unlink
unlink_all p [] = []
unlink_all p ((q, o) ∷ r) = (q, record o { hna_list = unlink p o.hna_list }) ∷ unlink_all p r

-- `dlist_del(&elem->list_link)`
unfoldable pub dlist_del : ℕ → M (Unit {0})
unfolding unlink unlink_all
dlist_del p h = some (tt, record h { hna_list = unlink p h.hna_list; origs = unlink_all p h.origs })

unfoldable pub hna_del : ℕ → M (Unit {0})
unfolding elem_at dlist_del free hash_remove
hna_del p = do
  e ← elem_at p
  dlist_del p
  h ← gets (λ h. h)
  (_, table) ← lift (hash_remove mac_callbacks h.trans_hash (record { ptr = p; key = e.mac }))
  modify (λ h. record h { trans_hash = table; elems = free p h.elems })

-- A new element for `mac`, linked in no list.
unfoldable pub new_elem : Mac → Mac → M (Unit {0})
unfolding hash_add
new_elem mac batman_mac = do
  h ← gets (λ h. h)
  (_, table) ← lift (hash_add mac_callbacks true h.trans_hash (record { ptr = h.next; key = mac }))
  modify (λ h. record h {
    elems = (h.next, record { mac = mac; batman_mac = batman_mac; age = h.curr_time }) ∷ h.elems;
    trans_hash = table;
    next = h.next + 1;
  })

-- True is the 0 of the code, false its -1. A host that moved loses its old element first.
unfoldable pub transtable_add : Mac → Mac → M Bool
unfolding find_elem elem_at hna_del new_elem is_multicast_address is_my_mac
transtable_add mac batman_mac =
    if bytes_eq mac bcast_addr || (bytes_eq mac zero_addr || is_multicast_address mac)
    then return false
    else (do
      found ← find_elem mac
      elim found [
        | none ↦ (do new_elem mac batman_mac; return true)
        | some p ↦ (do
          e ← elem_at p
          if bytes_eq batman_mac e.batman_mac then return false else (do
            hna_del p
            modify
                (λ h. record h { hna_changed = h.hna_changed || is_my_mac e.batman_mac h.if_list })
            new_elem mac batman_mac
            return true))
      ])

-- The address that announced `mac`; `none` is NULL.
unfoldable pub transtable_search : Mac → M (Option Mac)
unfolding find_elem elem_at
transtable_search mac = do
  found ← find_elem mac
  elim found [ none ↦ return none | some p ↦ (do e ← elem_at p; return (some e.batman_mac)) ]

-- The second half of `hna_add`, for an address that is not in the table.
unfoldable pub hna_add_new : Mac → Mac → M (Unit {0})
unfolding transtable_add find_elem elem_at store_elem
hna_add_new mac mymac = do
  _ ← transtable_add mac mymac
  found ← find_elem mac
  elim found [
    | none ↦ return tt
    | some p ↦ (do
      e ← elem_at p
      h ← gets (λ h. h)
      store_elem p (record e { age = h.curr_time })
      modify (λ h. record h { hna_list = p ∷ h.hna_list; hna_changed = true }))
  ]

unfoldable pub hna_add : Mac → Mac → M (Unit {0})
unfolding find_elem elem_at store_elem is_my_mac hna_del hna_add_new
hna_add mac mymac = do
  found ← find_elem mac
  elim found [
    | none ↦ hna_add_new mac mymac
    | some p ↦ (do
      e ← elem_at p
      h ← gets (λ h. h)
      if is_my_mac e.batman_mac h.if_list
          then store_elem p (record e { age = h.curr_time })
          else (do hna_del p; hna_add_new mac mymac))
  ]

-- The local list is empty, and the table of 4096 chains gets the node's own address; false where it
-- cannot be allocated.
unfoldable pub transtable_init : Bool → Bool → M Bool
unfolding hash_new hna_add
transtable_init control table = elim (hash_new {D = Ref} control table 4096) [
  | none ↦ (do modify (λ h. record h { hna_list = [] }); return false)
  | some trans ↦ (do
    modify (λ h. record h { hna_list = []; trans_hash = trans })
    h ← gets (λ h. h)
    elim h.if_list [ [] ↦ lift none | i ∷ _ ↦ (do hna_add i.hw_addr i.hw_addr; return true) ])
]

-- `free` as the callback of `hash_delete`: an element that is not allocated faults.
unfoldable pub free_elems : List Ref → M (Unit {0})
unfolding elem_at free
free_elems [] = return tt
free_elems (r ∷ rs) = do
  _ ← elem_at r.ptr
  modify (λ h. record h { elems = free r.ptr h.elems })
  free_elems rs

-- The table is freed with its elements, and not used any more.
unfoldable pub transtable_quit : M (Unit {0})
unfolding hash_delete free_elems
transtable_quit = do h ← gets (λ h. h); free_elems (hash_delete h.trans_hash)
