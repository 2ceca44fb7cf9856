-- ===== src/LinkedList/Defs.antt =====
-- dlist.h and list-batman.c on a heap of links: `struct dlist_head` and `struct list_head_first` are
-- an address with both links, `struct list_head` one of which only `next` is used. Address 0 is NULL;
-- reading or writing a link of it is a fault.
use batman_adv_userspace.Base.{
  ℕ, zero, suc, ◌==◌, List, [], ◌∷◌, Bool, Option, none, some, if◌then◌else◌, ◌>>=◌,
}

pub record Links : Type 0 where
  pub next : ℕ → ℕ
  pub prev : ℕ → ℕ

-- A map with a new value at one address.
unfoldable pub write : ℕ → ℕ → (ℕ → ℕ) → ℕ → ℕ
write p v f q = if q == p then v else f q

unfoldable pub next_of : ℕ → Links → Option ℕ
next_of p l = if p == 0 then none else some (l.next p)

unfoldable pub prev_of : ℕ → Links → Option ℕ
prev_of p l = if p == 0 then none else some (l.prev p)

unfoldable pub store_next : ℕ → ℕ → Links → Option Links
store_next p v l = if p == 0 then none else some (record l { next = write p v l.next })

unfoldable pub store_prev : ℕ → ℕ → Links → Option Links
store_prev p v l = if p == 0 then none else some (record l { prev = write p v l.prev })

unfoldable pub init_dlist_head : ℕ → Links → Option Links
unfolding store_next store_prev
init_dlist_head ptr l = do l ← store_next ptr ptr l; store_prev ptr ptr l

-- `__dlist_add`
unfoldable pub dlist_insert : ℕ → ℕ → ℕ → Links → Option Links
unfolding store_next store_prev
dlist_insert new prev next l = do
  l ← store_prev next new l
  l ← store_next new next l
  l ← store_prev new prev l
  store_next prev new l

unfoldable pub dlist_add : ℕ → ℕ → Links → Option Links
unfolding next_of dlist_insert
dlist_add new head l = do next ← next_of head l; dlist_insert new head next l

unfoldable pub dlist_add_tail : ℕ → ℕ → Links → Option Links
unfolding prev_of dlist_insert
dlist_add_tail new head l = do prev ← prev_of head l; dlist_insert new prev head l

-- `__dlist_del`
unfoldable pub dlist_unlink : ℕ → ℕ → Links → Option Links
unfolding store_next store_prev
dlist_unlink prev next l = do l ← store_prev next prev l; store_next prev next l

unfoldable pub dlist_del : ℕ → Links → Option Links
unfolding prev_of next_of dlist_unlink store_next store_prev
dlist_del entry l = do
  prev ← prev_of entry l
  next ← next_of entry l
  l ← dlist_unlink prev next l
  l ← store_next entry 0 l
  store_prev entry 0 l

-- The link of a node before `pos_node`, or of `dlist` where that has none.
unfoldable pub dlist_add_before : ℕ → ℕ → ℕ → Links → Option Links
unfolding prev_of store_next store_prev
dlist_add_before dlist pos_node new_node l = do
  prev ← prev_of pos_node l
  l ← (if prev == 0 then store_next dlist new_node l else store_next prev new_node l)
  prev ← prev_of pos_node l
  l ← store_prev new_node prev l
  l ← store_next new_node pos_node l
  store_prev pos_node new_node l

unfoldable pub dlist_del_init : ℕ → Links → Option Links
unfolding prev_of next_of dlist_unlink init_dlist_head
dlist_del_init entry l = do
  prev ← prev_of entry l
  next ← next_of entry l
  l ← dlist_unlink prev next l
  init_dlist_head entry l

unfoldable pub dlist_move : ℕ → ℕ → Links → Option Links
unfolding prev_of next_of dlist_unlink dlist_add
dlist_move dlist head l = do
  prev ← prev_of dlist l
  next ← next_of dlist l
  l ← dlist_unlink prev next l
  dlist_add dlist head l

unfoldable pub dlist_move_tail : ℕ → ℕ → Links → Option Links
unfolding prev_of next_of dlist_unlink dlist_add_tail
dlist_move_tail dlist head l = do
  prev ← prev_of dlist l
  next ← next_of dlist l
  l ← dlist_unlink prev next l
  dlist_add_tail dlist head l

unfoldable pub dlist_empty : ℕ → Links → Option Bool
unfolding next_of
dlist_empty head l = do next ← next_of head l; some (next == head)

-- `__dlist_splice`
unfoldable pub dlist_join : ℕ → ℕ → Links → Option Links
unfolding next_of prev_of store_next store_prev
dlist_join dlist head l = do
  first ← next_of dlist l
  last ← prev_of dlist l
  at ← next_of head l
  l ← store_prev first head l
  l ← store_next head first l
  l ← store_next last at l
  store_prev at last l

unfoldable pub dlist_splice : ℕ → ℕ → Links → Option Links
unfolding dlist_empty dlist_join
dlist_splice dlist head l = do
  empty ← dlist_empty dlist l
  if empty then some l else dlist_join dlist head l

unfoldable pub dlist_splice_init : ℕ → ℕ → Links → Option Links
unfolding dlist_empty dlist_join init_dlist_head
dlist_splice_init dlist head l = do
  empty ← dlist_empty dlist l
  let joined = dlist_join dlist head l
  if empty then some l else (joined >>= init_dlist_head dlist)

-- `__list_add` and `__list_del` of list-batman.c
unfoldable pub list_insert : ℕ → ℕ → ℕ → Links → Option Links
unfolding store_next
list_insert new prev next l = do l ← store_next new next l; store_next prev new l

unfoldable pub list_unlink : ℕ → ℕ → Links → Option Links
unfolding store_next
list_unlink prev next l = store_next prev next l

unfoldable pub list_add : ℕ → ℕ → Links → Option Links
unfolding next_of prev_of store_prev list_insert
list_add new head l = do
  next ← next_of head l
  l ← list_insert new head next l
  prev ← prev_of head l
  if prev == head then store_prev head new l else some l

unfoldable pub list_add_tail : ℕ → ℕ → Links → Option Links
unfolding prev_of store_prev list_insert
list_add_tail new head l = do
  prev ← prev_of head l
  l ← list_insert new prev head l
  store_prev head new l

unfoldable pub list_add_before : ℕ → ℕ → ℕ → Links → Option Links
unfolding store_next
list_add_before prev_node next_node new_node l = do
  l ← store_next prev_node new_node l
  store_next new_node next_node l

unfoldable pub list_del : ℕ → ℕ → ℕ → Links → Option Links
unfolding next_of prev_of store_next store_prev list_unlink
list_del prev_entry entry head l = do
  prev ← prev_of head l
  l ← (if prev == entry then store_prev head prev_entry l else some l)
  next ← next_of entry l
  l ← list_unlink prev_entry next l
  store_next entry 0 l

unfoldable pub list_empty : ℕ → Links → Option Bool
unfolding next_of
list_empty head l = do next ← next_of head l; some (next == head)

-- `list_for_each` and `dlist_for_each` from `pos` on, as the entries that the loop body sees; on fuel.
unfoldable pub for_each : ℕ → ℕ → ℕ → Links → Option (List ℕ)
unfolding next_of
for_each zero pos head l = none
for_each (suc fuel) pos head l =
    let rest = next_of pos l >>= λ next. for_each fuel next head l in
    if pos == head then some [] else (rest >>= λ entries. some (pos ∷ entries))
