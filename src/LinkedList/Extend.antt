-- ===== src/LinkedList/Extend.antt =====
-- dlist_add, dlist_add_tail and dlist_empty on rings.
use batman_adv_userspace.Base.{
  ℕ, ◌==◌, ◌≡◌, refl, Bool, true, false, some, Returns, List, [], ◌∷◌, ◌++◌, arith, listed,
  Distinct,
}
use batman_adv_userspace.LinkedList.Defs.{
  Links, next_of, prev_of, store_next, store_prev, dlist_insert, dlist_add, dlist_add_tail,
  dlist_empty,
}
use batman_adv_userspace.LinkedList.Segment.{last, Chain}
use batman_adv_userspace.LinkedList.Ring.{
  IsRing, place_lem, head_allocated, inserted, insert_at_end, insert_inside,
}

add_runs :
    (l : Links) (head new n : ℕ)
    → l.next head ≡ n
    → (head == 0) ≡ false
    → (new == 0) ≡ false
    → (n == 0) ≡ false
    → dlist_add new head l ≡ some (inserted new head n l)
unfolding dlist_add dlist_insert next_of store_next store_prev inserted
add_runs l head new n is a b c =
    rw (dlist_add, next_of, dlist_insert, store_next, store_prev, a, is, b, c) refl

add_tail_runs :
    (l : Links) (head new p : ℕ)
    → l.prev head ≡ p
    → (head == 0) ≡ false
    → (new == 0) ≡ false
    → (p == 0) ≡ false
    → dlist_add_tail new head l ≡ some (inserted new p head l)
unfolding dlist_add_tail dlist_insert prev_of store_next store_prev inserted
add_tail_runs l head new p is a b c =
    rw (dlist_add_tail, prev_of, dlist_insert, store_next, store_prev, a, is, b, c) refl

-- dlist_add puts the entry in front of the others.
pub dlist_add_lem :
    (l : Links) (head new : ℕ) (xs : List ℕ)
    → IsRing l head xs
    → listed new (head ∷ xs) ≡ false
    → (new == 0) ≡ false
    → Returns (dlist_add new head l) λ after. IsRing after head (new ∷ xs)
unfolding dlist_add next_of listed last Chain
dlist_add_lem l head new [] R fresh full = (
  inserted new head head l,
  let there = head_allocated R in add_runs l head new head R.last_next there full there,
  insert_at_end l head new [] R fresh full,
)
dlist_add_lem l head new (y ∷ ys) R fresh full = (
  inserted new head y l,
  let there = head_allocated R in
      let (is_y, _, _) = R.chain in
      add_runs l head new y is_y there full (ground (arith, R.allocated)),
  insert_inside l head new y [] ys R fresh full,
)

-- dlist_add_tail puts the entry behind the others.
pub dlist_add_tail_lem :
    (l : Links) (head new : ℕ) (xs : List ℕ)
    → IsRing l head xs
    → listed new (head ∷ xs) ≡ false
    → (new == 0) ≡ false
    → Returns (dlist_add_tail new head l) λ after. IsRing after head (xs ++ new ∷ [])
unfolding dlist_add_tail prev_of listed
dlist_add_tail_lem l head new xs R fresh full = (
  inserted new (last head xs) head l,
  let there = head_allocated R in
      let P = place_lem head xs new fresh R.allocated in
      add_tail_runs l head new (last head xs) R.head_prev there full P.allocated,
  insert_at_end l head new xs R fresh full,
)

unfoldable pub is_nil : List ℕ → Bool
is_nil [] = true
is_nil (x ∷ xs) = false

dlist_empty_lem :
    (l : Links) (head : ℕ) (xs : List ℕ) → IsRing l head xs → dlist_empty head l ≡ some (is_nil xs)
unfolding dlist_empty next_of is_nil last Chain listed Distinct
dlist_empty_lem l head [] R =
    let there = head_allocated R in rw (dlist_empty, next_of, there, R.last_next) (ground arith)
dlist_empty_lem l head (x ∷ xs) R =
    let there = head_allocated R in
    let (is_x, _, _) = R.chain in
    let (out, _) = R.distinct in rw (dlist_empty, next_of, there, is_x) (ground (arith, out))

-- What the operations of dlist.h do on a ring with the entries `xs`, for a new entry.
pub record Serves (l : Links) (head new : ℕ) (xs : List ℕ) : Type 0 where
  pub front : Returns (dlist_add new head l) λ after. IsRing after head (new ∷ xs)
  pub back : Returns (dlist_add_tail new head l) λ after. IsRing after head (xs ++ new ∷ [])
  pub empty : dlist_empty head l ≡ some (is_nil xs)

-- On a ring dlist_add puts a new entry in front of the others, dlist_add_tail behind them, and
-- dlist_empty tells whether there are any.
pub dlist_lem :
    (l : Links) (head new : ℕ) (xs : List ℕ)
    → IsRing l head xs
    → listed new (head ∷ xs) ≡ false
    → (new == 0) ≡ false
    → Serves l head new xs
dlist_lem l head new xs R fresh full = record {
  front = dlist_add_lem l head new xs R fresh full;
  back = dlist_add_tail_lem l head new xs R fresh full;
  empty = dlist_empty_lem l head xs R;
}
