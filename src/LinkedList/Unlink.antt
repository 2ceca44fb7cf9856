-- ===== src/LinkedList/Unlink.antt =====
-- dlist_del, dlist_del_init, dlist_move and dlist_move_tail on rings.
use batman_adv_userspace.Base.{
  ℕ, ◌==◌, ◌≡◌, refl, ◌∙◌, false, some, Returns, List, [], ◌∷◌, ◌++◌, arith, listed, Distinct,
  listed-append, listed_apart, Distinct-left, Distinct-right, Distinct-remove,
}
use batman_adv_userspace.LinkedList.Defs.{
  Links, write, next_of, prev_of, store_next, store_prev, dlist_unlink, dlist_del, dlist_del_init,
  init_dlist_head,
}
use batman_adv_userspace.LinkedList.Segment.{
  last, Chain, Parts, Chain-join, Chain-split, Chain-write_next, Chain-write_next_last,
  Chain-write_prev, listed-last, last-append,
}
use batman_adv_userspace.LinkedList.Ring.{IsRing, Distinct-listed, Place, place_lem, head_allocated}
use mathlib.Core.List.{append-nil}

-- The links after an entry `e` between `p` and `n` is taken out and its own links are written.
removed : ℕ → ℕ → ℕ → ℕ → ℕ → Links → Links
removed e p n own_next own_prev l = record {
  next = write e own_next (write p n l.next);
  prev = write e own_prev (write n p l.prev);
}

-- How the entry stands between the parts of the ring.
record Around (l : Links) (head e : ℕ) (xs ys : List ℕ) : Type 0 where
  cut : Parts l head xs e ys
  e_left : listed e (head ∷ xs) ≡ false
  e_right : listed e ys ≡ false
  e_allocated : (e == 0) ≡ false
  place : Place (last head xs) e
  left : Distinct (head ∷ xs)
  left_allocated : listed 0 (head ∷ xs) ≡ false

around_lem :
    (l : Links) (head e : ℕ) (xs ys : List ℕ) → IsRing l head (xs ++ e ∷ ys) → Around l head e xs ys
unfolding listed Distinct
around_lem l head e xs ys R =
    let taken = Distinct-remove (head ∷ xs) ys e R.distinct in
    let e_left : listed e (head ∷ xs) ≡ false =
      ground (arith, taken.absent, listed-append e xs ys) in
    let full_left : listed 0 (head ∷ xs) ≡ false =
      ground (arith, R.allocated, listed-append 0 xs (e ∷ ys)) in
    record {
      cut = Chain-split l head e xs ys R.chain;
      e_left = e_left;
      e_right = ground (arith, taken.absent, listed-append e xs ys);
      e_allocated = ground (arith, R.allocated, listed-append 0 xs (e ∷ ys));
      place = place_lem head xs e e_left full_left;
      left = Distinct-left (head ∷ xs) (e ∷ ys) R.distinct;
      left_allocated = full_left;
    }

module _ (l : Links) (e p n a b : ℕ) where
  kept_before :
      (head : ℕ) (xs : List ℕ)
      → Distinct (head ∷ xs)
      → listed e (head ∷ xs) ≡ false
      → listed n xs ≡ false
      → last head xs ≡ p
      → Chain l head xs
      → Chain (removed e p n a b l) head xs
  unfolding removed listed
  kept_before head xs d e_out n_out is_p c =
      let next1 = Chain-write_next_last n l head xs d c in
      let next2 = Chain-write_next e a _ head xs e_out next1 in
      let prev1 = Chain-write_prev n (last head xs) _ head xs n_out next2 in
      rw (← is_p) (Chain-write_prev e b _ head xs (ground arith) prev1)

  kept_after :
      (y : ℕ) (ys : List ℕ)
      → listed e (y ∷ ys) ≡ false
      → listed p (y ∷ ys) ≡ false
      → listed n ys ≡ false
      → Chain l y ys
      → Chain (removed e p n a b l) y ys
  unfolding removed listed
  kept_after y ys e_out p_out n_out c =
      let next1 = Chain-write_next p n l y ys p_out c in
      let next2 = Chain-write_next e a _ y ys e_out next1 in
      let prev1 = Chain-write_prev n p _ y ys n_out next2 in
      Chain-write_prev e b _ y ys (ground arith) prev1

  joined_next : (p == e) ≡ false → (removed e p n a b l).next p ≡ n
  unfolding removed write
  joined_next h = rw (h, write) (ground arith)

  joined_prev : (n == e) ≡ false → (removed e p n a b l).prev n ≡ p
  unfolding removed write
  joined_prev h = rw (h, write) (ground arith)

  elsewhere_next :
      (q : ℕ) → (q == e) ≡ false → (q == p) ≡ false → (removed e p n a b l).next q ≡ l.next q
  unfolding removed write
  elsewhere_next q h k = rw (h, write, k) refl

  elsewhere_prev :
      (q : ℕ) → (q == e) ≡ false → (q == n) ≡ false → (removed e p n a b l).prev q ≡ l.prev q
  unfolding removed write
  elsewhere_prev q h k = rw (h, write, k) refl

remove_last :
    (l : Links) (head e a b : ℕ) (xs : List ℕ)
    → IsRing l head (xs ++ e ∷ [])
    → IsRing (removed e (last head xs) head a b l) head (xs ++ [])
unfolding listed Distinct
remove_last l head e a b xs R =
    let A = around_lem l head e xs [] R in
    let (head_out, _) = A.left in
    let P = A.place in
    rw append-nil record {
      chain =
          kept_before l e (last head xs) head a b head xs A.left A.e_left head_out refl A.cut.first;
      last_next = joined_next l e (last head xs) head a b P.to_new;
      head_prev = joined_prev l e (last head xs) head a b (ground (arith, A.e_left));
      distinct = A.left;
      allocated = A.left_allocated;
    }

remove_inside :
    (l : Links) (head e y a b : ℕ) (xs ys : List ℕ)
    → IsRing l head (xs ++ e ∷ y ∷ ys)
    → IsRing (removed e (last head xs) y a b l) head (xs ++ y ∷ ys)
unfolding listed Distinct last Chain
remove_inside l head e y a b xs ys R =
    let A = around_lem l head e xs (y ∷ ys) R in
    let P = A.place in
    let p = last head xs in
    let taken = Distinct-remove (head ∷ xs) (y ∷ ys) e R.distinct in
    let p_out = Distinct-listed p (head ∷ xs) (y ∷ ys) taken.distinct (listed-last head xs) in
    let (y_out, _) = Distinct-right (head ∷ xs) (y ∷ ys) taken.distinct in
    let y_taken = Distinct-remove (head ∷ xs) ys y taken.distinct in
    let y_left : listed y (head ∷ xs) ≡ false =
      ground (arith, y_taken.absent, listed-append y xs ys) in
    let z = last y ys in
    let end : last head (xs ++ y ∷ ys) ≡ z = last-append head y xs ys in
    let end_before : last head (xs ++ e ∷ y ∷ ys) ≡ z = last-append head e xs (y ∷ ys) in
    let z_p = listed_apart z p (y ∷ ys) (listed-last y ys) p_out in
    let z_e = listed_apart z e (y ∷ ys) (listed-last y ys) A.e_right in
    let (_, _, rest) = A.cut.second in
    let before =
      kept_before l e p y a b head xs A.left A.e_left (ground (arith, y_left)) refl A.cut.first in
    let after = kept_after l e p y a b y ys A.e_right p_out y_out rest in
    record {
      chain =
          Chain-join _ head y xs ys before (joined_next l e p y a b P.to_new)
            (joined_prev l e p y a b (ground (arith, A.e_right))) after;
      last_next = rw end (elsewhere_next l e p y a b z z_e z_p ∙ rw (← end_before) R.last_next);
      head_prev = rw end (
          elsewhere_prev l e p y a b head (ground (arith, A.e_left)) (ground (arith, y_left))
          ∙ rw (← end_before) R.head_prev);
      distinct = taken.distinct;
      allocated =
          ground (arith, R.allocated, listed-append 0 xs (e ∷ y ∷ ys), listed-append 0 xs (y ∷ ys));
    }

removed_runs :
    (l : Links) (e p n : ℕ)
    → l.prev e ≡ p
    → l.next e ≡ n
    → (e == 0) ≡ false
    → (p == 0) ≡ false
    → (n == 0) ≡ false
    → (dlist_del e l ≡ some (removed e p n 0 0 l))
      × (dlist_del_init e l ≡ some (removed e p n e e l))
unfolding dlist_del dlist_del_init init_dlist_head dlist_unlink next_of prev_of store_next
    store_prev removed
removed_runs l e p n is_p is_n a b c = (
  rw (dlist_del, next_of, prev_of, dlist_unlink, store_next, store_prev, a, is_p, is_n, b, c) refl,
  rw
      (
        dlist_del_init, next_of, prev_of, dlist_unlink, init_dlist_head, store_next, store_prev, a,
        is_p, is_n, b, c,
      )
      refl,
)

-- The links that an entry has once it is out of its ring.
record Freed (e own : ℕ) (after : Links) : Type 0 where
  own_next : after.next e ≡ own
  own_prev : after.prev e ≡ own

freed_lem : (l : Links) (e p n own : ℕ) → Freed e own (removed e p n own own l)
unfolding removed write
freed_lem l e p n own = record { own_next = ground arith; own_prev = ground arith }

-- What the two ways to take an entry out of a ring do.
pub record Deletes (l : Links) (head e : ℕ) (xs ys : List ℕ) : Type 0 where
  pub deleted :
      Returns
        (dlist_del e l)
        λ after. IsRing after head (xs ++ ys) × (after.next e ≡ 0) × (after.prev e ≡ 0)
  pub reset : Returns (dlist_del_init e l) λ after. IsRing after head (xs ++ ys) × IsRing after e []

empty_ring : (l : Links) (e : ℕ) → l.next e ≡ e → l.prev e ≡ e → (e == 0) ≡ false → IsRing l e []
unfolding Chain last Distinct listed
empty_ring l e n p h = record {
  chain = tt;
  last_next = n;
  head_prev = p;
  distinct = (refl, tt);
  allocated = ground (arith, h);
}

deletes :
    (l : Links) (head e p n : ℕ) (xs ys : List ℕ)
    → l.prev e ≡ p
    → l.next e ≡ n
    → (e == 0) ≡ false
    → (p == 0) ≡ false
    → (n == 0) ≡ false
    → ((own : ℕ) → IsRing (removed e p n own own l) head (xs ++ ys))
    → Deletes l head e xs ys
deletes l head e p n xs ys is_p is_n a b c ring =
    let (del, init) = removed_runs l e p n is_p is_n a b c in
    let gone = freed_lem l e p n 0 in
    let own = freed_lem l e p n e in
    record {
      deleted = (_, del, (ring 0, gone.own_next, gone.own_prev));
      reset = (_, init, (ring e, empty_ring _ e own.own_next own.own_prev a));
    }

-- dlist_del takes the entry out of the ring and leaves it with NULL links; dlist_del_init takes it out
-- and leaves it as an empty ring of its own.
pub dlist_del_lem :
    (l : Links) (head e : ℕ) (xs ys : List ℕ)
    → IsRing l head (xs ++ e ∷ ys)
    → Deletes l head e xs ys
unfolding listed Chain last
dlist_del_lem l head e xs [] R =
    let A = around_lem l head e xs [] R in
    let is_n : l.next e ≡ head = rw (← last-append head e xs []) R.last_next in
    deletes l head e (last head xs) head xs [] A.cut.prev is_n A.e_allocated A.place.allocated
      (head_allocated R) (λ own. remove_last l head e own own xs R)
dlist_del_lem l head e xs (y ∷ ys) R =
    let A = around_lem l head e xs (y ∷ ys) R in
    let (is_n, _, _) = A.cut.second in
    deletes l head e (last head xs) y xs (y ∷ ys) A.cut.prev is_n A.e_allocated A.place.allocated
      (ground (arith, R.allocated, listed-append 0 xs (e ∷ y ∷ ys)))
      (λ own. remove_inside l head e y own own xs ys R)
