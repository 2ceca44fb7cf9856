-- ===== src/LinkedList/Unqueue.antt =====
-- list_del of list-batman.c on lists with a head.
use batman_adv_userspace.Base.{
  ℕ, ◌==◌, ◌≡◌, refl, true, false, Returns, List, [], ◌∷◌, ◌++◌, arith, listed, Distinct,
  listed-append, listed_apart, Distinct-left, Distinct-remove,
}
use mathlib.Core.List.{append-nil}
use batman_adv_userspace.LinkedList.Defs.{
  Links, write, next_of, prev_of, store_next, store_prev, list_unlink, list_del,
}
use batman_adv_userspace.LinkedList.Segment.{last, listed-last, last-append}
use batman_adv_userspace.LinkedList.Ring.{Distinct-listed, Place, place_lem}
use batman_adv_userspace.LinkedList.Queue.{
  Forward, IsList, Forward-write, Forward-write-last, Forward-join, Halves, Forward-split,
}

-- The parts around an entry of a list.
record Split (l : Links) (head e : ℕ) (xs ys : List ℕ) : Type 0 where
  halves : Halves l.next head xs e ys
  e_left : listed e (head ∷ xs) ≡ false
  e_right : listed e ys ≡ false
  e_allocated : (e == 0) ≡ false
  place : Place (last head xs) e
  p_out : listed (last head xs) ys ≡ false
  left : Distinct (head ∷ xs)
  distinct : Distinct (head ∷ xs ++ ys)
  allocated : listed 0 (head ∷ xs ++ ys) ≡ false

split_lem :
    (l : Links) (head e : ℕ) (xs ys : List ℕ) → IsList l head (xs ++ e ∷ ys) → Split l head e xs ys
unfolding listed
split_lem l head e xs ys L =
    let taken = Distinct-remove (head ∷ xs) ys e L.distinct in
    let e_left : listed e (head ∷ xs) ≡ false =
      ground (arith, taken.absent, listed-append e xs ys) in
    let full_left : listed 0 (head ∷ xs) ≡ false =
      ground (arith, L.allocated, listed-append 0 xs (e ∷ ys)) in
    record {
      halves = Forward-split l.next head e xs ys L.forward;
      e_left = e_left;
      e_right = ground (arith, taken.absent, listed-append e xs ys);
      e_allocated = ground (arith, L.allocated, listed-append 0 xs (e ∷ ys));
      place = place_lem head xs e e_left full_left;
      p_out = Distinct-listed (last head xs) (head ∷ xs) ys taken.distinct (listed-last head xs);
      left = Distinct-left (head ∷ xs) ys taken.distinct;
      distinct = taken.distinct;
      allocated = ground (arith, L.allocated, listed-append 0 xs (e ∷ ys), listed-append 0 xs ys);
    }

-- What list_del leaves when it is given the entry before `e`.
pub Deleted : Links → ℕ → ℕ → List ℕ → List ℕ → Type 0
Deleted l head e xs ys =
    Returns (list_del (last head xs) e head l)
      λ after. IsList after head (xs ++ ys) × (after.next e ≡ 0)

del_last :
    (l : Links) (head e : ℕ) (xs : List ℕ) → IsList l head (xs ++ e ∷ []) → Deleted l head e xs []
unfolding Deleted list_del next_of prev_of list_unlink store_next store_prev listed last write
del_last l head e xs L =
    let S = split_lem l head e xs [] L in
    let p = last head xs in
    let end : last head (xs ++ e ∷ []) ≡ e = last-append head e xs [] in
    let to_e : l.prev head ≡ e = rw (← end) L.head_prev in
    let from_e : l.next e ≡ head = rw (← end) L.last_next in
    let there : (head == 0) ≡ false = ground (arith, L.allocated) in
    let same : (e == e) ≡ true = ground arith in
    let after : Links = record {
      next = write e 0 (write p head l.next);
      prev = write head p l.prev;
    } in
    let kept =
      Forward-write e 0 _ head xs S.e_left
        (Forward-write-last head l.next head xs S.left S.halves.left) in
    (
      after,
      rw
          (
            list_del, next_of, prev_of, list_unlink, store_next, store_prev, there, to_e, same,
            S.e_allocated, from_e, S.place.allocated,
          )
          refl,
      (
        rw append-nil record {
          forward = kept;
          last_next = rw (write, S.place.to_new, write) (ground arith);
          head_prev = ground arith;
          distinct = S.left;
          allocated = rw (← append-nil xs) S.allocated;
        },
        ground arith,
      ),
    )

del_inside :
    (l : Links) (head e y : ℕ) (xs ys : List ℕ)
    → IsList l head (xs ++ e ∷ y ∷ ys)
    → Deleted l head e xs (y ∷ ys)
unfolding Deleted list_del next_of prev_of list_unlink store_next store_prev listed last write
    Forward
del_inside l head e y xs ys L =
    let S = split_lem l head e xs (y ∷ ys) L in
    let p = last head xs in
    let z = last y ys in
    let end : last head (xs ++ e ∷ y ∷ ys) ≡ z = last-append head e xs (y ∷ ys) in
    let to_z : l.prev head ≡ z = rw (← end) L.head_prev in
    let from_z : l.next z ≡ head = rw (← end) L.last_next in
    let (from_e, right) = S.halves.right in
    let there : (head == 0) ≡ false = ground (arith, L.allocated) in
    let z_e = listed_apart z e (y ∷ ys) (listed-last y ys) S.e_right in
    let z_p = listed_apart z p (y ∷ ys) (listed-last y ys) S.p_out in
    let before =
      Forward-write e 0 _ head xs S.e_left
        (Forward-write-last y l.next head xs S.left S.halves.left) in
    let after = Forward-write e 0 _ y ys S.e_right (Forward-write p y l.next y ys S.p_out right) in
    let joint : write e 0 (write p y l.next) p ≡ y =
      rw (write, S.place.to_new, write) (ground arith) in
    let new_end : last head (xs ++ y ∷ ys) ≡ z = last-append head y xs ys in
    (
      record { next = write e 0 (write p y l.next); prev = l.prev },
      rw
          (
            list_del, next_of, prev_of, list_unlink, store_next, store_prev, there, to_z, z_e,
            S.e_allocated, from_e, S.place.allocated,
          )
          refl,
      (
        record {
          forward = Forward-join _ head y xs ys before joint after;
          last_next = rw (new_end, write, z_e, write, z_p) from_z;
          head_prev = rw new_end to_z;
          distinct = S.distinct;
          allocated = S.allocated;
        },
        ground arith,
      ),
    )

-- list_del, given the entry before it, takes the entry out of the list and clears its link.
pub list_del_lem :
    (l : Links) (head e : ℕ) (xs ys : List ℕ)
    → IsList l head (xs ++ e ∷ ys)
    → Deleted l head e xs ys
list_del_lem l head e xs [] L = del_last l head e xs L
list_del_lem l head e xs (y ∷ ys) L = del_inside l head e y xs ys L
