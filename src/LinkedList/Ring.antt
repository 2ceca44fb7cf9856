-- ===== src/LinkedList/Ring.antt =====
-- dlist.h on rings: what each operation does to the sequence of entries.
use batman_adv_userspace.Base.{
  ℕ, ◌==◌, ◌≡◌, refl, ◌∙◌, true, false, List, [], ◌∷◌, ◌++◌, inl, inr, Bool-cases, ==_iff, arith,
  listed, Distinct, listed-append, listed_apart, Distinct-insert, Distinct-remove, Distinct-left,
  Distinct-right,
}
use mathlib.Core.List.{append-nil}
use batman_adv_userspace.LinkedList.Defs.{Links, write}
use batman_adv_userspace.LinkedList.Segment.{
  last, Chain, Chain-join, Chain-split, Chain-write_next, Chain-write_next_last, Chain-write_prev,
  listed-last, last-append,
}

-- The entries `xs` in order between `head` and `head`, linked in both directions.
pub record IsRing (l : Links) (head : ℕ) (xs : List ℕ) : Type 0 where
  pub chain : Chain l head xs
  pub last_next : l.next (last head xs) ≡ head
  pub head_prev : l.prev head ≡ last head xs
  pub distinct : Distinct (head ∷ xs)
  pub allocated : listed 0 (head ∷ xs) ≡ false

pub head_allocated : {l : Links} {head : ℕ} {xs : List ℕ} → IsRing l head xs → (head == 0) ≡ false
unfolding listed
head_allocated R = ground (arith, R.allocated)

unfoldable pub inserted : ℕ → ℕ → ℕ → Links → Links
inserted new p n l = record {
  next = write p new (write new n l.next);
  prev = write new p (write n new l.prev);
}

module _ (l : Links) (new p n : ℕ) where
  front_kept :
      (head : ℕ) (xs : List ℕ)
      → Distinct (head ∷ xs)
      → listed new (head ∷ xs) ≡ false
      → listed n xs ≡ false
      → last head xs ≡ p
      → Chain l head xs
      → Chain (inserted new p n l) head xs
  unfolding inserted listed
  front_kept head xs d fresh n_out is_p c =
      let next1 = Chain-write_next new n l head xs fresh c in
      let next2 = Chain-write_next_last new _ head xs d next1 in
      let prev1 = Chain-write_prev n new _ head xs n_out next2 in
      rw (← is_p) (Chain-write_prev new (last head xs) _ head xs (ground arith) prev1)

  rear_kept :
      (y : ℕ) (ys : List ℕ)
      → listed new (y ∷ ys) ≡ false
      → listed p (y ∷ ys) ≡ false
      → listed n ys ≡ false
      → Chain l y ys
      → Chain (inserted new p n l) y ys
  unfolding inserted listed
  rear_kept y ys fresh p_out n_out c =
      let next1 = Chain-write_next new n l y ys fresh c in
      let next2 = Chain-write_next p new _ y ys p_out next1 in
      let prev1 = Chain-write_prev n new _ y ys n_out next2 in
      Chain-write_prev new p _ y ys (ground arith) prev1

pub Distinct-listed :
    (p : ℕ) (xs ys : List ℕ) → Distinct (xs ++ ys) → listed p xs ≡ true → listed p ys ≡ false
unfolding listed Distinct
Distinct-listed p [] ys d h = absurd ground (arith, h)
Distinct-listed p (x ∷ xs) ys (new, d) h = elim (Bool-cases (x == p)) [
  | inl e ↦ ground (arith, listed-append x xs ys, e, (==_iff x p).0 e, new)
  | inr e ↦ Distinct-listed p xs ys d (ground arith)
]

-- The last address of a part of the ring is neither a new one nor NULL.
pub record Place (p new : ℕ) : Type 0 where
  pub from_new : (new == p) ≡ false
  pub to_new : (p == new) ≡ false
  pub allocated : (p == 0) ≡ false

pub place_lem :
    (head : ℕ) (xs : List ℕ) (new : ℕ)
    → listed new (head ∷ xs) ≡ false
    → listed 0 (head ∷ xs) ≡ false
    → Place (last head xs) new
place_lem head xs new fresh full =
    let there = listed-last head xs in
    let apart = listed_apart (last head xs) new (head ∷ xs) there fresh in
    record {
      from_new = ground (arith, apart);
      to_new = apart;
      allocated = listed_apart (last head xs) 0 (head ∷ xs) there full;
    }

-- The links at the new entry and beside it.
record Beside (new p n : ℕ) (l : Links) : Type 0 where
  before_next : l.next p ≡ new
  new_prev : l.prev new ≡ p
  new_next : l.next new ≡ n
  after_prev : l.prev n ≡ new

beside_lem :
    (l : Links) (new p n : ℕ)
    → (new == p) ≡ false
    → (new == n) ≡ false
    → Beside new p n (inserted new p n l)
unfolding inserted write
beside_lem l new p n a b = record {
  before_next = ground arith;
  new_prev = ground arith;
  new_next = rw (a, write) (ground arith);
  after_prev = ground (arith, b);
}

module _ (l : Links) (new p n q : ℕ) where
  next_elsewhere : (q == p) ≡ false → (q == new) ≡ false → (inserted new p n l).next q ≡ l.next q
  unfolding inserted write
  next_elsewhere a b = rw (a, write, b) refl

  prev_elsewhere : (q == new) ≡ false → (q == n) ≡ false → (inserted new p n l).prev q ≡ l.prev q
  unfolding inserted write
  prev_elsewhere a b = rw (a, write, b) refl

-- A new entry after the last one.
pub insert_at_end :
    (l : Links) (head new : ℕ) (xs : List ℕ)
    → IsRing l head xs
    → listed new (head ∷ xs) ≡ false
    → (new == 0) ≡ false
    → IsRing (inserted new (last head xs) head l) head (xs ++ new ∷ [])
unfolding listed Distinct last Chain
insert_at_end l head new xs R fresh full =
    let P = place_lem head xs new fresh R.allocated in
    let (head_out, _) = R.distinct in
    let B = beside_lem l new (last head xs) head P.from_new (ground arith) in
    let before =
      front_kept l new (last head xs) head head xs R.distinct fresh head_out refl R.chain in
    let new_last : last head (xs ++ new ∷ []) ≡ new = last-append head new xs [] in
    record {
      chain = Chain-join _ head new xs [] before B.before_next B.new_prev tt;
      last_next = rw new_last B.new_next;
      head_prev = rw new_last B.after_prev;
      distinct =
          Distinct-insert (head ∷ xs) [] new (rw append-nil R.distinct) (rw append-nil fresh);
      allocated = ground (arith, R.allocated, full, listed-append 0 xs (new ∷ []));
    }

-- A new entry between the last address of a part of the ring and the entry that follows.
pub insert_inside :
    (l : Links) (head new y : ℕ) (xs ys : List ℕ)
    → IsRing l head (xs ++ y ∷ ys)
    → listed new (head ∷ xs ++ y ∷ ys) ≡ false
    → (new == 0) ≡ false
    → IsRing (inserted new (last head xs) y l) head (xs ++ new ∷ y ∷ ys)
unfolding listed Distinct last Chain
insert_inside l head new y xs ys R fresh full =
    let p = last head xs in
    let cut = Chain-split l head y xs ys R.chain in
    let fresh_left : listed new (head ∷ xs) ≡ false =
      ground (arith, fresh, listed-append new xs (y ∷ ys)) in
    let fresh_right : listed new (y ∷ ys) ≡ false =
      ground (arith, fresh, listed-append new xs (y ∷ ys)) in
    let full_left : listed 0 (head ∷ xs) ≡ false =
      ground (arith, R.allocated, listed-append 0 xs (y ∷ ys)) in
    let p_out : listed p (y ∷ ys) ≡ false =
      Distinct-listed p (head ∷ xs) (y ∷ ys) R.distinct (listed-last head xs) in
    let (y_out, _) = Distinct-right (head ∷ xs) (y ∷ ys) R.distinct in
    let y_left : listed y (head ∷ xs) ≡ false =
      let taken = Distinct-remove (head ∷ xs) ys y R.distinct in
      ground (arith, taken.absent, listed-append y xs ys) in
    let P = place_lem head xs new fresh_left full_left in
    let B = beside_lem l new p y P.from_new (ground (arith, fresh_right)) in
    let left = Distinct-left (head ∷ xs) (y ∷ ys) R.distinct in
    let z = last y ys in
    let end : last head (xs ++ new ∷ y ∷ ys) ≡ z = last-append head new xs (y ∷ ys) in
    let end_before : last head (xs ++ y ∷ ys) ≡ z = last-append head y xs ys in
    let z_p = listed_apart z p (y ∷ ys) (listed-last y ys) p_out in
    let z_new = listed_apart z new (y ∷ ys) (listed-last y ys) fresh_right in
    let before =
      front_kept l new p y head xs left fresh_left (ground (arith, y_left)) refl cut.first in
    let after = rear_kept l new p y y ys fresh_right p_out y_out cut.second in
    record {
      chain =
          Chain-join _ head new xs (y ∷ ys) before B.before_next B.new_prev
            (B.new_next, B.after_prev, after);
      last_next = rw end (next_elsewhere l new p y z z_p z_new ∙ rw (← end_before) R.last_next);
      head_prev = rw end (
          prev_elsewhere l new p y head (ground (arith, fresh)) (ground (arith, y_left))
          ∙ rw (← end_before) R.head_prev);
      distinct = Distinct-insert (head ∷ xs) (y ∷ ys) new R.distinct fresh;
      allocated = ground (
        arith,
        R.allocated,
        full,
        listed-append 0 xs (y ∷ ys),
        listed-append 0 xs (new ∷ y ∷ ys),
      );
    }
