-- ===== src/LinkedList/Queue.antt =====
-- list-batman.c on lists with a head: what each operation does to the sequence of entries.
use batman_adv_userspace.Base.{
  ℕ, suc, ◌==◌, ◌≡◌, refl, true, false, some, Returns, List, [], ◌∷◌, ◌++◌, arith, listed, Distinct,
  listed-append, listed_apart, Distinct-insert, length,
}
use mathlib.Core.List.{append-nil}
use batman_adv_userspace.LinkedList.Defs.{
  Links, write, next_of, prev_of, store_next, store_prev, list_insert, list_add, list_add_tail,
  list_empty, for_each,
}
use batman_adv_userspace.LinkedList.Segment.{last, listed-last, last-append}
use batman_adv_userspace.LinkedList.Extend.{is_nil}
use batman_adv_userspace.LinkedList.Ring.{place_lem}

-- From `a` on, each address of the list is the next of the one before it.
unfoldable pub Forward : (ℕ → ℕ) → ℕ → List ℕ → Type 0
Forward next a [] = Unit
Forward next a (x ∷ xs) = (next a ≡ x) × Forward next x xs

-- The entries `xs` in order from `head` and back to it; the head knows the last one.
pub record IsList (l : Links) (head : ℕ) (xs : List ℕ) : Type 0 where
  pub forward : Forward l.next head xs
  pub last_next : l.next (last head xs) ≡ head
  pub head_prev : l.prev head ≡ last head xs
  pub distinct : Distinct (head ∷ xs)
  pub allocated : listed 0 (head ∷ xs) ≡ false

pub Forward-write :
    (p v : ℕ) (next : ℕ → ℕ) (a : ℕ) (xs : List ℕ)
    → listed p (a ∷ xs) ≡ false
    → Forward next a xs
    → Forward (write p v next) a xs
unfolding Forward listed write
Forward-write p v next a [] h f = tt
Forward-write p v next a (x ∷ xs) h (n, f) =
    (ground arith, Forward-write p v next x xs (ground arith) f)

pub Forward-write-last :
    (v : ℕ) (next : ℕ → ℕ) (a : ℕ) (xs : List ℕ)
    → Distinct (a ∷ xs)
    → Forward next a xs
    → Forward (write (last a xs) v next) a xs
unfolding Forward listed last Distinct write
Forward-write-last v next a [] d f = tt
Forward-write-last v next a (x ∷ xs) (new, d) (n, f) =
    let apart = listed_apart (last x xs) a (x ∷ xs) (listed-last x xs) new in
    (ground (arith, apart, n), Forward-write-last v next x xs d f)

pub Forward-join :
    (next : ℕ → ℕ) (a y : ℕ) (xs ys : List ℕ)
    → Forward next a xs
    → next (last a xs) ≡ y
    → Forward next y ys
    → Forward next a (xs ++ y ∷ ys)
unfolding Forward last
Forward-join next a y [] ys f n g = (n, g)
Forward-join next a y (x ∷ xs) ys (m, f) n g = (m, Forward-join next x y xs ys f n g)

pub record Halves (next : ℕ → ℕ) (a : ℕ) (xs : List ℕ) (y : ℕ) (ys : List ℕ) : Type 0 where
  pub left : Forward next a xs
  pub between : next (last a xs) ≡ y
  pub right : Forward next y ys

pub Forward-split :
    (next : ℕ → ℕ) (a y : ℕ) (xs ys : List ℕ)
    → Forward next a (xs ++ y ∷ ys)
    → Halves next a xs y ys
unfolding Forward last
Forward-split next a y [] ys (n, f) = record { left = tt; between = n; right = f }
Forward-split next a y (x ∷ xs) ys (n, f) =
    let H = Forward-split next x y xs ys f in
    record { left = (n, H.left); between = H.between; right = H.right }

-- list_add_tail puts the entry behind the others.
pub list_add_tail_lem :
    (l : Links) (head new : ℕ) (xs : List ℕ)
    → IsList l head xs
    → listed new (head ∷ xs) ≡ false
    → (new == 0) ≡ false
    → Returns (list_add_tail new head l) λ after. IsList after head (xs ++ new ∷ [])
unfolding list_add_tail prev_of list_insert store_next store_prev listed Distinct last Forward write
list_add_tail_lem l head new xs L fresh full =
    let P = place_lem head xs new fresh L.allocated in
    let p = last head xs in
    let there : (head == 0) ≡ false = ground (arith, L.allocated) in
    let after : Links = record {
      next = write p new (write new head l.next);
      prev = write head new l.prev;
    } in
    let kept =
      Forward-write-last new (write new head l.next) head xs L.distinct
        (Forward-write new head l.next head xs fresh L.forward) in
    let end : last head (xs ++ new ∷ []) ≡ new = last-append head new xs [] in
    (
      after,
      rw
          (
            list_add_tail, prev_of, list_insert, store_next, store_prev, there, L.head_prev, full,
            P.allocated,
          )
          refl,
      record {
        forward = Forward-join _ head new xs [] kept (ground arith) tt;
        last_next = rw end (rw (write, P.from_new, write) (ground arith));
        head_prev = rw end (ground arith);
        distinct =
            Distinct-insert (head ∷ xs) [] new (rw append-nil L.distinct) (rw append-nil fresh);
        allocated = ground (arith, L.allocated, full, listed-append 0 xs (new ∷ []));
      },
    )

-- list_add puts the entry in front of the others.
pub list_add_lem :
    (l : Links) (head new : ℕ) (xs : List ℕ)
    → IsList l head xs
    → listed new (head ∷ xs) ≡ false
    → (new == 0) ≡ false
    → Returns (list_add new head l) λ after. IsList after head (new ∷ xs)
unfolding list_add next_of prev_of list_insert store_next store_prev listed Distinct last Forward
    write
list_add_lem l head new [] L fresh full =
    let there : (head == 0) ≡ false = ground (arith, L.allocated) in
    let same : (head == head) ≡ true = ground arith in
    (
      record { next = write head new (write new head l.next); prev = write head new l.prev },
      rw
          (
            list_add, next_of, prev_of, list_insert, store_next, store_prev, there, L.last_next,
            full, L.head_prev, same,
          )
          refl,
      record {
        forward = (ground arith, tt);
        last_next = ground (arith, fresh);
        head_prev = ground arith;
        distinct = (ground (arith, fresh), (refl, tt));
        allocated = ground (arith, there, full);
      },
    )
list_add_lem l head new (y ∷ ys) L fresh full =
    let there : (head == 0) ≡ false = ground (arith, L.allocated) in
    let (is_y, f) = L.forward in
    let (head_out, d) = L.distinct in
    let z = last y ys in
    let z_head = listed_apart z head (y ∷ ys) (listed-last y ys) head_out in
    let z_new = listed_apart z new (y ∷ ys) (listed-last y ys) (ground (arith, fresh)) in
    let kept =
      Forward-write head new _ y ys head_out
        (Forward-write new y l.next y ys (ground (arith, fresh)) f) in
    (
      record { next = write head new (write new y l.next); prev = l.prev },
      rw
          (
            list_add, next_of, prev_of, list_insert, store_next, store_prev, there, is_y, full,
            L.head_prev, z_head,
          )
          refl,
      record {
        forward = (ground arith, (ground (arith, fresh), kept));
        last_next = rw (write, z_head, write, z_new) L.last_next;
        head_prev = L.head_prev;
        distinct = (ground (arith, fresh, head_out), (ground (arith, fresh), d));
        allocated = ground (arith, L.allocated, full);
      },
    )

walks :
    (l : Links) (head a : ℕ) (xs : List ℕ)
    → Forward l.next a xs
    → l.next (last a xs) ≡ head
    → listed head xs ≡ false
    → listed 0 (a ∷ xs) ≡ false
    → for_each (suc (length xs)) (l.next a) head l ≡ some xs
unfolding for_each next_of Forward last listed
walks l head a [] f n h full = rw n (ground arith)
walks l head a (x ∷ xs) (m, f) n h full =
    let apart : (x == head) ≡ false = ground (arith, h) in
    let there : (x == 0) ≡ false = ground (arith, full) in
    let rest = walks l head x xs f n (ground (arith, h)) (ground (arith, full)) in
    rw (m, for_each, next_of, apart, there, rest) refl

-- list_for_each sees the entries in order and ends after as many steps as there are entries, and one
-- more for the head.
pub for_each_lem :
    (l : Links) (head : ℕ) (xs : List ℕ)
    → IsList l head xs
    → for_each (suc (length xs)) (l.next head) head l ≡ some xs
unfolding listed Distinct
for_each_lem l head xs L =
    let (head_out, _) = L.distinct in
    walks l head head xs L.forward L.last_next head_out L.allocated

list_empty_lem :
    (l : Links) (head : ℕ) (xs : List ℕ) → IsList l head xs → list_empty head l ≡ some (is_nil xs)
unfolding list_empty next_of is_nil last Forward listed Distinct
list_empty_lem l head [] L =
    let there : (head == 0) ≡ false = ground (arith, L.allocated) in
    rw (list_empty, next_of, there, L.last_next) (ground arith)
list_empty_lem l head (x ∷ xs) L =
    let there : (head == 0) ≡ false = ground (arith, L.allocated) in
    let (is_x, _) = L.forward in
    let (out, _) = L.distinct in rw (list_empty, next_of, there, is_x) (ground (arith, out))

-- What the operations of list-batman.c do on a list with the entries `xs`, for a new entry.
pub record Keeps (l : Links) (head new : ℕ) (xs : List ℕ) : Type 0 where
  pub front : Returns (list_add new head l) λ after. IsList after head (new ∷ xs)
  pub back : Returns (list_add_tail new head l) λ after. IsList after head (xs ++ new ∷ [])
  pub empty : list_empty head l ≡ some (is_nil xs)
  pub walk : for_each (suc (length xs)) (l.next head) head l ≡ some xs

-- On a list list_add puts a new entry in front of the others, list_add_tail behind them, list_empty
-- tells whether there are any, and list_for_each sees them in order and ends after one step more than
-- there are entries.
pub list_lem :
    (l : Links) (head new : ℕ) (xs : List ℕ)
    → IsList l head xs
    → listed new (head ∷ xs) ≡ false
    → (new == 0) ≡ false
    → Keeps l head new xs
list_lem l head new xs L fresh full = record {
  front = list_add_lem l head new xs L fresh full;
  back = list_add_tail_lem l head new xs L fresh full;
  empty = list_empty_lem l head xs L;
  walk = for_each_lem l head xs L;
}
