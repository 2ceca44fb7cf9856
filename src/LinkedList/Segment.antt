-- ===== src/LinkedList/Segment.antt =====
-- Chains of linked addresses, and what a write leaves of them.
use batman_adv_userspace.Base.{
  ℕ, ◌==◌, ◌≡◌, refl, true, false, List, [], ◌∷◌, ◌++◌, arith, listed, Distinct, listed_apart,
}
use batman_adv_userspace.LinkedList.Defs.{Links, write}

-- The last address of the list that starts with `a`.
unfoldable pub last : ℕ → List ℕ → ℕ
last a [] = a
last a (x ∷ xs) = last x xs

-- From `a` on, each address of the list is the next of the one before it, which is its previous one.
unfoldable pub Chain : Links → ℕ → List ℕ → Type 0
Chain l a [] = Unit
Chain l a (x ∷ xs) = (l.next a ≡ x) × (l.prev x ≡ a) × Chain l x xs

pub write_self : (p v : ℕ) (f : ℕ → ℕ) → write p v f p ≡ v
unfolding write
write_self p v f = ground arith

pub write_ne : (p v : ℕ) (f : ℕ → ℕ) (q : ℕ) → (q == p) ≡ false → write p v f q ≡ f q
unfolding write
write_ne p v f q h = rw h refl

pub listed-last : (a : ℕ) (xs : List ℕ) → listed (last a xs) (a ∷ xs) ≡ true
unfolding last listed
listed-last a [] = ground arith
listed-last a (x ∷ xs) = ground (arith, listed-last x xs)

pub last-append : (a y : ℕ) (xs ys : List ℕ) → last a (xs ++ y ∷ ys) ≡ last y ys
unfolding last
last-append a y [] ys = refl
last-append a y (x ∷ xs) ys = last-append x y xs ys

-- A chain in two parts.
pub Chain-join :
    (l : Links) (a y : ℕ) (xs ys : List ℕ)
    → Chain l a xs
    → l.next (last a xs) ≡ y
    → l.prev y ≡ last a xs
    → Chain l y ys
    → Chain l a (xs ++ y ∷ ys)
unfolding Chain last
Chain-join l a y [] ys c n p d = (n, p, d)
Chain-join l a y (x ∷ xs) ys (n0, p0, c) n p d = (n0, p0, Chain-join l x y xs ys c n p d)

pub record Parts (l : Links) (a : ℕ) (xs : List ℕ) (y : ℕ) (ys : List ℕ) : Type 0 where
  pub first : Chain l a xs
  pub next : l.next (last a xs) ≡ y
  pub prev : l.prev y ≡ last a xs
  pub second : Chain l y ys

pub Chain-split :
    (l : Links) (a y : ℕ) (xs ys : List ℕ) → Chain l a (xs ++ y ∷ ys) → Parts l a xs y ys
unfolding Chain last
Chain-split l a y [] ys (n, p, c) = record { first = tt; next = n; prev = p; second = c }
Chain-split l a y (x ∷ xs) ys (n, p, c) =
    let P = Chain-split l x y xs ys c in
    record { first = (n, p, P.first); next = P.next; prev = P.prev; second = P.second }

-- A chain does not depend on the next of its last address.
pub Chain-write_next :
    (p v : ℕ) (l : Links) (a : ℕ) (xs : List ℕ)
    → listed p (a ∷ xs) ≡ false
    → Chain l a xs
    → Chain (record l { next = write p v l.next }) a xs
unfolding Chain listed write
Chain-write_next p v l a [] h c = tt
Chain-write_next p v l a (x ∷ xs) h (n, q, c) =
    (ground arith, q, Chain-write_next p v l x xs (ground arith) c)

pub Chain-write_next_last :
    (v : ℕ) (l : Links) (a : ℕ) (xs : List ℕ)
    → Distinct (a ∷ xs)
    → Chain l a xs
    → Chain (record l { next = write (last a xs) v l.next }) a xs
unfolding Chain listed last Distinct write
Chain-write_next_last v l a [] d c = tt
Chain-write_next_last v l a (x ∷ xs) (new, d) (n, q, c) =
    let apart = listed_apart (last x xs) a (x ∷ xs) (listed-last x xs) new in
    (ground (arith, apart, n), q, Chain-write_next_last v l x xs d c)

-- Nor on the previous of its first.
pub Chain-write_prev :
    (p v : ℕ) (l : Links) (a : ℕ) (xs : List ℕ)
    → listed p xs ≡ false
    → Chain l a xs
    → Chain (record l { prev = write p v l.prev }) a xs
unfolding Chain listed write
Chain-write_prev p v l a [] h c = tt
Chain-write_prev p v l a (x ∷ xs) h (n, q, c) =
    (n, ground arith, Chain-write_prev p v l x xs (ground arith) c)
