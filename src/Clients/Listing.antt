-- ===== src/Clients/Listing.antt =====
-- The listed clients, and what is behind the last one that leaves.
use batman_adv_userspace.Base.{
  ℕ, ◌==◌, ◌≡◌, refl, sym, ap, ◌∙◌, List, [], ◌∷◌, ◌++◌, Option, none, some, Bool, true, false, ◌⊎◌,
  inl, inr, ◌&&◌, ◌||◌, arith, Bool-cases, if◌then◌else◌, listed,
}
use batman_adv_userspace.Clients.Defs.{UnixIf}
use batman_adv_userspace.Clients.Thread.{Selected}
use batman_adv_userspace.Clients.Valid.{sock_of, Kept}

-- Is there nothing to read from a socket that is ready?
unfoldable pub gone : Selected → Option ℕ → Bool
gone s none = false
gone s (some sock) = s.ready sock && elim (s.reads sock) [ [] ↦ true | _ ∷ _ ↦ false ]

unfoldable pub leaves : Selected → UnixIf → ℕ → Bool
unfolding gone sock_of
leaves s u p = gone s (sock_of (u.clients p))

unfoldable pub any : (ℕ → Bool) → List ℕ → Bool
any f [] = false
any f (p ∷ r) = f p || any f r

-- The part of a list behind the last element with `f`, or all of it.
unfoldable pub behind_last : (ℕ → Bool) → List ℕ → List ℕ
unfolding any
behind_last f [] = []
behind_last f (p ∷ r) = if any f r then behind_last f r else (if f p then r else p ∷ r)

behind_last-all : (f : ℕ → Bool) (xs : List ℕ) → any f xs ≡ false → behind_last f xs ≡ xs
unfolding behind_last any
behind_last-all f [] a = refl
behind_last-all f (p ∷ r) a =
    let first : f p ≡ false = ground (arith, a) in
    let others : any f r ≡ false = ground (arith, a) in rw (others, first) refl

pub behind_last-whole :
    (f : ℕ → Bool) (xs : List ℕ) → (if any f xs then behind_last f xs else xs) ≡ behind_last f xs
behind_last-whole f xs = elim (Bool-cases (any f xs)) [
  | inl a ↦ rw a refl
  | inr a ↦ rw a (sym (behind_last-all f xs a))
]

-- Each client of the list is allocated.
unfoldable pub Present : UnixIf → List ℕ → Type 0
unfolding sock_of
Present u [] = Unit
Present u (p ∷ r) = ((sock : ℕ) × (sock_of (u.clients p) ≡ some sock)) × Present u r

pub Present-append :
    (u : UnixIf) (xs ys : List ℕ) → Present u xs → Present u ys → Present u (xs ++ ys)
unfolding Present
Present-append u [] ys P Q = Q
Present-append u (p ∷ xs) ys (s, P) Q = (s, Present-append u xs ys P Q)

pub Present-kept :
    (p : ℕ) (u v : UnixIf) (xs : List ℕ)
    → Kept p u v
    → listed p xs ≡ false
    → Present u xs
    → Present v xs
unfolding Present Kept listed
Present-kept p u v [] K h P = tt
Present-kept p u v (q ∷ r) K h ((n, e), P) =
    ((n, stays (K q)), Present-kept p u v r K (ground (arith, h)) P)
  where
    stays :
        ((q == p) ≡ true) ⊎ (sock_of (v.clients q) ≡ sock_of (u.clients q))
        → sock_of (v.clients q) ≡ some n
    stays (inl s) = absurd ground (arith, h, s)
    stays (inr s) = s ∙ e

-- Other clients leave as they did.
leaves-kept :
    (s : Selected) (p q : ℕ) (u v : UnixIf)
    → Kept p u v
    → (q == p) ≡ false
    → leaves s v q ≡ leaves s u q
unfolding leaves Kept
leaves-kept s p q u v K n = stays (K q)
  where
    stays :
        ((q == p) ≡ true) ⊎ (sock_of (v.clients q) ≡ sock_of (u.clients q))
        → gone s (sock_of (v.clients q)) ≡ gone s (sock_of (u.clients q))
    stays (inl e) = absurd ground (arith, n, e)
    stays (inr e) = ap (gone s) e

pub any-kept :
    (s : Selected) (p : ℕ) (u v : UnixIf) (xs : List ℕ)
    → Kept p u v
    → listed p xs ≡ false
    → any (leaves s v) xs ≡ any (leaves s u) xs
unfolding any listed
any-kept s p u v [] K h = refl
any-kept s p u v (q ∷ r) K h =
    rw (leaves-kept s p q u v K (ground (arith, h)), any-kept s p u v r K (ground (arith, h))) refl

pub behind_last-kept :
    (s : Selected) (p : ℕ) (u v : UnixIf) (xs : List ℕ)
    → Kept p u v
    → listed p xs ≡ false
    → behind_last (leaves s v) xs ≡ behind_last (leaves s u) xs
unfolding behind_last listed
behind_last-kept s p u v [] K h = refl
behind_last-kept s p u v (q ∷ r) K h =
    rw
      (
        leaves-kept s p q u v K (ground (arith, h)),
        any-kept s p u v r K (ground (arith, h)),
        behind_last-kept s p u v r K (ground (arith, h)),
      )
      refl
