-- ===== src/Clients/Change.antt =====
-- The debug lists where one client of the local socket changes.
use batman_adv_userspace.Base.{
  ℕ, ◌%◌, ◌^◌, ◌==◌, ◌≡◌, ◌∙◌, List, Option, none, some, false, inl, inr, arith, length, listed,
  Distinct,
}
use mathlib.Core.Path.{subst}
use batman_adv_userspace.Clients.Defs.{assign, UnixClient}
use batman_adv_userspace.Clients.Slots.{assign-all}
use batman_adv_userspace.Clients.Levels.{IsWatched, HasLevel, Watches, Apart}

-- A client that is still there has its socket.
unfoldable pub SameSock : ℕ → Option UnixClient → Type 0
SameSock s none = Unit
SameSock s (some d) = d.sock ≡ s

Apart-left :
    (p r : ℕ) (c : UnixClient) (o b : Option UnixClient)
    → SameSock c.sock o
    → Apart p r (some c) b
    → Apart p r o b
unfolding SameSock Apart
Apart-left p r c none b s A = tt
Apart-left p r c (some d) none s A = tt
Apart-left p r c (some d) (some b) s A = rw s A

Apart-right :
    (p r : ℕ) (c : UnixClient) (o b : Option UnixClient)
    → SameSock c.sock o
    → Apart p r b (some c)
    → Apart p r b o
unfolding SameSock Apart
Apart-right p r c o none s A = tt
Apart-right p r c none (some b) s A = tt
Apart-right p r c (some d) (some b) s A = rw s A

Apart-refl : (p : ℕ) (o : Option UnixClient) → Apart p p o o
unfolding Apart
Apart-refl p none = tt
Apart-refl p (some c) = inl (ground arith)

-- The invariant where one client changes, its socket kept, and lists and counts with it.
module _ (m p : ℕ) (c : UnixClient) (o : Option UnixClient) (clients : ℕ → Option UnixClient)
    (lists new_lists : ℕ → List ℕ) (nums new_nums : ℕ → ℕ) (W : IsWatched m clients lists nums)
    (e : clients p ≡ some c) (sock : SameSock c.sock o)
    (others : (fd i : ℕ)
      → (fd == c.sock) ≡ false
      → listed fd (new_lists i) ≡ listed fd (lists i)) where
  Watches-others :
      (q i : ℕ) (a : Option UnixClient)
      → (q == p) ≡ false
      → Apart q p a (some c)
      → Watches (lists i) i a
      → Watches (new_lists i) i a
  unfolding Watches Apart
  Watches-others q i none n A w = tt
  Watches-others q i (some d) n (inl s) w = absurd (ground (arith, n, s))
  Watches-others q i (some d) n (inr s) w = others d.sock i s ∙ w

  Apart-after : (q r : ℕ) → Apart q r (assign p o clients q) (assign p o clients r)
  Apart-after q r =
      assign-all (λ q a. Apart q r a (assign p o clients r)) p o clients
        (assign-all (λ r b. Apart p r o b) p o clients (Apart-refl p o)
          (λ r n.
            Apart-left p r c o (clients r) sock
              (subst (λ a. Apart p r a (clients r)) e (W.apart p r)))
          r)
        (λ q n.
          assign-all (λ r b. Apart q r (clients q) b) p o clients
            (Apart-right q p c o (clients q) sock (subst (Apart q p (clients q)) e (W.apart q p)))
            (λ r n. W.apart q r) r)
        q

  pub change-IsWatched :
      ((i : ℕ) → new_nums i ≡ length (new_lists i) % 2 ^ 16)
      → ((i : ℕ) → Distinct (new_lists i))
      → ((i : ℕ) → Watches (new_lists i) i o)
      → HasLevel m o
      → IsWatched m (assign p o clients) new_lists new_nums
  change-IsWatched counts distinct self level = record {
    counts = counts;
    distinct = distinct;
    levels = assign-all (λ q a. HasLevel m a) p o clients level (λ q n. W.levels q);
    watches = λ q i.
        assign-all (λ q a. Watches (new_lists i) i a) p o clients (self i)
          (λ q n.
            Watches-others q i (clients q) n (subst (Apart q p (clients q)) e (W.apart q p))
              (W.watches q i))
          q;
    apart = Apart-after;
  }
