-- ===== src/Clients/Accept.antt =====
-- posix-specific.c, a new client of `unix_listen`.
use batman_adv_userspace.Base.{
  ℕ, suc, ◌+◌, ◌==◌, ◌≡◌, ◌≢◌, refl, sym, ap, ◌∙◌, List, [], ◌∷◌, Option, none, some, false, inl,
  inr, arith, Bool-cases, ==_iff, listed, Distinct, Distinct-insert,
}
use mathlib.Core.Path.{subst}
use mathlib.Core.List.{append-nil}
use batman_adv_userspace.Clients.Defs.{assign, UnixClient, UnixIf}
use batman_adv_userspace.Clients.Slots.{assign_self, assign-ne, assign-all}
use batman_adv_userspace.Clients.Thread.{accept_client}
use batman_adv_userspace.Clients.Slots.{Owned, Holds}
use batman_adv_userspace.Clients.Levels.{IsWatched, HasLevel, Watches, Apart}
use batman_adv_userspace.Clients.Valid.{IsValid, sock_of}
use batman_adv_userspace.Clients.Listing.{Present, Present-append}

-- The descriptor is no client's.
unfoldable pub OtherSock : ℕ → Option UnixClient → Type 0
OtherSock sock none = Unit
OtherSock sock (some d) = (sock == d.sock) ≡ false

-- What the system promises of a descriptor that `accept` returns: it was not open.
pub record IsUnused (u : UnixIf) (sock : ℕ) : Type 0 where
  pub clients : (p : ℕ) → OtherSock sock (u.clients p)
  pub descriptors : (i : ℕ) → listed sock (u.fd_list i) ≡ false

unfoldable pub Accepts : UnixIf → Option ℕ → Type 0
Accepts u none = Unit
Accepts u (some sock) = IsUnused u sock

-- The listed clients are allocated, and none is listed twice.
pub record IsListed (m : ℕ) (u : UnixIf) : Type 0 where
  pub valid : IsValid m u
  pub present : Present u u.client_list
  pub distinct : Distinct u.client_list

-- An address that is not allocated, and a client that is.
apart_new :
    (p q : ℕ) (o : Option UnixClient) {sock : ℕ} (clients : ℕ → Option UnixClient)
    → clients p ≡ none
    → sock_of (clients q) ≡ some sock
    → (q == p) ≡ false
unfolding sock_of
apart_new p q o clients e f = elim (Bool-cases (q == p)) [
  | inr n ↦ n
  | inl s ↦ absurd (some_is_none (sym f ∙ ap sock_of (ap clients ((==_iff q p).0 s) ∙ e)))
]
  where
    some_is_none : {n : ℕ} → some n ≢ none
    some_is_none = λ e. cc e

module _ (m p sock : ℕ) (u : UnixIf) (V : IsValid m u) (free : u.clients p ≡ none)
    (N : IsUnused u sock) where
  abbrev new_client : Option UnixClient
  new_client = some (record { sock = sock; debug_level = 0; uid = 0 })

  abbrev with_client : ℕ → Option UnixClient
  with_client = assign p new_client u.clients

  Owned-new : (i : ℕ) (o : Option ℕ) → Owned u.clients i o → Owned with_client i o
  unfolding Owned sock_of
  Owned-new i none O = tt
  Owned-new i (some q) (d, e, f) =
      let n = apart_new p q new_client {sock = d.sock} u.clients free (ap sock_of e) in
      (d, assign-ne p q new_client u.clients n ∙ e, f)

  Holds-new : (q : ℕ) → Holds u.unix_packet q (with_client q)
  unfolding Holds
  Holds-new =
      assign-all (λ q o. Holds u.unix_packet q o) p new_client u.clients (inl refl)
        (λ q n. V.slotted.holds q)

  new_right : (q : ℕ) (o : Option UnixClient) → OtherSock sock o → Apart q p o new_client
  unfolding Apart OtherSock
  new_right q none h = tt
  new_right q (some d) h = inr (ground (arith, h))

  new_left : (q : ℕ) (o : Option UnixClient) → OtherSock sock o → Apart p q new_client o
  unfolding Apart OtherSock
  new_left q none h = tt
  new_left q (some d) h = inr h

  watched_new : IsWatched m with_client u.fd_list u.clients_num
  unfolding HasLevel Watches Apart
  watched_new = record {
    counts = V.watched.counts;
    distinct = V.watched.distinct;
    levels =
        assign-all (λ q o. HasLevel m o) p new_client u.clients (inl refl)
          (λ q n. V.watched.levels q);
    watches = λ q i.
        assign-all (λ q o. Watches (u.fd_list i) i o) p new_client u.clients
          (N.descriptors i ∙ ground arith) (λ q n. V.watched.watches q i) q;
    apart = λ q r.
        assign-all (λ q o. Apart q r o (with_client r)) p new_client u.clients
          (assign-all (λ r o. Apart p r new_client o) p new_client u.clients (inl (ground arith))
            (λ r n. new_left r (u.clients r) (N.clients r)) r)
          (λ q n.
            assign-all (λ r o. Apart q r (u.clients q) o) p new_client u.clients
              (new_right q (u.clients q) (N.clients q)) (λ r n. V.watched.apart q r) r)
          q;
  }

-- The clients of a list stay where they are beside a new one, which is not among them.
Present-new :
    (p : ℕ) (o : Option UnixClient) (u v : UnixIf) (xs : List ℕ)
    → u.clients p ≡ none
    → v.clients ≡ assign p o u.clients
    → Present u xs
    → (listed p xs ≡ false) × Present v xs
unfolding Present listed
Present-new p o u v [] free e P = (refl, tt)
Present-new p o u v (q ∷ r) free e ((n, f), P) =
    let (out, Q) = Present-new p o u v r free e P in
    let other : (q == p) ≡ false = apart_new p q o u.clients free f in
    (rw other out, ((n, ap sock_of (ap (λ g. g q) e ∙ assign-ne p q o u.clients other) ∙ f), Q))

pub Present-same :
    (u v : UnixIf) (xs : List ℕ) → v.clients ≡ u.clients → Present u xs → Present v xs
unfolding Present
Present-same u v [] e P = tt
Present-same u v (q ∷ r) e ((n, f), P) =
    ((n, ap sock_of (ap (λ g. g q) e) ∙ f), Present-same u v r e P)

fresh_next :
    (next : ℕ) (clients : ℕ → Option UnixClient)
    → ((k : ℕ) → clients (next + k) ≡ none)
    → (k : ℕ) → clients (next + 1 + k) ≡ none
fresh_next next clients free k =
    let at : next + (1 + k) ≡ next + 1 + k = omega arith in
    subst (λ n. clients n ≡ none) at (free (1 + k))

-- A connection, accepted or not, keeps what holds of the clients.
pub accept_client_lem :
    (m : ℕ) (accepted : Option ℕ) (u : UnixIf)
    → IsListed m u
    → Accepts u accepted
    → IsListed m (accept_client accepted u)
unfolding accept_client Accepts Present sock_of
accept_client_lem m none u L N = record {
  valid = record {
    slotted = record { owned = L.valid.slotted.owned; holds = L.valid.slotted.holds };
    watched = L.valid.watched;
    fresh = fresh_next u.next u.clients L.valid.fresh;
  };
  present = Present-same u (accept_client none u) u.client_list refl L.present;
  distinct = L.distinct;
}
accept_client_lem m (some sock) u L N =
    let at : u.next + 0 ≡ u.next = omega arith in
    let free : u.clients u.next ≡ none = subst (λ n. u.clients n ≡ none) at (L.valid.fresh 0) in
    let v = accept_client (some sock) u in
    let o = some (record { sock = sock; debug_level = 0; uid = 0 }) in
    let (out, P) = Present-new u.next o u v u.client_list free refl L.present in
    let new : sock_of (v.clients u.next) ≡ some sock =
      ap sock_of (assign_self u.next o u.clients) in
    record {
      valid = record {
        slotted = record {
          owned = λ i. Owned-new m u.next sock u L.valid free N (suc i) _ (L.valid.slotted.owned i);
          holds = Holds-new m u.next sock u L.valid free N;
        };
        watched = watched_new m u.next sock u L.valid free N;
        fresh = λ k. beyond k;
      };
      present = Present-append v u.client_list (u.next ∷ []) P ((sock, new), tt);
      distinct =
          Distinct-insert u.client_list [] u.next (rw append-nil L.distinct) (rw append-nil out);
    }
  where
    beyond :
        (k : ℕ)
        → assign u.next
            (some (record { sock = sock; debug_level = 0; uid = 0 }))
            u.clients
            (u.next + 1 + k)
          ≡ none
    beyond k =
        assign-ne u.next (u.next + 1 + k) _ u.clients (ground arith)
        ∙ fresh_next u.next u.clients L.valid.fresh k
