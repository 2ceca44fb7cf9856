-- ===== src/Clients/Valid.antt =====
-- What holds of the clients of the local socket, and a client whose socket stays.
use batman_adv_userspace.Base.{
  ℕ, suc, ◌+◌, ◌==◌, ◌≡◌, ◌≢◌, sym, ap, ◌∙◌, Option, none, some, true, ◌⊎◌, inl, inr, Bool-cases,
  ==_iff,
}
use mathlib.Core.Path.{subst}
use batman_adv_userspace.Clients.Defs.{assign, UnixClient, UnixIf}
use batman_adv_userspace.Clients.Slots.{assign_self, assign-ne, assign-all}
use batman_adv_userspace.Clients.Slots.{Holds, IsSlotted, Owned-same}
use batman_adv_userspace.Clients.Levels.{IsWatched}

pub record IsValid (m : ℕ) (u : UnixIf) : Type 0 where
  pub slotted : IsSlotted u
  pub watched : IsWatched m u.clients u.fd_list u.clients_num
  pub fresh : (k : ℕ) → u.clients (u.next + k) ≡ none

unfoldable pub sock_of : Option UnixClient → Option ℕ
sock_of none = none
sock_of (some c) = some c.sock

-- Every client but `p` is where it was, with its socket.
unfoldable pub Kept : ℕ → UnixIf → UnixIf → Type 0
Kept p u v = (q : ℕ) → ((q == p) ≡ true) ⊎ (sock_of (v.clients q) ≡ sock_of (u.clients q))

-- What a client's message leaves.
pub record Answered (m p : ℕ) (c : UnixClient) (u v : UnixIf) : Type 0 where
  pub valid : IsValid m v
  pub kept : Kept p u v
  pub sock : sock_of (v.clients p) ≡ some c.sock

pub Kept-assign :
    (p : ℕ) (o : Option UnixClient) (u v : UnixIf) → v.clients ≡ assign p o u.clients → Kept p u v
unfolding Kept
Kept-assign p o u v e q = elim (Bool-cases (q == p)) [
  | inl s ↦ inl s
  | inr n ↦ inr (ap sock_of (ap (λ f. f q) e ∙ assign-ne p q o u.clients n))
]

-- No free address is named by a client that is there.
pub fresh-assign :
    (p next : ℕ) (c : UnixClient) (o : Option UnixClient) (clients : ℕ → Option UnixClient)
    → clients p ≡ some c
    → ((k : ℕ) → clients (next + k) ≡ none)
    → (k : ℕ) → assign p o clients (next + k) ≡ none
fresh-assign p next c o clients e free k = elim (Bool-cases (next + k == p)) [
  | inr n ↦ assign-ne p (next + k) o clients n ∙ free k
  | inl s ↦ absurd (apart (sym e ∙ sym (ap clients ((==_iff (next + k) p).0 s)) ∙ free k))
]
  where
    apart : some c ≢ none
    apart = λ e. cc e

-- The slots where a client changes and keeps its uid.
pub IsSlotted-same :
    (p : ℕ) (c d : UnixClient) (u v : UnixIf)
    → u.clients p ≡ some c
    → d.uid ≡ c.uid
    → v.clients ≡ assign p (some d) u.clients
    → v.unix_packet ≡ u.unix_packet
    → IsSlotted u
    → IsSlotted v
unfolding Holds
IsSlotted-same p c d u v e same clients slots S = record {
  owned = λ i. rw (clients, slots) (Owned-same u.clients p c d (suc i) _ e same (S.owned i));
  holds = λ q.
      rw (clients, slots)
        (assign-all (λ q o. Holds u.unix_packet q o) p (some d) u.clients
          (rw same (subst (Holds u.unix_packet p) e (S.holds p))) (λ q n. S.holds q) q);
}

pub answered_lem :
    (m p : ℕ) (c d : UnixClient) (u v : UnixIf)
    → IsValid m u
    → u.clients p ≡ some c
    → d.sock ≡ c.sock
    → v.clients ≡ assign p (some d) u.clients
    → v.next ≡ u.next
    → IsSlotted v
    → IsWatched m v.clients v.fd_list v.clients_num
    → Answered m p c u v
unfolding sock_of
answered_lem m p c d u v V e sock clients next slotted watched = record {
  valid = record {
    slotted = slotted;
    watched = watched;
    fresh = λ k. rw (clients, next) (fresh-assign p u.next c (some d) u.clients e V.fresh k);
  };
  kept = Kept-assign p (some d) u v clients;
  sock = rw (clients, assign_self p (some d) u.clients) (ap some sock);
}
