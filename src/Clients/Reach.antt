-- ===== src/Clients/Reach.antt =====
-- posix-specific.c: the states that `unix_listen` reaches, and the answers that `receive_packet_batiface`
-- writes to its clients.
use batman_adv_userspace.Base.{
  ℕ, suc, ◌+◌, ◌%◌, ◌^◌, ◌==◌, ◌≡◌, refl, sym, ◌∙◌, List, Option, none, some, Bool, true, false,
  arith, if◌then◌else◌, length, Distinct, Returns, ltb,
}
use mathlib.Core.Path.{subst}
use batman_adv_userspace.Clients.Defs.{assign, UnixClient, UnixIf, init_unix, close_client}
use batman_adv_userspace.Clients.Slots.{assign_self, assign-ne}
use batman_adv_userspace.Clients.Thread.{Selected, Round, unix_round, goes_on}
use batman_adv_userspace.Clients.Slots.{Owned, Holds}
use batman_adv_userspace.Clients.Levels.{
  HasLevel, Watches, Apart, left_list, left_num, leave_level_lem,
}
use batman_adv_userspace.Clients.Listing.{Present}
use batman_adv_userspace.Clients.Accept.{Accepts, IsListed}
use batman_adv_userspace.Clients.Rounds.{GoesOn, unix_round_lem}

-- The globals before the thread starts: there is no client, the slots that the set-up leaves are NULL, and
-- the counters are the lengths of the lists.
pub record IsStart (u : UnixIf) : Type 0 where
  pub clients : (p : ℕ) → u.clients p ≡ none
  pub slots : (i : ℕ) → (if ltb i 255 then none else u.unix_packet i) ≡ none
  pub counts : (i : ℕ) → u.clients_num i ≡ length (u.fd_list i) % 2 ^ 16
  pub distinct : (i : ℕ) → Distinct (u.fd_list i)

-- What the thread reaches in its rounds, where `accept` returns descriptors that were not open.
pub data Reached : ℕ → UnixIf → Type 0 where
  set_up : (m : ℕ) (u : UnixIf) → IsStart u → Reached m (init_unix u)
  round :
      (m : ℕ) (s : Selected) (u v : UnixIf) (packets : List (ℕ × List ℕ))
      → Reached m u
      → Accepts u s.accepted
      → unix_round m s u ≡ some (goes_on v packets)
      → Reached m v

init_unix-IsListed : (m : ℕ) (u : UnixIf) → IsStart u → IsListed m (init_unix u)
unfolding init_unix Owned Holds HasLevel Watches Apart Present Distinct
init_unix-IsListed m u S = record {
  valid = record {
    slotted = record { owned = λ i. rw (S.slots (suc i)) tt; holds = λ p. rw (S.clients p) tt };
    watched = record {
      counts = S.counts;
      distinct = S.distinct;
      levels = λ p. rw (S.clients p) tt;
      watches = λ p i. rw (S.clients p) tt;
      apart = λ p q. rw (S.clients p) tt;
    };
    fresh = λ k. S.clients (u.next + k);
  };
  present = tt;
  distinct = tt;
}

Reached-IsListed : (m : ℕ) (u : UnixIf) → Reached m u → IsListed m u
unfolding GoesOn
Reached-IsListed m _ (Reached.set_up _ u S) = init_unix-IsListed m u S
Reached-IsListed m _ (Reached.round _ s u v packets R N e) =
    let (r, f, G) = unix_round_lem m s u (Reached-IsListed m u R) N in
    subst (GoesOn m) (some_eq (sym f ∙ e)) G
  where
    some_eq : {r : Round} → some r ≡ some (goes_on v packets) → r ≡ goes_on v packets
    some_eq = λ e. cc e

-- In every state that unix_listen reaches, the next round returns. Each slot of unix_packet but the first
-- is NULL or names an allocated client with that uid, which is the only one with it. A client is on the
-- debug list of its level, once, and on no other, and each counter is the length of its list.
pub unix_listen_lem :
    (m : ℕ) (s : Selected) (u : UnixIf)
    → Reached m u
    → Accepts u s.accepted
    → IsListed m u × Returns (unix_round m s u) λ r. GoesOn m r
unix_listen_lem m s u R N = let L = Reached-IsListed m u R in (L, unix_round_lem m s u L N)

-- Where an answer with this uid is written: nowhere, or to the socket of the client that the slot names.
unfoldable pub answer_sock : ℕ → UnixIf → Option (Option ℕ)
answer_sock uid u = elim (u.unix_packet uid) [
  | none ↦ some none
  | some p ↦ elim (u.clients p) [ none ↦ none | some c ↦ some (some c.sock) ]
]

-- The client of an answer.
unfoldable pub Answers : ℕ → UnixIf → Option ℕ → Type 0
Answers uid u none = u.unix_packet uid ≡ none
Answers uid u (some sock) =
    (p : ℕ) × (c : UnixClient) × (u.clients p ≡ some c) × (c.uid ≡ uid) × (c.sock ≡ sock)

-- In every state that unix_listen reaches, an answer for a uid other than 0 goes to the client with that
-- uid, or to none where the slot is NULL.
pub answer_sock_lem :
    (m i : ℕ) (u : UnixIf) → Reached m u → Returns (answer_sock (suc i) u) λ o. Answers (suc i) u o
unfolding answer_sock Answers Owned
answer_sock_lem m i u R =
    owner (u.unix_packet (suc i)) refl ((Reached-IsListed m u R).valid.slotted.owned i)
  where
    owner :
        (o : Option ℕ)
        → u.unix_packet (suc i) ≡ o
        → Owned u.clients (suc i) o
        → Returns (answer_sock (suc i) u) λ o. Answers (suc i) u o
    owner none e O = (none, rw (answer_sock, e) refl, e)
    owner (some p) e (c, f, n) = (some c.sock, rw (answer_sock, e, f) refl, (p, c, f, n, refl))

-- Where the client in slot 0 closes, the slot stays, and the next answer for uid 0 reads the client that
-- was freed.
pub answer_sock-dangles :
    (m p : ℕ) (c : UnixClient) (u : UnixIf)
    → Reached m u
    → u.clients p ≡ some c
    → u.unix_packet 0 ≡ some p
    → Returns (close_client m p u) λ v. answer_sock 0 v ≡ none
unfolding close_client answer_sock
answer_sock-dangles m p c u R e slot =
    let level = subst (HasLevel m) e ((Reached-IsListed m u R).valid.watched.levels p) in
    let left = leave_level_lem m c u level in
    let v : UnixIf = record u {
      fd_list = left_list c u.fd_list u.clients_num;
      clients_num = left_num c u.fd_list u.clients_num;
      unix_packet = if c.uid == 0 then u.unix_packet else assign c.uid none u.unix_packet;
      wait_sockets = assign c.sock false u.wait_sockets;
      clients = assign p none u.clients;
    } in
    (
      v,
      rw (close_client, e, left) refl,
      rw (answer_sock, still (c.uid == 0) refl, assign_self p none u.clients) refl,
    )
  where
    still :
        (zero_uid : Bool)
        → (c.uid == 0) ≡ zero_uid
        → (if zero_uid then u.unix_packet else assign c.uid none u.unix_packet) 0 ≡ some p
    still true z = slot
    still false z = assign-ne c.uid 0 none u.unix_packet (ground (arith, z)) ∙ slot
