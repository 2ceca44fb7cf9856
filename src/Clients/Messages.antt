-- ===== src/Clients/Messages.antt =====
-- posix-specific.c, the 'p' messages of `unix_listen`, and a message as a whole.
use batman_adv_userspace.Base.{
  ℕ, ◌+◌, ◌==◌, ◌≡◌, refl, List, [], ◌∷◌, Option, none, some, true, inl, inr, ◌&&◌, arith,
  Bool-cases, Option-cases, if◌then◌else◌, length, Returns, ltb, leb, get_or, drop,
}
use mathlib.Core.Path.{subst}
use batman_adv_userspace.Frames.{icmp_packet_size}
use batman_adv_userspace.Clients.Defs.{
  assign, UnixClient, UnixIf, free_slot, take_slot, holds_slot, packet_message, client_message,
}
use batman_adv_userspace.Clients.Slots.{take_slot-IsSlotted}
use batman_adv_userspace.Clients.Levels.{IsWatched, HasLevel, Watches}
use batman_adv_userspace.Clients.Change.{SameSock, change-IsWatched}
use batman_adv_userspace.Clients.Valid.{IsValid, sock_of, Kept, Answered, answered_lem}
use batman_adv_userspace.Clients.Switch.{debug_message_lem}

-- A client that only gets a number watches what it watched.
numbered_lem :
    (m p i : ℕ) (c : UnixClient) (u : UnixIf)
    → IsValid m u
    → u.clients p ≡ some c
    → IsWatched m (assign p (some (record c { uid = i })) u.clients) u.fd_list u.clients_num
unfolding Watches HasLevel SameSock
numbered_lem m p i c u V e =
    change-IsWatched m p c (some (record c { uid = i })) u.clients u.fd_list u.fd_list u.clients_num
      u.clients_num V.watched e refl (λ fd j h. refl) V.watched.counts V.watched.distinct
      (λ j. subst (Watches (u.fd_list j) j) e (V.watched.watches p j))
      (subst (HasLevel m) e (V.watched.levels p))

-- A client that asks for a slot.
take_slot_lem :
    (m p : ℕ) (c : UnixClient) (u : UnixIf)
    → IsValid m u
    → u.clients p ≡ some c
    → Answered m p c u (take_slot p c u)
unfolding take_slot sock_of Kept
take_slot_lem m p c u V e = elim (Bool-cases (c.uid == 0)) [
  | inr z ↦ rw z unchanged
  | inl z ↦ elim (Option-cases (free_slot 255 0 u.unix_packet)) [
    | inl f ↦ rw (z, f) unchanged
    | inr (i, f) ↦ taken i f z
  ]
]
  where
    unchanged : Answered m p c u u
    unchanged = record { valid = V; kept = λ q. inr refl; sock = rw e refl }

    taken :
        (i : ℕ)
        → free_slot 255 0 u.unix_packet ≡ some i
        → (c.uid == 0) ≡ true
        → Answered m p c u (take_slot p c u)
    taken i f z =
        answered_lem m p c (record c { uid = i }) u (take_slot p c u) V e refl
          (rw (take_slot, z, f) refl) (rw (take_slot, z, f) refl)
          (take_slot-IsSlotted p c u e V.slotted)
          (rw (take_slot, z, f) (numbered_lem m p i c u V e))

-- A 'p' message returns.
pub packet_message_lem :
    (m p : ℕ) (bytes : List ℕ) (c : UnixClient) (u : UnixIf)
    → IsValid m u
    → u.clients p ≡ some c
    → Returns (packet_message p bytes u) λ r. Answered m p c u r.0
unfolding packet_message sock_of
packet_message_lem m p bytes c u V e =
    let A = take_slot_lem m p c u V e in
    let (d, f) = there ((take_slot p c u).clients p) A.sock in
    (
      (take_slot p c u, if holds_slot p d.uid (take_slot p c u) then (d.uid, bytes) ∷ [] else []),
      rw (packet_message, e, f) refl,
      A,
    )
  where
    there : (o : Option UnixClient) → sock_of o ≡ some c.sock → (d : UnixClient) × (o ≡ some d)
    there none s = cc
    there (some d) s = (d, refl)

-- A message returns, whatever it says.
pub client_message_lem :
    (m p : ℕ) (buff : List ℕ) (c : UnixClient) (u : UnixIf)
    → IsValid m u
    → u.clients p ≡ some c
    → Returns (client_message m p buff u) λ r. Answered m p c u r.0
unfolding client_message Kept sock_of
client_message_lem m p buff c u V e = elim (Bool-cases (get_or buff 0 0 == 112)) [
  | inl a ↦ elim (Bool-cases (length buff == icmp_packet_size + 2)) [
    | inl b ↦ rw (client_message, a, b) (packet_message_lem m p (drop 2 buff) c u V e)
    | inr b ↦ rw (client_message, a, b) unchanged
  ]
  | inr a ↦
      elim (Bool-cases (
        get_or buff 0 0 == 100
        && (ltb 2 (length buff) && (ltb 48 (get_or buff 2 0) && leb (get_or buff 2 0) (m + 48))))) [
          | inr b ↦ rw (client_message, a, b) unchanged
          | inl b ↦
              let level = get_or buff 2 0 in
              let (v, f, A) =
                debug_message_lem m p level c u V e (ground (arith, b)) (ground (arith, b)) in
              rw (client_message, a, b, f) ((v, []), refl, A)
        ]
]
  where
    unchanged : Returns {A = UnixIf × List (ℕ × List ℕ)} (some (u, [])) λ r. Answered m p c u r.0
    unchanged = ((u, []), refl, record { valid = V; kept = λ q. inr refl; sock = rw e refl })
