-- ===== src/Clients/Rounds.antt =====
-- posix-specific.c, a round of `unix_listen`.
use batman_adv_userspace.Base.{
  ℕ, ◌%◌, ◌^◌, ◌==◌, refl, List, [], ◌∷◌, Bool, inl, inr, Bool-cases, Distinct, Returns, ltb,
}
use batman_adv_userspace.Clients.Defs.{UnixIf}
use batman_adv_userspace.Clients.Thread.{
  Selected, accept_client, Round, unix_round, goes_on, breaks,
}
use batman_adv_userspace.Clients.Valid.{IsValid}
use batman_adv_userspace.Clients.Listing.{leaves, any, behind_last}
use batman_adv_userspace.Clients.Walk.{serve_clients_lem}
use batman_adv_userspace.Clients.Accept.{Accepts, IsListed, Present-same, accept_client_lem}

-- The part of a list behind an element.
behind_last-Distinct : (f : ℕ → Bool) (xs : List ℕ) → Distinct xs → Distinct (behind_last f xs)
unfolding behind_last Distinct
behind_last-Distinct f [] D = tt
behind_last-Distinct f (p ∷ r) (new, D) = elim (Bool-cases (any f r)) [
  | inl a ↦ rw a (behind_last-Distinct f r D)
  | inr a ↦ elim (Bool-cases (f p)) [ inl b ↦ rw (a, b) D | inr b ↦ rw (a, b) (new, D) ]
]

-- Where the loop goes on, the clients are listed as before.
unfoldable pub GoesOn : ℕ → Round → Type 0
GoesOn m (goes_on v packets) = IsListed m v
GoesOn m breaks = Unit

-- A round of unix_listen returns, and where it goes on, with what holds of the clients.
pub unix_round_lem :
    (m : ℕ) (s : Selected) (u : UnixIf)
    → IsListed m u
    → Accepts u s.accepted
    → Returns (unix_round m s u) λ r. GoesOn m r
unfolding unix_round GoesOn
unix_round_lem m s u L N = elim (Bool-cases (s.res % 2 ^ 8 == 0)) [
  | inl a ↦ rw (unix_round, a) (goes_on u [], refl, L)
  | inr a ↦ elim (Bool-cases (ltb (s.res % 2 ^ 8) 128)) [
    | inr b ↦ elim (Bool-cases s.interrupted) [
      | inl c ↦ rw (unix_round, a, b, c) (goes_on u [], refl, L)
      | inr c ↦ rw (unix_round, a, b, c) (breaks, refl, tt)
    ]
    | inl b ↦ elim (Bool-cases (s.ready u.unix_sock)) [
      | inl c ↦
          rw (unix_round, a, b, c)
            (goes_on (accept_client s.accepted u) [], refl, accept_client_lem m s.accepted u L N)
      | inr c ↦
          let u' : UnixIf = record u { max_sock = u.unix_sock } in
          let V : IsValid m u' = record {
            slotted = record { owned = L.valid.slotted.owned; holds = L.valid.slotted.holds };
            watched = L.valid.watched;
            fresh = L.valid.fresh;
          } in
          let (r, e, (W, list, P)) =
            serve_clients_lem m s u.client_list u' V
              (Present-same u u' u.client_list refl L.present) L.distinct in
          rw (unix_round, a, b, c, e)
            (
              goes_on r.0 r.1,
              refl,
              record {
                valid = W;
                present = P;
                distinct = rw list (behind_last-Distinct (leaves s u') u.client_list L.distinct);
              },
            )
    ]
  ]
]
