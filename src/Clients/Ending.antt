-- ===== src/Clients/Ending.antt =====
-- posix-specific.c, the end of `unix_listen`.
use batman_adv_userspace.Base.{
  ℕ, ◌+◌, ◌-◌, ◌==◌, ◌≡◌, refl, sym, ap, ◌∙◌, List, [], ◌∷◌, Option, none, some, true, false, inl,
  inr, ◌&&◌, ◌||◌, arith, Bool-cases, Option-cases, ==_iff, if◌then◌else◌, listed, Distinct,
  Returns, ltb, leb,
}
use mathlib.Core.Path.{subst}
use batman_adv_userspace.Clients.Defs.{assign, UnixClient, UnixIf, level_index}
use batman_adv_userspace.Clients.Slots.{assign_self, assign-ne, assign-all}
use batman_adv_userspace.Clients.Thread.{cut_fd, cut_entry, drop_entry, drop_client, drop_clients}
use batman_adv_userspace.Clients.Levels.{HasLevel}
use batman_adv_userspace.Clients.Valid.{sock_of, Kept-assign}
use batman_adv_userspace.Clients.Listing.{gone, Present, Present-kept}

cut_entry-clients : (i fd : ℕ) (u : UnixIf) → (cut_entry i fd u).clients ≡ u.clients
unfolding cut_entry
cut_entry-clients i fd u = elim (Option-cases (cut_fd fd (u.fd_list i))) [
  | inl e ↦ rw (cut_entry, e) refl
  | inr (r, e) ↦ rw (cut_entry, e) refl
]

drop_client_lem :
    (m p : ℕ) (c : UnixClient) (u : UnixIf)
    → HasLevel m (some c)
    → u.clients p ≡ some c
    → Returns (drop_client m p u) λ w. w.clients ≡ assign p none u.clients
unfolding drop_client drop_entry level_index HasLevel
drop_client_lem m p c u (inl z) e =
    (record u { clients = assign p none u.clients }, rw (drop_client, e, drop_entry, z) refl, refl)
drop_client_lem m p c u (inr (a, b)) e =
    let there : (c.debug_level == 0) ≡ false = ground (arith, a) in
    let here : (leb 49 c.debug_level && ltb c.debug_level (49 + m)) ≡ true = ground (arith, a, b) in
    let v = cut_entry (c.debug_level - 49) c.sock u in
    (
      record v { clients = assign p none v.clients },
      rw (drop_client, e, drop_entry, there, level_index, here) refl,
      ap (assign p none) (cut_entry-clients (c.debug_level - 49) c.sock u),
    )

-- The clients of the list are freed, and no others.
unfoldable pub Frees : ℕ → List ℕ → UnixIf → Type 0
unfolding listed
Frees m xs u = Returns (drop_clients m xs u) λ v.
    (v.client_list ≡ []) × ((q : ℕ) → v.clients q ≡ (if listed q xs then none else u.clients q))

Frees-step :
    (m p : ℕ) (xs : List ℕ) (u w : UnixIf)
    → drop_client m p u ≡ some w
    → w.clients ≡ assign p none u.clients
    → Frees m xs w
    → Frees m (p ∷ xs) u
unfolding Frees drop_clients listed
Frees-step m p xs u w g gone (z, h, (nil, rest)) = (
  z,
  rw (drop_clients, g) h,
  (nil, λ q. rest q ∙ ap (λ f. if listed q xs then none else f q) gone ∙ after q),
)
  where
    after :
        (q : ℕ)
        → (if listed q xs then none else assign p none u.clients q)
          ≡ (if p == q || listed q xs then none else u.clients q)
    after q = elim (Bool-cases (listed q xs)) [
      | inl l ↦ rw l (ground arith)
      | inr l ↦ elim (Bool-cases (q == p)) [
        | inl s ↦ rw (l, (==_iff q p).0 s, assign_self p none u.clients) (ground arith)
        | inr s ↦ rw (l, assign-ne p q none u.clients s) (ground (arith, s))
      ]
    ]

-- The end of unix_listen frees the clients that are listed, and no others.
pub drop_clients_lem :
    (m : ℕ) (xs : List ℕ) (u : UnixIf)
    → ((p : ℕ) → HasLevel m (u.clients p))
    → Present u xs
    → Distinct xs
    → Frees m xs u
unfolding Frees drop_clients Present sock_of listed Distinct HasLevel
drop_clients_lem m [] u H P D = (record u { client_list = [] }, refl, (refl, λ q. refl))
drop_clients_lem m (p ∷ xs) u H ((n, e), P) (out, D) =
    let (c, f) = there (u.clients p) e in
    let (w, g, gone) = drop_client_lem m p c u (subst (HasLevel m) f (H p)) f in
    let levels : (q : ℕ) → HasLevel m (w.clients q) = λ q.
      subst (λ g. HasLevel m (g q)) (sym gone)
        (assign-all (λ q o. HasLevel m o) p none u.clients tt (λ q n. H q) q) in
    Frees-step m p xs u w g gone
      (drop_clients_lem m xs w levels (Present-kept p u w xs (Kept-assign p none u w gone) out P) D)
  where
    there : (o : Option UnixClient) → sock_of o ≡ some n → (c : UnixClient) × (o ≡ some c)
    there none s = cc
    there (some d) s = (d, refl)
