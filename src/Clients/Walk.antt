-- ===== src/Clients/Walk.antt =====
-- The loop of `unix_listen` over the clients: it returns, and the list afterwards.
use batman_adv_userspace.Base.{
  ℕ, ◌≡◌, refl, sym, ◌∙◌, List, [], ◌∷◌, ◌++◌, Option, none, some, Bool, true, false, inl, inr,
  arith, Bool-cases, if◌then◌else◌, listed, Distinct, Returns, listed-append, Distinct-remove,
  Distinct-right,
}
use mathlib.Core.List.{append_assoc, append-nil}
use batman_adv_userspace.Clients.Defs.{UnixClient, UnixIf}
use batman_adv_userspace.Clients.Thread.{Selected, Served, raise_max, serve_one, serve_clients}
use batman_adv_userspace.Clients.Valid.{IsValid, sock_of, Kept}
use batman_adv_userspace.Clients.Messages.{client_message_lem}
use batman_adv_userspace.Clients.Close.{close_client_lem}
use batman_adv_userspace.Clients.Listing.{
  gone, leaves, any, behind_last, behind_last-whole, Present, Present-append, Present-kept,
  any-kept, behind_last-kept,
}

-- What a round does with one client.
record HasServed (m : ℕ) (s : Selected) (p : ℕ) (u : UnixIf) (r : Served) : Type 0 where
  valid : IsValid m r.unix
  kept : Kept p u r.unix
  closed : r.closed ≡ leaves s u p
  pub there : Present r.unix (if r.closed then [] else p ∷ [])

raise_max-IsValid : (m sock : ℕ) (u : UnixIf) → IsValid m u → IsValid m (raise_max sock u)
unfolding raise_max
raise_max-IsValid m sock u V = record {
  slotted = record { owned = V.slotted.owned; holds = V.slotted.holds };
  watched = V.watched;
  fresh = V.fresh;
}

serve_one_lem :
    (m : ℕ) (s : Selected) (p : ℕ) (c : UnixClient) (u : UnixIf)
    → IsValid m u
    → u.clients p ≡ some c
    → Returns (serve_one m s p u) λ r. HasServed m s p u r
unfolding serve_one raise_max leaves gone sock_of Kept Present
serve_one_lem m s p c u V e = elim (Bool-cases (s.ready c.sock)) [
  | inr n ↦ (
    record { unix = raise_max c.sock u; closed = false; packets = [] },
    rw (serve_one, e, n) refl,
    record {
      valid = raise_max-IsValid m c.sock u V;
      kept = λ q. inr refl;
      closed = rw (e, n) refl;
      there = ((c.sock, rw e refl), tt);
    },
  )
  | inl y ↦ reads (s.reads c.sock) refl y
]
  where
    reads :
        (buff : List ℕ)
        → s.reads c.sock ≡ buff
        → s.ready c.sock ≡ true
        → Returns (serve_one m s p u) λ r. HasServed m s p u r
    reads [] f y =
        let (v, g, (W, K, out)) = close_client_lem m p c u V e in
        (
          record { unix = v; closed = true; packets = [] },
          rw (serve_one, e, y, f, g) refl,
          record { valid = W; kept = K; closed = rw (e, y, f) refl; there = tt },
        )
    reads (b ∷ buff) f y =
        let V' = raise_max-IsValid m c.sock u V in
        let (r, g, A) = client_message_lem m p (b ∷ buff) c (raise_max c.sock u) V' e in
        (
          record { unix = r.0; closed = false; packets = r.1 },
          rw (serve_one, e, y, f, g) refl,
          record {
            valid = A.valid;
            kept = A.kept;
            closed = rw (e, y, f) refl;
            there = ((c.sock, A.sock), tt);
          },
        )

-- What the loop leaves of the clients `kept` before its place and `rest` behind it.
Left : ℕ → Selected → List ℕ → List ℕ → UnixIf → UnixIf → Type 0
Left m s kept rest u v =
    IsValid m v
    × (v.client_list
        ≡ (if any (leaves s u) rest then behind_last (leaves s u) rest else kept ++ rest))
    × Present v v.client_list

-- One client more before the place.
Left-step :
    (m : ℕ) (s : Selected) (kept : List ℕ) (p : ℕ) (rest : List ℕ) (u : UnixIf) (r : Served)
    (v : UnixIf)
    → HasServed m s p u r
    → listed p rest ≡ false
    → Left m s (if r.closed then [] else kept ++ p ∷ []) rest r.unix v
    → Left m s kept (p ∷ rest) u v
unfolding Left any behind_last
Left-step m s kept p rest u r v H out (V, list, P) = (V, list ∙ same, P)
  where
    same :
        (if any (leaves s r.unix) rest
          then behind_last (leaves s r.unix) rest
          else (if r.closed then [] else kept ++ p ∷ []) ++ rest)
        ≡ (if any (leaves s u) (p ∷ rest)
            then behind_last (leaves s u) (p ∷ rest)
            else kept ++ p ∷ rest)
    same =
        rw
          (
            any-kept s p u r.unix rest H.kept out,
            behind_last-kept s p u r.unix rest H.kept out,
            H.closed,
          )
          (elim (Bool-cases (any (leaves s u) rest)) [
            | inl a ↦ elim (Bool-cases (leaves s u p)) [
              | inl l ↦ rw (a, l) refl
              | inr l ↦ rw (a, l) refl
            ]
            | inr a ↦ elim (Bool-cases (leaves s u p)) [
              | inl l ↦ rw (a, l) refl
              | inr l ↦ rw (a, l) (append_assoc kept (p ∷ []) rest)
            ]
          ])

walk_lem :
    (m : ℕ) (s : Selected) (kept rest : List ℕ) (u : UnixIf)
    → IsValid m u
    → Present u kept
    → Present u rest
    → Distinct (kept ++ rest)
    → Returns (serve_clients m s kept rest u) λ r. Left m s kept rest u r.0
unfolding serve_clients Left any Present sock_of
walk_lem m s kept [] u V P Q D = (
  (record u { client_list = kept }, []),
  refl,
  (
    record {
      slotted = record { owned = V.slotted.owned; holds = V.slotted.holds };
      watched = V.watched;
      fresh = V.fresh;
    },
    sym (append-nil kept),
    P,
  ),
)
walk_lem m s kept (p ∷ rest) u V P ((sock, e), Q) D =
    let (c, f) = there (u.clients p) e in
    let (r, g, H) = serve_one_lem m s p c u V f in
    let apart = Distinct-remove kept rest p D in
    let out : listed p rest ≡ false = ground (arith, apart.absent, listed-append p kept rest) in
    let before : listed p kept ≡ false = ground (arith, apart.absent, listed-append p kept rest) in
    let (w, h, L) =
      walk_lem m s (if r.closed then [] else kept ++ p ∷ []) rest r.unix H.valid
        (place r.unix r.closed (Present-kept p u r.unix kept H.kept before P) H.there)
        (Present-kept p u r.unix rest H.kept out Q) (parts r.closed apart.distinct) in
    (
      (w.0, r.packets ++ w.1),
      rw (serve_clients, g, h) refl,
      Left-step m s kept p rest u r w.0 H out L,
    )
  where
    there : (o : Option UnixClient) → sock_of o ≡ some sock → (c : UnixClient) × (o ≡ some c)
    there none s = cc
    there (some d) s = (d, refl)

    place :
        (v : UnixIf) (closed : Bool)
        → Present v kept
        → Present v (if closed then [] else p ∷ [])
        → Present v (if closed then [] else kept ++ p ∷ [])
    place v true A B = tt
    place v false A B = Present-append v kept (p ∷ []) A B

    parts :
        (closed : Bool)
        → Distinct (kept ++ rest)
        → Distinct ((if closed then [] else kept ++ p ∷ []) ++ rest)
    parts true A = Distinct-right kept rest A
    parts false A = rw (append_assoc kept (p ∷ []) rest) D

-- The loop over the clients of a round returns and keeps what holds of them. The list afterwards is what
-- stands behind the last client that closed, or the whole list.
pub serve_clients_lem :
    (m : ℕ) (s : Selected) (xs : List ℕ) (u : UnixIf)
    → IsValid m u
    → Present u xs
    → Distinct xs
    → Returns (serve_clients m s [] xs u) λ r.
      IsValid m r.0 × (r.0.client_list ≡ behind_last (leaves s u) xs) × Present r.0 r.0.client_list
unfolding Left Present
serve_clients_lem m s xs u V P D =
    let (r, e, (W, list, Q)) = walk_lem m s [] xs u V tt P D in
    (r, e, (W, list ∙ behind_last-whole (leaves s u) xs, Q))
