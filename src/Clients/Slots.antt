-- ===== src/Clients/Slots.antt =====
-- The slots of `unix_packet` and the uids of the clients.
use batman_adv_userspace.Base.{
  ℕ, zero, suc, ◌+◌, ◌==◌, ◌≡◌, ◌≢◌, refl, sym, ap, ◌∙◌, Option, none, some, true, false, ◌⊎◌, inl,
  inr, arith, Bool-cases, Option-cases, ==_iff,
}
use batman_adv_userspace.Clients.Defs.{assign, UnixClient, UnixIf, free_slot, take_slot}

pub assign_self {ℓ} : {A : Type ℓ} (p : ℕ) (v : A) (f : ℕ → A) → assign p v f p ≡ v
unfolding assign
assign_self p v f = ground arith

pub assign-ne {ℓ} :
    {A : Type ℓ} (p q : ℕ) (v : A) (f : ℕ → A) → (q == p) ≡ false → assign p v f q ≡ f q
unfolding assign
assign-ne p q v f h = rw h refl

-- A family of facts about a map after an assignment.
pub assign-all {ℓ κ} :
    {A : Type ℓ} (P : ℕ → A → Type κ) (p : ℕ) (v : A) (f : ℕ → A)
    → P p v
    → ((q : ℕ) → (q == p) ≡ false → P q (f q))
    → (q : ℕ) → P q (assign p v f q)
assign-all P p v f new old q = elim (Bool-cases (q == p)) [
  | inl e ↦ rw ((==_iff q p).0 e, assign_self p v f) new
  | inr e ↦ rw (assign-ne p q v f e) (old q e)
]

-- The client in a slot other than 0 is allocated, and the slot is its uid.
unfoldable pub Owned : (ℕ → Option UnixClient) → ℕ → Option ℕ → Type 0
Owned clients i none = Unit
Owned clients i (some p) = (c : UnixClient) × (clients p ≡ some c) × (c.uid ≡ i)

-- A client with a uid other than 0 is the one in that slot.
unfoldable pub Holds : (ℕ → Option ℕ) → ℕ → Option UnixClient → Type 0
Holds slots p none = Unit
Holds slots p (some c) = (c.uid ≡ 0) ⊎ (slots c.uid ≡ some p)

pub record IsSlotted (u : UnixIf) : Type 0 where
  pub owned : (i : ℕ) → Owned u.clients (suc i) (u.unix_packet (suc i))
  pub holds : (p : ℕ) → Holds u.unix_packet p (u.clients p)

-- A slot that is found is NULL.
pub free_slot-none :
    (n i : ℕ) (slots : ℕ → Option ℕ) {j : ℕ} → free_slot n i slots ≡ some j → slots j ≡ none
unfolding free_slot
free_slot-none zero i slots e = cc
free_slot-none (suc n) i slots {j = j} e = elim (Option-cases (slots i)) [
  | inl f ↦ let at : i ≡ j = ground (arith, e, f) in rw (← at) f
  | inr (p, f) ↦ free_slot-none n (i + 1) slots (ground (arith, e, f))
]

-- A slot keeps its owner where another client changes, or where this one keeps its uid.
pub Owned-others :
    (clients : ℕ → Option UnixClient) (p : ℕ) (c : UnixClient) (v : Option UnixClient) (i : ℕ)
    (o : Option ℕ)
    → clients p ≡ some c
    → (c.uid == i) ≡ false
    → Owned clients i o
    → Owned (assign p v clients) i o
unfolding Owned
Owned-others clients p c v i none e h O = tt
Owned-others clients p c v i (some q) e h (d, f, u) = elim (Bool-cases (q == p)) [
  | inr n ↦ (d, assign-ne p q v clients n ∙ f, u)
  | inl s ↦
      let same : clients q ≡ clients p = ap clients ((==_iff q p).0 s) in
      let uids : some d ≡ some c = sym f ∙ same ∙ e in
      let at : d.uid ≡ c.uid = uid_of uids in absurd ground (arith, h, at, u)
]
  where
    uid_of : {a b : UnixClient} → some a ≡ some b → a.uid ≡ b.uid
    uid_of = λ e. cc e

pub Owned-same :
    (clients : ℕ → Option UnixClient) (p : ℕ) (c d : UnixClient) (i : ℕ) (o : Option ℕ)
    → clients p ≡ some c
    → d.uid ≡ c.uid
    → Owned clients i o
    → Owned (assign p (some d) clients) i o
unfolding Owned
Owned-same clients p c d i none e h O = tt
Owned-same clients p c d i (some q) e h (b, f, u) = elim (Bool-cases (q == p)) [
  | inr n ↦ (b, assign-ne p q (some d) clients n ∙ f, u)
  | inl s ↦
      let there : assign p (some d) clients q ≡ some d =
        rw ((==_iff q p).0 s) (assign_self p (some d) clients) in
      let same : clients q ≡ clients p = ap clients ((==_iff q p).0 s) in
      let at : b.uid ≡ c.uid = uid_of (sym f ∙ same ∙ e) in (d, there, h ∙ sym at ∙ u)
]
  where
    uid_of : {a b : UnixClient} → some a ≡ some b → a.uid ≡ b.uid
    uid_of = λ e. cc e

-- A client keeps its slot where a slot changes that it is not in.
pub Holds-others :
    (slots : ℕ → Option ℕ) (i : ℕ) (v : Option ℕ) (q : ℕ) (o : Option UnixClient)
    → slots i ≢ some q
    → Holds slots q o
    → Holds (assign i v slots) q o
unfolding Holds
Holds-others slots i v q none h H = tt
Holds-others slots i v q (some d) h (inl z) = inl z
Holds-others slots i v q (some d) h (inr s) = elim (Bool-cases (d.uid == i)) [
  | inr n ↦ inr (assign-ne i d.uid v slots n ∙ s)
  | inl e ↦ absurd (h (sym (ap slots ((==_iff d.uid i).0 e)) ∙ s))
]

pub take_slot-IsSlotted :
    (p : ℕ) (c : UnixClient) (u : UnixIf)
    → u.clients p ≡ some c
    → IsSlotted u
    → IsSlotted (take_slot p c u)
unfolding take_slot Owned Holds
take_slot-IsSlotted p c u e S = elim (Bool-cases (c.uid == 0)) [
  | inr z ↦ rw z S
  | inl z ↦ elim (Option-cases (free_slot 255 0 u.unix_packet)) [
    | inl f ↦ rw (z, f) S
    | inr (i, f) ↦ rw (z, f) (taken i f z)
  ]
]
  where
    vacant : {o : Option ℕ} {q : ℕ} → o ≡ none → o ≢ some q
    vacant = λ e s. cc

    taken :
        (i : ℕ)
        → free_slot 255 0 u.unix_packet ≡ some i
        → (c.uid == 0) ≡ true
        → IsSlotted (record u {
          unix_packet = assign i (some p) u.unix_packet;
          clients = assign p (some (record c { uid = i })) u.clients;
        })
    taken i f z =
        let clients = assign p (some (record c { uid = i })) u.clients in
        let slots = assign i (some p) u.unix_packet in
        record {
          owned = λ j. elim (Bool-cases (suc j == i)) [
            | inl s ↦
                let at = (==_iff (suc j) i).0 s in
                rw (at, assign_self i (some p) u.unix_packet)
                  (record c { uid = i }, assign_self p _ u.clients, refl)
            | inr n ↦ rw (assign-ne i (suc j) (some p) u.unix_packet n) (
                Owned-others u.clients p c (some (record c { uid = i })) (suc j) _ e
                  (ground (arith, z)) (S.owned j))
          ];
          holds =
              assign-all (λ q o. Holds slots q o) p (some (record c { uid = i })) u.clients
                (inr (assign_self i (some p) u.unix_packet))
                (λ q n.
                  Holds-others u.unix_packet i (some p) q (u.clients q)
                    (vacant (free_slot-none 255 0 u.unix_packet f)) (S.holds q));
        }
