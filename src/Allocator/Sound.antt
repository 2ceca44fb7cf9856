-- ===== src/Allocator/Sound.antt =====
-- The memory that the checks of allocate.c accept, and the lemmas on its list of chunks.
use batman_adv_userspace.Base.{
  listed, Distinct, listed_apart, ℕ, suc, ◌+◌, ◌^◌, ◌%◌, ◌==◌, ◌≡◌, ◌≢◌, ◌∙◌, ap, refl, sym, true,
  false, ◌||◌, Option, none, some, List, [], inl, inr, ◌≤◌, ◌∷◌, if◌then◌else◌, length, arith,
  Bool-cases, ==_iff,
}
use batman_adv_userspace.Allocator.Defs.{Chunk, Memory, magic_number, write_block, unlink_chunk}
use mathlib.Core.Path.{subst}
use batman_adv_userspace.Allocator.Usage.{counter_of}

-- An allocated chunk with both magic numbers and as many bytes as its header says.
unfoldable pub IsIntact : Option Chunk → Type 0
IsIntact none = ⊥
IsIntact (some c) =
    (c.header_magic ≡ magic_number) × (c.trailer_magic ≡ magic_number) × (length c.bytes ≡ c.length)

unfoldable pub AllIntact : (ℕ → Option Chunk) → List ℕ → Type 0
unfolding IsIntact
AllIntact blocks [] = Unit
AllIntact blocks (q ∷ qs) = IsIntact (blocks q) × AllIntact blocks qs

unfoldable pub has_tag : ℕ → Option Chunk → ℕ
has_tag t none = 0
has_tag t (some c) = if c.tag == t then 1 else 0

-- The number of listed chunks that were allocated with the tag.
unfoldable pub uses : ℕ → (ℕ → Option Chunk) → List ℕ → ℕ
unfolding has_tag
uses t blocks [] = 0
uses t blocks (q ∷ qs) = has_tag t (blocks q) + uses t blocks qs

-- The list has no address twice, every listed chunk is allocated and intact, and the counters count
-- the listed chunks.
pub record IsSound (m : Memory) : Type 0 where
  pub distinct : Distinct m.chunk_list
  pub intact : AllIntact m.blocks m.chunk_list
  pub counted : (t : ℕ) → counter_of t m.memory_list ≡ uses t m.blocks m.chunk_list % 2 ^ 32

pub IsIntact→chunk :
    (o : Option Chunk)
    → IsIntact o
    → (c : Chunk) × (o ≡ some c)
      × (c.header_magic ≡ magic_number)
      × (c.trailer_magic ≡ magic_number)
      × (length c.bytes ≡ c.length)
unfolding IsIntact
IsIntact→chunk none i = elim i [ ]
IsIntact→chunk (some c) (h, t, l) = (c, refl, h, t, l)

pub write_block_self :
    (p : ℕ) (o : Option Chunk) (blocks : ℕ → Option Chunk) → write_block p o blocks p ≡ o
unfolding write_block
write_block_self p o blocks = ground arith

-- A write to an address that is not listed changes nothing of the listed chunks.
pub AllIntact-write_block :
    (p : ℕ) (o : Option Chunk) (blocks : ℕ → Option Chunk) (qs : List ℕ)
    → listed p qs ≡ false
    → AllIntact blocks qs
    → AllIntact (write_block p o blocks) qs
unfolding AllIntact listed write_block
AllIntact-write_block p o blocks [] h i = tt
AllIntact-write_block p o blocks (q ∷ qs) h (i, is) = elim (Bool-cases (q == p)) [
  | inl e ↦ absurd ground (arith, e)
  | inr e ↦ (rw e i, AllIntact-write_block p o blocks qs (ground arith) is)
]

pub uses-write_block :
    (t p : ℕ) (o : Option Chunk) (blocks : ℕ → Option Chunk) (qs : List ℕ)
    → listed p qs ≡ false
    → uses t (write_block p o blocks) qs ≡ uses t blocks qs
unfolding uses listed write_block
uses-write_block t p o blocks [] h = refl
uses-write_block t p o blocks (q ∷ qs) h = elim (Bool-cases (q == p)) [
  | inl e ↦ absurd ground (arith, e)
  | inr e ↦ rw (e, uses-write_block t p o blocks qs (ground arith)) refl
]

none≢some : (c : Chunk) → none ≢ some c
none≢some c = λ e. cc e

-- What is not allocated is not listed either.
pub not_listed :
    (p : ℕ) (blocks : ℕ → Option Chunk) (qs : List ℕ)
    → blocks p ≡ none
    → AllIntact blocks qs
    → listed p qs ≡ false
unfolding AllIntact listed
not_listed p blocks [] h i = refl
not_listed p blocks (q ∷ qs) h (i, is) = elim (Bool-cases (q == p)) [
  | inl e ↦
      let (c, at_q, _, _, _) = IsIntact→chunk (blocks q) i in
      let same : q ≡ p = (==_iff q p).0 e in
      absurd (none≢some c (sym h ∙ ap blocks (sym same) ∙ at_q))
  | inr e ↦ rw e (not_listed p blocks qs h is)
]

pub listed→IsIntact :
    (p : ℕ) (blocks : ℕ → Option Chunk) (qs : List ℕ)
    → listed p qs ≡ true
    → AllIntact blocks qs
    → IsIntact (blocks p)
unfolding AllIntact listed
listed→IsIntact p blocks [] h i = absurd ground (arith, h)
listed→IsIntact p blocks (q ∷ qs) h (i, is) = elim (Bool-cases (q == p)) [
  | inl e ↦ subst (λ r. IsIntact (blocks r)) ((==_iff q p).0 e) i
  | inr e ↦ listed→IsIntact p blocks qs (ground arith) is
]

-- An allocated and listed address differs from one that is not allocated.
pub apart_lem :
    (p q : ℕ) (m : Memory)
    → IsSound m
    → listed p m.chunk_list ≡ true
    → m.blocks q ≡ none
    → (q == p) ≡ false
apart_lem p q m S there new =
    let absent = not_listed q m.blocks m.chunk_list new S.intact in
    ground (arith, listed_apart p q m.chunk_list there absent)

-- The count depends on no more than the chunks at the addresses.
pub uses-ext :
    (t : ℕ) (qs : List ℕ) {blocks others : ℕ → Option Chunk}
    → ((q : ℕ) → blocks q ≡ others q)
    → uses t blocks qs ≡ uses t others qs
unfolding uses
uses-ext t [] h = refl
uses-ext t (q ∷ qs) h = rw (h q, uses-ext t qs h) refl

pub uses-le : (t : ℕ) (blocks : ℕ → Option Chunk) (qs : List ℕ) → uses t blocks qs ≤ length qs
unfolding uses has_tag
uses-le t blocks [] = omega arith
uses-le t blocks (q ∷ qs) = ground (arith, uses-le t blocks qs)

-- What unlinking a listed address leaves.
pub record Unlinks (p : ℕ) (blocks : ℕ → Option Chunk) (qs rest : List ℕ) : Type 0 where
  pub gone : listed p rest ≡ false
  pub others : (q : ℕ) → listed q qs ≡ (p == q || listed q rest)
  pub distinct : Distinct rest
  pub intact : AllIntact blocks rest
  pub there : IsIntact (blocks p)
  pub count : (t : ℕ) → uses t blocks qs ≡ has_tag t (blocks p) + uses t blocks rest
  pub shorter : length qs ≡ suc (length rest)

Unlinks-first :
    (p : ℕ) (blocks : ℕ → Option Chunk) (qs : List ℕ)
    → Distinct (p ∷ qs)
    → AllIntact blocks (p ∷ qs)
    → Unlinks p blocks (p ∷ qs) qs
unfolding listed Distinct AllIntact uses
Unlinks-first p blocks qs (new, d) (i, is) = record {
  gone = new;
  others = λ q. refl;
  distinct = d;
  intact = is;
  there = i;
  count = λ t. refl;
  shorter = refl;
}

Unlinks-later :
    (p q : ℕ) (blocks : ℕ → Option Chunk) (qs rest : List ℕ)
    → (q == p) ≡ false
    → Distinct (q ∷ qs)
    → AllIntact blocks (q ∷ qs)
    → Unlinks p blocks qs rest
    → Unlinks p blocks (q ∷ qs) (q ∷ rest)
unfolding listed Distinct AllIntact uses
Unlinks-later p q blocks qs rest e (new, d) (i, is) U = record {
  gone = rw (e, U.gone) refl;
  others = λ r. ground (arith, U.others r);
  distinct = (ground (arith, U.others q), U.distinct);
  intact = (i, U.intact);
  there = U.there;
  count = λ t. omega (arith, U.count t);
  shorter = rw U.shorter refl;
}

pub unlink_chunk_lem :
    (p : ℕ) (blocks : ℕ → Option Chunk) (qs : List ℕ)
    → listed p qs ≡ true
    → Distinct qs
    → AllIntact blocks qs
    → (rest : List ℕ) × (unlink_chunk p qs ≡ some rest) × Unlinks p blocks qs rest
unfolding unlink_chunk listed Distinct AllIntact uses
unlink_chunk_lem p blocks (q ∷ qs) h (new, d) (i, is) = elim (Bool-cases (q == p)) [
  | inl e ↦
      let same : q ≡ p = (==_iff q p).0 e in
      (
        qs,
        rw e refl,
        subst (λ r. Unlinks r blocks (q ∷ qs) qs) same (Unlinks-first q blocks qs (new, d) (i, is)),
      )
  | inr e ↦
      let (rest, made, U) = unlink_chunk_lem p blocks qs (ground arith) d is in
      (q ∷ rest, rw (e, made) refl, Unlinks-later p q blocks qs rest e (new, d) (i, is) U)
]
unlink_chunk_lem p blocks [] h d i = absurd ground (arith, h)
