-- ===== src/Allocator/Integrity.antt =====
-- checkIntegrity: what it accepts.
use batman_adv_userspace.Base.{
  listed, ℕ, ◌==◌, ◌≡◌, true, Option, none, some, List, [], ◌∷◌, inl, inr, arith, Bool-cases,
  ==_iff, refl, sym, ◌∙◌, ◌≢◌,
}
use mathlib.Core.Path.{subst}
use batman_adv_userspace.Allocator.Defs.{
  Chunk, Memory, Stop, CallResult, done, stop, invalid_header, invalid_trailer, magic_number,
  check_chunk, check_chunks, check_integrity,
}
use batman_adv_userspace.Allocator.Sound.{AllIntact, IsSound, IsIntact→chunk}

check_chunks_lem :
    (blocks : ℕ → Option Chunk) (qs : List ℕ) (m : Memory)
    → AllIntact blocks qs
    → check_chunks blocks qs m ≡ done tt m
unfolding check_chunks check_chunk AllIntact
check_chunks_lem blocks [] m is = refl
check_chunks_lem blocks (q ∷ qs) m (i, is) =
    let (c, at_q, header, trailer, _) = IsIntact→chunk (blocks q) i in
    rw (check_chunks, check_chunk, at_q, header, trailer) (check_chunks_lem blocks qs m is)

-- On sound memory checkIntegrity returns and stops nothing.
pub check_integrity_lem : (m : Memory) → IsSound m → check_integrity m ≡ done tt m
unfolding check_integrity
check_integrity_lem m S = check_chunks_lem m.blocks m.chunk_list m S.intact

-- A chunk that is allocated and has both magic numbers.
pub record Marked (o : Option Chunk) : Type 0 where
  pub chunk : Chunk
  pub there : o ≡ some chunk
  pub header : chunk.header_magic ≡ magic_number
  pub trailer : chunk.trailer_magic ≡ magic_number

stop≢done : (s : Stop) (m : Memory) → stop s ≢ done tt m
stop≢done s m = λ e. cc e

check_chunk-done :
    (o : Option Chunk) (rest : CallResult (Unit {0})) (after : Memory)
    → check_chunk o rest ≡ done tt after
    → Marked o × (rest ≡ done tt after)
unfolding check_chunk
check_chunk-done none rest after h = cc
check_chunk-done (some c) rest after h = elim (Bool-cases (c.header_magic == magic_number)) [
  | inr e ↦ absurd (refused (invalid_header c.tag) (rw e refl))
  | inl e ↦ elim (Bool-cases (c.trailer_magic == magic_number)) [
    | inr f ↦ absurd (refused (invalid_trailer c.tag) (rw (e, f) refl))
    | inl f ↦ (
      record { chunk = c; there = refl; header = (==_iff _ _).0 e; trailer = (==_iff _ _).0 f },
      sym (rw (e, f) refl) ∙ h,
    )
  ]
]
  where
    refused : (s : Stop) → check_chunk (some c) rest ≡ stop s → ⊥
    refused s g = stop≢done s after (sym g ∙ h)

-- Where checkIntegrity returns, both magic numbers of every listed chunk are there.
pub check_integrity-detects :
    (m after : Memory) (q : ℕ)
    → check_integrity m ≡ done tt after
    → listed q m.chunk_list ≡ true
    → Marked (m.blocks q)
unfolding check_integrity check_chunks listed
check_integrity-detects m after q passes = detects m.chunk_list passes
  where
    detects :
        (qs : List ℕ)
        → check_chunks m.blocks qs m ≡ done tt after
        → listed q qs ≡ true
        → Marked (m.blocks q)
    detects [] h l = absurd ground (arith, l)
    detects (r ∷ rs) h l =
        let (first, later) = check_chunk-done (m.blocks r) _ after h in
        elim (Bool-cases (r == q)) [
          | inl e ↦ subst (λ k. Marked (m.blocks k)) ((==_iff r q).0 e) first
          | inr e ↦ detects rs later (ground (arith, l))
        ]
