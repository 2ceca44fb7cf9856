-- ===== src/Allocator/Free.antt =====
-- debugFree on sound memory.
use batman_adv_userspace.Base.{
  listed, ℕ, ◌+◌, ◌^◌, ◌%◌, ◌<◌, ◌==◌, ◌≡◌, refl, sym, ◌∙◌, true, false, ◌||◌, none, some, List,
  ◌∷◌, length, arith, inl, inr, ◌⊎◌, Bool-cases, ==_iff, ap, if◌then◌else◌, Option,
}
use mathlib.Core.Path.{subst}
use batman_adv_userspace.Allocator.Defs.{
  Chunk, Memory, MemoryUsage, Stop, done, fault, write_block, unlink_chunk, debug_free,
  debug_malloc, remove_memory,
}
use batman_adv_userspace.Allocator.Malloc.{Allocates, debug_malloc_lem}
use batman_adv_userspace.Allocator.Usage.{counter_of, CountedDown, remove_memory_lem}
use batman_adv_userspace.Allocator.Sound.{
  IsIntact→chunk, IsSound, uses, has_tag, unlink_chunk_lem, write_block_self, AllIntact-write_block,
  uses-write_block, uses-le, uses-ext,
}

-- What debugFree leaves: sound memory in which the chunk is neither allocated nor listed, all else
-- as it was.
pub record Frees (p : ℕ) (m after : Memory) : Type 0 where
  pub sound : IsSound after
  pub blocks : after.blocks ≡ write_block p none m.blocks
  pub unlinked : unlink_chunk p m.chunk_list ≡ some after.chunk_list
  pub gone : listed p after.chunk_list ≡ false
  pub others : (q : ℕ) → listed q m.chunk_list ≡ (p == q || listed q after.chunk_list)

-- The counter of a tag that some listed chunk has is there, and goes down.
counter_there :
    (tag freetag : ℕ) (us : List MemoryUsage)
    → 0 < counter_of tag us
    → (vs : List MemoryUsage) × (remove_memory tag freetag us ≡ inr vs)
      × ((t : ℕ) → counter_of t us ≡ (if tag == t then counter_of t vs + 1 else counter_of t vs))
unfolding CountedDown
counter_there tag freetag us h = on (remove_memory tag freetag us) refl
  where
    on :
        (r : Stop ⊎ List MemoryUsage)
        → remove_memory tag freetag us ≡ r
        → (vs : List MemoryUsage) × (remove_memory tag freetag us ≡ inr vs)
          × ((t : ℕ)
              → counter_of t us ≡ (if tag == t then counter_of t vs + 1 else counter_of t vs))
    on (inl s) e =
        let zero_there = subst (CountedDown tag us) e (remove_memory_lem tag freetag us) in
        absurd omega (arith, zero_there)
    on (inr vs) e = (vs, e, subst (CountedDown tag us) e (remove_memory_lem tag freetag us))

has_tag_own : (c : Chunk) → has_tag c.tag (some c) ≡ 1
unfolding has_tag
has_tag_own c = ground arith

-- The counts after the removal, where `n` chunks with the tag `t` stay and `k` is the new counter.
count_less :
    (c : Chunk) (t n k old : ℕ)
    → has_tag t (some c) + n < 2 ^ 32
    → old ≡ (has_tag t (some c) + n) % 2 ^ 32
    → old ≡ (if c.tag == t then k + 1 else k)
    → k ≡ n % 2 ^ 32
unfolding has_tag
count_less c t n k old few now step = elim (Bool-cases (c.tag == t)) [
  | inl e ↦ ground (arith, e)
  | inr e ↦ ground (arith, e)
]

-- debugFree takes a listed chunk back, where fewer than 2 ^ 32 chunks are listed.
pub debug_free_lem :
    (p tag : ℕ) (m : Memory)
    → IsSound m
    → listed p m.chunk_list ≡ true
    → length m.chunk_list < 2 ^ 32
    → (after : Memory) × (debug_free p tag m ≡ done tt after) × Frees p m after
unfolding debug_free
debug_free_lem p tag m S there bound =
    let (rest, made, U) = unlink_chunk_lem p m.blocks m.chunk_list there S.distinct S.intact in
    let (c, at_p, header, trailer, _) = IsIntact→chunk (m.blocks p) U.there in
    let few = λ (t : ℕ). uses-le t m.blocks m.chunk_list in
    let count : (t : ℕ) → uses t m.blocks m.chunk_list ≡ has_tag t (some c) + uses t m.blocks rest =
      λ t. rw (U.count t, at_p) refl in
    let positive : 0 < counter_of c.tag m.memory_list =
      omega (arith, S.counted c.tag, count c.tag, has_tag_own c, few c.tag) in
    let (us, removed, counts) = counter_there c.tag tag m.memory_list positive in
    let after : Memory = record {
      blocks = write_block p none m.blocks;
      chunk_list = rest;
      memory_list = us;
    } in
    (
      after,
      rw (debug_free, at_p, header, made, trailer, removed) refl,
      record {
        sound = record {
          distinct = U.distinct;
          intact = AllIntact-write_block p none m.blocks rest U.gone U.intact;
          counted = λ t. rw (uses-write_block t p none m.blocks rest U.gone) (
              count_less c t (uses t m.blocks rest) (counter_of t us) (counter_of t m.memory_list)
                (omega (arith, few t, count t)) (omega (arith, S.counted t, count t)) (counts t));
        };
        blocks = refl;
        unlinked = made;
        gone = U.gone;
        others = U.others;
      },
    )

debug_free-fault : (p tag : ℕ) (m : Memory) → m.blocks p ≡ none → debug_free p tag m ≡ fault
unfolding debug_free
debug_free-fault p tag m h = rw (debug_free, h) refl

-- A chunk that is freed a second time is read after it was freed, before the list is searched for it.
pub debug_free-twice :
    (p tag tag2 : ℕ) (m : Memory)
    → IsSound m
    → listed p m.chunk_list ≡ true
    → length m.chunk_list < 2 ^ 32
    → (after : Memory) × (debug_free p tag m ≡ done tt after) × (debug_free p tag2 after ≡ fault)
debug_free-twice p tag tag2 m S there bound =
    let (after, freed, F) = debug_free_lem p tag m S there bound in
    (after, freed, debug_free-fault p tag2 after (rw F.blocks (write_block_self p none m.blocks)))

unlink_first : (p : ℕ) (qs : List ℕ) → unlink_chunk p (p ∷ qs) ≡ some qs
unfolding unlink_chunk
unlink_first p qs = ground arith

undone :
    (p : ℕ) (o : Option Chunk) (blocks : ℕ → Option Chunk) (q : ℕ)
    → blocks p ≡ none
    → write_block p none (write_block p o blocks) q ≡ blocks q
unfolding write_block
undone p o blocks q h = elim (Bool-cases (q == p)) [
  | inl e ↦ rw e (sym (ap blocks ((==_iff q p).0 e) ∙ h))
  | inr e ↦ rw e refl
]

-- The lists and blocks after an allocation and the release of the same chunk.
restored :
    {p len tag : ℕ} {found : List ℕ} {m mid after : Memory}
    → m.blocks p ≡ none
    → Allocates p len tag found m mid
    → Frees p mid after
    → (after.chunk_list ≡ m.chunk_list) × ((q : ℕ) → after.blocks q ≡ m.blocks q)
unfolding write_block
restored {p} {m} {mid} {after} new A F =
    let first : unlink_chunk p mid.chunk_list ≡ some m.chunk_list =
      rw A.list (unlink_first p m.chunk_list) in
    (
      some-inj (sym F.unlinked ∙ first),
      λ q. ap (λ (f : ℕ → Option Chunk). f q) F.blocks ∙ rw A.blocks (undone p _ m.blocks q new),
    )
  where
    some-inj : {xs ys : List ℕ} → some xs ≡ some ys → xs ≡ ys
    some-inj e = cc e

-- Freeing what was just allocated gives back the chunks, the list and every counter.
pub debug_free-debug_malloc :
    (p : ℕ) (found : List ℕ) (len tag tag2 : ℕ) (m : Memory)
    → IsSound m
    → m.blocks p ≡ none
    → length found ≡ len
    → length m.chunk_list + 1 < 2 ^ 32
    → (mid after : Memory) × (debug_malloc (some (p, found)) len tag m ≡ done p mid)
      × (debug_free p tag2 mid ≡ done tt after)
      × (after.chunk_list ≡ m.chunk_list)
      × ((q : ℕ) → after.blocks q ≡ m.blocks q)
      × ((t : ℕ) → counter_of t after.memory_list ≡ counter_of t m.memory_list)
unfolding listed
debug_free-debug_malloc p found len tag tag2 m S new sized bound =
    let (mid, made, A) = debug_malloc_lem p found len tag m S new sized in
    let there : listed p mid.chunk_list ≡ true = rw A.list (ground arith) in
    let few : length mid.chunk_list < 2 ^ 32 = rw A.list (omega arith) in
    let (after, freed, F) = debug_free_lem p tag2 mid A.sound there few in
    let (list, blocks) = restored new A F in
    let same : (t : ℕ) → uses t after.blocks after.chunk_list ≡ uses t m.blocks m.chunk_list =
      λ t. rw list (uses-ext t m.chunk_list blocks) in
    (
      mid,
      after,
      made,
      freed,
      list,
      blocks,
      λ t. F.sound.counted t ∙ rw (same t) (sym (S.counted t)),
    )
