-- ===== src/Allocator/Malloc.antt =====
-- debugMalloc on sound memory.
use batman_adv_userspace.Base.{
  Distinct, ℕ, ◌+◌, ◌^◌, ◌%◌, ◌==◌, ◌≡◌, refl, none, some, List, ◌∷◌, length, arith, inl, inr,
  Bool-cases,
}
use batman_adv_userspace.Allocator.Defs.{
  Chunk, Memory, done, magic_number, write_block, debug_malloc,
}
use batman_adv_userspace.Allocator.Usage.{counter_of, one_more, counter_of-add_memory}
use batman_adv_userspace.Allocator.Sound.{
  IsIntact, AllIntact, IsSound, uses, has_tag, not_listed, write_block_self, AllIntact-write_block,
  uses-write_block,
}

abbrev pub new_chunk : List ℕ → ℕ → ℕ → Chunk
new_chunk found len tag = record {
  length = len;
  tag = tag;
  header_magic = magic_number;
  bytes = found;
  trailer_magic = magic_number;
}

-- What debugMalloc leaves: sound memory with the new chunk in front, all else as it was.
pub record Allocates (p len tag : ℕ) (found : List ℕ) (m after : Memory) : Type 0 where
  pub sound : IsSound after
  pub blocks : after.blocks ≡ write_block p (some (new_chunk found len tag)) m.blocks
  pub list : after.chunk_list ≡ p ∷ m.chunk_list
  pub usage : (t : ℕ) → counter_of t after.memory_list ≡ one_more tag t (counter_of t m.memory_list)

-- debugMalloc returns the address that malloc gave, where that was not allocated before.
pub debug_malloc_lem :
    (p : ℕ) (found : List ℕ) (len tag : ℕ) (m : Memory)
    → IsSound m
    → m.blocks p ≡ none
    → length found ≡ len
    → (after : Memory) × (debug_malloc (some (p, found)) len tag m ≡ done p after)
      × Allocates p len tag found m after
unfolding debug_malloc Distinct AllIntact uses IsIntact has_tag one_more
debug_malloc_lem p found len tag m S new sized =
    let absent = not_listed p m.blocks m.chunk_list new S.intact in
    let chunk = new_chunk found len tag in
    let here = write_block_self p (some chunk) m.blocks in
    let usage = λ (t : ℕ). counter_of-add_memory len tag t m.memory_list in
    (
      _,
      refl,
      record {
        sound = record {
          distinct = (absent, S.distinct);
          intact = (
            rw here (refl, refl, sized),
            AllIntact-write_block p (some chunk) m.blocks m.chunk_list absent S.intact,
          );
          counted = λ t.
              rw (usage t, here, uses-write_block t p (some chunk) m.blocks m.chunk_list absent)
                (counts t);
        };
        blocks = refl;
        list = refl;
        usage = usage;
      },
    )
  where
    counts :
        (t : ℕ)
        → one_more tag t (counter_of t m.memory_list)
          ≡ (has_tag t (some (new_chunk found len tag)) + uses t m.blocks m.chunk_list) % 2 ^ 32
    counts t = elim (Bool-cases (tag == t)) [
      | inl e ↦ rw (e, S.counted t) (omega arith)
      | inr e ↦ rw (e, S.counted t) (omega arith)
    ]
