-- ===== src/Tests/Memory.antt =====
-- allocate.c, dlist.h, list-batman.c and the visualisation packet on small states.
use batman_adv_userspace.Base.{ℕ, ◌≡◌, refl, [], ◌∷◌, some, none, arith, Option, listed, Distinct}
use batman_adv_userspace.Allocator.{
  Chunk, Memory, IsSound, Marked, Moves, Frees, write_block, counter_of, uses, has_tag, IsIntact,
  AllIntact, done, debug_free, debug_malloc, debug_realloc, magic_number, check_integrity-detects,
  check_integrity_lem, debug_free_lem, debug_free-debug_malloc, debug_realloc_lem,
}

abbrev chunk : Chunk
chunk = record {
  length = 3;
  tag = 7;
  header_magic = magic_number;
  bytes = 1 ∷ 2 ∷ 3 ∷ [];
  trailer_magic = magic_number;
}

abbrev empty_blocks : ℕ → Option Chunk
empty_blocks p = none

abbrev one_chunk : Memory
one_chunk = record {
  blocks = write_block 8 (some chunk) empty_blocks;
  chunk_list = 8 ∷ [];
  memory_list = record { length = 3; counter = 1; tag = 7 } ∷ [];
}

one_chunk-IsSound : IsSound one_chunk
unfolding Distinct listed AllIntact IsIntact write_block uses has_tag counter_of
one_chunk-IsSound = record {
  distinct = (refl, tt);
  intact = ((refl, refl, refl), tt);
  counted = λ t. ground arith;
}

debug_realloc_example :
    (after : Memory) × (debug_realloc 8 (some (16, 9 ∷ 9 ∷ 9 ∷ 9 ∷ [])) 4 5 one_chunk
      ≡ done 16 after)
    × Moves 8 16 4 5 (9 ∷ 9 ∷ 9 ∷ 9 ∷ []) (1 ∷ 2 ∷ 3 ∷ []) one_chunk after
unfolding listed write_block
debug_realloc_example =
    debug_realloc_lem 7 16 4 5 (9 ∷ 9 ∷ 9 ∷ 9 ∷ []) chunk one_chunk one_chunk-IsSound refl refl refl
      refl (omega arith)

debug_free_example :
    (after : Memory) × (debug_free 8 1 one_chunk ≡ done tt after) × Frees 8 one_chunk after
unfolding listed
debug_free_example = debug_free_lem 8 1 one_chunk one_chunk-IsSound refl (omega arith)

debug_free-debug_malloc_example :
    (mid after : Memory) × (debug_malloc (some (16, 9 ∷ [])) 1 5 one_chunk ≡ done 16 mid)
    × (debug_free 16 6 mid ≡ done tt after)
    × (after.chunk_list ≡ one_chunk.chunk_list)
    × ((q : ℕ) → after.blocks q ≡ one_chunk.blocks q)
    × ((t : ℕ) → counter_of t after.memory_list ≡ counter_of t one_chunk.memory_list)
unfolding write_block
debug_free-debug_malloc_example =
    debug_free-debug_malloc 16 (9 ∷ []) 1 5 6 one_chunk one_chunk-IsSound refl refl (omega arith)

check_integrity-detects_example : Marked (one_chunk.blocks 8)
unfolding listed
check_integrity-detects_example =
    check_integrity-detects one_chunk one_chunk 8 (check_integrity_lem one_chunk one_chunk-IsSound)
      refl
