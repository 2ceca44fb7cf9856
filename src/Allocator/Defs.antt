-- ===== src/Allocator/Defs.antt =====
-- allocate.c, the variant with checks: chunks between two magic numbers, the list of the chunks in
-- use, and the counters for each tag. `malloc` is a parameter: what one call of it returned, an
-- address and the bytes found there, or nothing. A chunk goes by the address handed to the
-- client, and `chunk_list` holds the chunks in the order of the `next` pointers. The mutexes and
-- the printed tables are left out.
use batman_adv_userspace.Base.{
  ℕ, zero, suc, ◌+◌, ◌-◌, ◌^◌, ◌%◌, ◌==◌, if◌then◌else◌, min, not, ◌⊎◌, inl, inr, Option, none,
  some, List, [], ◌∷◌, ◌++◌, take, drop, length, leb, ◌&&◌, ◌>>=◌,
}

abbrev pub magic_number : ℕ
magic_number = 305419896

-- `struct chunkHeader` without its link, the client's bytes and `struct chunkTrailer`.
pub record Chunk : Type 0 where
  pub length : ℕ
  pub tag : ℕ
  pub header_magic : ℕ
  pub bytes : List ℕ
  pub trailer_magic : ℕ

pub record MemoryUsage : Type 0 where
  pub length : ℕ
  pub counter : ℕ
  pub tag : ℕ

-- `blocks` is what malloc has given out and free has not taken back.
pub record Memory : Type 0 where
  pub blocks : ℕ → Option Chunk
  pub chunk_list : List ℕ
  pub memory_list : List MemoryUsage

-- What the program says before `restore_and_exit`, with the tags that it prints.
pub data Stop : Type 0 where
  cannot_allocate : ℕ → Stop
  invalid_header : ℕ → Stop
  invalid_trailer : ℕ → Stop
  double_free : ℕ → ℕ → Stop
  freed_more : ℕ → ℕ → Stop
  freed_never : ℕ → ℕ → Stop

-- A call returns, stops the program, or touches memory that is not allocated.
pub data CallResult (Result : Type 0) : Type 0 where
  done : Result → Memory → CallResult Result
  stop : Stop → CallResult Result
  fault : CallResult Result

unfoldable pub write_block : ℕ → Option Chunk → (ℕ → Option Chunk) → ℕ → Option Chunk
write_block p block blocks q = if q == p then block else blocks q

-- The walk of addMemory; nothing where no entry has the tag.
unfoldable pub count_up : ℕ → List MemoryUsage → Option (List MemoryUsage)
count_up tag [] = none
count_up tag (u ∷ us) =
    let rest = count_up tag us in
    if u.tag == tag
    then some (record u { counter = (u.counter + 1) % 2 ^ 32 } ∷ us)
    else (elim rest [ some vs ↦ some (u ∷ vs) | none ↦ none ])

unfoldable pub add_memory : ℕ → ℕ → List MemoryUsage → List MemoryUsage
add_memory length tag us = elim (count_up tag us) [
  | some vs ↦ vs
  | none ↦ record { length = length; counter = 1; tag = tag } ∷ us
]

unfoldable pub remove_memory : ℕ → ℕ → List MemoryUsage → Stop ⊎ List MemoryUsage
remove_memory tag freetag [] = inl (freed_never tag freetag)
remove_memory tag freetag (u ∷ us) =
    let rest = remove_memory tag freetag us in
    if u.tag == tag
    then (if u.counter == 0
        then inl (freed_more tag freetag)
        else inr (record u { counter = u.counter - 1 } ∷ us))
    else (elim rest [ inl s ↦ inl s | inr vs ↦ inr (u ∷ vs) ])

-- The body of the loop: `rest` is what the next chunks give.
unfoldable pub check_chunk : Option Chunk → CallResult (Unit {0}) → CallResult (Unit {0})
check_chunk none rest = fault
check_chunk (some c) rest =
    if not (c.header_magic == magic_number)
    then stop (invalid_header c.tag)
    else (if not (c.trailer_magic == magic_number) then stop (invalid_trailer c.tag) else rest)

unfoldable pub check_chunks : (ℕ → Option Chunk) → List ℕ → Memory → CallResult (Unit {0})
unfolding check_chunk
check_chunks blocks [] m = done tt m
check_chunks blocks (p ∷ ps) m = check_chunk (blocks p) (check_chunks blocks ps m)

unfoldable pub check_integrity : Memory → CallResult (Unit {0})
check_integrity m = check_chunks m.blocks m.chunk_list m

-- The tags that checkLeak reports.
unfoldable pub check_leak : (ℕ → Option Chunk) → List ℕ → Option (List ℕ)
check_leak blocks [] = some []
check_leak blocks (p ∷ ps) =
    let rest = check_leak blocks ps in
    elim (blocks p) [
      | none ↦ none
      | some c ↦ elim rest [ none ↦ none | some tags ↦ some (c.tag ∷ tags) ]
    ]

unfoldable pub debug_malloc : Option (ℕ × List ℕ) → ℕ → ℕ → Memory → CallResult ℕ
debug_malloc none length tag m = stop (cannot_allocate tag)
debug_malloc (some (p, found)) length tag m =
    let chunk : Chunk = record {
      length = length;
      tag = tag;
      header_magic = magic_number;
      bytes = found;
      trailer_magic = magic_number;
    } in
    done p record {
      blocks = write_block p (some chunk) m.blocks;
      chunk_list = p ∷ m.chunk_list;
      memory_list = add_memory length tag m.memory_list;
    }

-- Takes the first occurrence out of the list; nothing where there is none.
unfoldable pub unlink_chunk : ℕ → List ℕ → Option (List ℕ)
unlink_chunk p [] = none
unlink_chunk p (q ∷ qs) =
    let rest = unlink_chunk p qs in
    if q == p then some qs else (elim rest [ some rs ↦ some (q ∷ rs) | none ↦ none ])

unfoldable pub debug_free : ℕ → ℕ → Memory → CallResult (Unit {0})
debug_free p tag m = elim (m.blocks p) [
  | none ↦ fault
  | some c ↦
      if not (c.header_magic == magic_number)
      then stop (invalid_header c.tag)
      else (elim (unlink_chunk p m.chunk_list) [
        | none ↦ stop (double_free c.tag tag)
        | some rest ↦
            if not (c.trailer_magic == magic_number)
            then stop (invalid_trailer c.tag)
            else (elim (remove_memory c.tag tag m.memory_list) [
              | inl s ↦ stop s
              | inr us ↦ done tt record {
                blocks = write_block p none m.blocks;
                chunk_list = rest;
                memory_list = us;
              }
            ])
      ])
]

-- memcpy of `n` bytes onto the start of a chunk; a read or a write beyond the bytes is a fault.
unfoldable pub copy_into : ℕ → List ℕ → Chunk → Option Chunk
copy_into n source c =
    if leb n (length source) && leb n (length c.bytes)
    then some (record c { bytes = take n source ++ drop n c.bytes })
    else none

-- The end of debugRealloc, when the new chunk `q` is there.
unfoldable pub move_chunk : ℕ → ℕ → Chunk → ℕ → Memory → CallResult ℕ
unfolding copy_into
move_chunk p len old q m = elim (m.blocks q >>= copy_into (min len old.length) old.bytes) [
  | none ↦ fault
  | some copied ↦
      elim (debug_free p 9999 (record m { blocks = write_block q (some copied) m.blocks })) [
        | done _ after ↦ done q after
        | stop s ↦ stop s
        | fault ↦ fault
      ]
]

unfoldable pub debug_realloc : ℕ → Option (ℕ × List ℕ) → ℕ → ℕ → Memory → CallResult ℕ
debug_realloc zero given length tag m = debug_malloc given length tag m
debug_realloc (suc p) given length tag m = elim (m.blocks (suc p)) [
  | none ↦ fault
  | some c ↦
      if not (c.header_magic == magic_number)
      then stop (invalid_header c.tag)
      else (if not (c.trailer_magic == magic_number)
          then stop (invalid_trailer c.tag)
          else (elim (debug_malloc given length tag m) [
            | done q after ↦ move_chunk (suc p) length c q after
            | stop s ↦ stop s
            | fault ↦ fault
          ]))
]
