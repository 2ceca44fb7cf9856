-- ===== src/Allocator/Realloc.antt =====
-- debugRealloc on sound memory.
use batman_adv_userspace.Base.{
  listed, ℕ, suc, ◌+◌, ◌^◌, ◌≤◌, ◌<◌, ◌==◌, ◌≡◌, refl, ◌∙◌, true, false, Option, none, some, List,
  [], ◌∷◌, ◌++◌, length, min, take, drop, arith, inl, inr, Bool-cases, ==_iff, length-append,
  length-take, length-drop,
}
use mathlib.Core.Path.{subst}
use batman_adv_userspace.Allocator.Defs.{
  Chunk, Memory, done, magic_number, write_block, debug_malloc, debug_realloc, copy_into,
  unlink_chunk, move_chunk,
}
use batman_adv_userspace.Allocator.Sound.{
  IsIntact, AllIntact, IsSound, has_tag, uses, write_block_self, listed→IsIntact, apart_lem,
}
use batman_adv_userspace.Allocator.Malloc.{new_chunk, Allocates, debug_malloc_lem}
use batman_adv_userspace.Allocator.Free.{debug_free_lem}

-- A write of an intact chunk with the same tag keeps sound memory sound.
AllIntact-overwrite :
    (p : ℕ) (c : Chunk) (blocks : ℕ → Option Chunk) (qs : List ℕ)
    → IsIntact (some c)
    → AllIntact blocks qs
    → AllIntact (write_block p (some c) blocks) qs
unfolding AllIntact write_block
AllIntact-overwrite p c blocks [] new is = tt
AllIntact-overwrite p c blocks (q ∷ qs) new (i, is) = elim (Bool-cases (q == p)) [
  | inl e ↦ (rw e new, AllIntact-overwrite p c blocks qs new is)
  | inr e ↦ (rw e i, AllIntact-overwrite p c blocks qs new is)
]

uses-overwrite :
    (t p : ℕ) (c : Chunk) (blocks : ℕ → Option Chunk) (qs : List ℕ)
    → has_tag t (some c) ≡ has_tag t (blocks p)
    → uses t (write_block p (some c) blocks) qs ≡ uses t blocks qs
unfolding uses write_block
uses-overwrite t p c blocks [] h = refl
uses-overwrite t p c blocks (q ∷ qs) h = elim (Bool-cases (q == p)) [
  | inl e ↦
      let same : q ≡ p = (==_iff q p).0 e in rw (e, uses-overwrite t p c blocks qs h, h, same) refl
  | inr e ↦ rw (e, uses-overwrite t p c blocks qs h) refl
]

copied : ℕ → List ℕ → Chunk → Chunk
copied n source c = record c { bytes = take n source ++ drop n c.bytes }

-- A copy within the bounds of both chunks.
copy_into_lem :
    (n : ℕ) (source : List ℕ) (c : Chunk)
    → n ≤ length source
    → n ≤ length c.bytes
    → (copy_into n source c ≡ some (copied n source c))
      × (length (copied n source c).bytes ≡ length c.bytes)
unfolding copy_into copied
copy_into_lem n source c from_le to_le = (
  ground arith,
  length-append (take n source) (drop n c.bytes)
      ∙ rw (length-take n source, length-drop n c.bytes) (omega arith),
)

-- What debugRealloc leaves of `m`: the chunk at `q` starts with what the old chunk held and goes on with
-- what malloc gave, between its magic numbers; the old chunk is freed; all other blocks are as they were;
-- and the list has the new chunk in front and the old one taken out.
pub record Moves (p q len tag : ℕ) (found old : List ℕ) (m after : Memory) : Type 0 where
  pub sound : IsSound after
  pub moved :
      after.blocks q
      ≡ some (record (new_chunk found len tag) {
        bytes = take (min len (length old)) old ++ drop (min len (length old)) found;
      })
  pub freed : after.blocks p ≡ none
  pub others : (r : ℕ) → (r == q) ≡ false → (r == p) ≡ false → after.blocks r ≡ m.blocks r
  pub unlinked : unlink_chunk p (q ∷ m.chunk_list) ≡ some after.chunk_list
  pub gone : listed p after.chunk_list ≡ false

-- Sound memory after the copy.
overwrite-IsSound :
    (q : ℕ) (new c : Chunk) (m : Memory)
    → IsSound m
    → m.blocks q ≡ some new
    → IsIntact (some c)
    → c.tag ≡ new.tag
    → IsSound (record m { blocks = write_block q (some c) m.blocks })
unfolding has_tag
overwrite-IsSound q new c m S at_q whole tag = record {
  distinct = S.distinct;
  intact = AllIntact-overwrite q c m.blocks m.chunk_list whole S.intact;
  counted = λ t.
      S.counted t
      ∙ rw (uses-overwrite t q c m.blocks m.chunk_list (rw (at_q, has_tag, tag) refl)) refl;
}

-- The blocks after the copy and the release, at an address that neither chunk has.
neither :
    (p q r : ℕ) (new full : Chunk) (blocks : ℕ → Option Chunk)
    → (r == q) ≡ false
    → (r == p) ≡ false
    → write_block p none (write_block q (some full) (write_block q (some new) blocks)) r ≡ blocks r
unfolding write_block
neither p q r new full blocks a b = rw (a, b) refl

move_chunk_lem :
    (p q len tag : ℕ) (found : List ℕ) (c : Chunk) (m mid : Memory)
    → Allocates q len tag found m mid
    → listed p m.chunk_list ≡ true
    → (q == p) ≡ false
    → length c.bytes ≡ c.length
    → length found ≡ len
    → length m.chunk_list + 1 < 2 ^ 32
    → (after : Memory) × (move_chunk p len c q mid ≡ done q after)
      × Moves p q len tag found c.bytes m after
unfolding move_chunk IsIntact copied write_block listed
move_chunk_lem p q len tag found c m mid A p_there apart whole sized bound =
    let at_q : mid.blocks q ≡ some (new_chunk found len tag) =
      rw A.blocks (write_block_self q _ m.blocks) in
    let n = min len c.length in
    let (copies, size) =
      copy_into_lem n c.bytes (new_chunk found len tag) (omega (arith, whole))
        (omega (arith, sized)) in
    let full = copied n c.bytes (new_chunk found len tag) in
    let start : Memory = record mid { blocks = write_block q (some full) mid.blocks } in
    let start_sound =
      overwrite-IsSound q (new_chunk found len tag) full mid A.sound at_q (refl, refl, size ∙ sized)
        refl in
    let there : listed p mid.chunk_list ≡ true = rw A.list (rw apart p_there) in
    let (after, released, F) =
      debug_free_lem p 9999 start start_sound there (rw A.list (omega arith)) in
    let at_after : after.blocks q ≡ some full =
      rw F.blocks (rw apart (write_block_self q (some full) mid.blocks)) in
    let shape : some full
        ≡ some (record (new_chunk found len tag) {
          bytes = take (min len (length c.bytes)) c.bytes ++ drop (min len (length c.bytes)) found;
        }) =
      rw whole refl in
    (
      after,
      rw (move_chunk, at_q, copies, released) refl,
      record {
        sound = F.sound;
        moved = at_after ∙ shape;
        freed = rw F.blocks (write_block_self p none start.blocks);
        others = λ r a b.
            rw (F.blocks, A.blocks) (neither p q r (new_chunk found len tag) full m.blocks a b);
        unlinked = rw (← A.list) F.unlinked;
        gone = F.gone;
      },
    )

realloc_step :
    (p len tag : ℕ) (given : Option (ℕ × List ℕ)) (c : Chunk) (m : Memory) {q : ℕ}
    {mid after : Memory}
    → m.blocks (suc p) ≡ some c
    → c.header_magic ≡ magic_number
    → c.trailer_magic ≡ magic_number
    → debug_malloc given len tag m ≡ done q mid
    → move_chunk (suc p) len c q mid ≡ done q after
    → debug_realloc (suc p) given len tag m ≡ done q after
unfolding debug_realloc
realloc_step p len tag given c m at_p header trailer made moved =
    let header_test : (c.header_magic == magic_number) ≡ true = (==_iff _ _).1 header in
    let trailer_test : (c.trailer_magic == magic_number) ≡ true = (==_iff _ _).1 trailer in
    rw (debug_realloc, at_p, header_test, trailer_test, made) moved

-- debugRealloc moves a listed chunk to the address that malloc gave, and frees the old one; all other
-- chunks are as they were.
pub debug_realloc_lem :
    (p q len tag : ℕ) (found : List ℕ) (c : Chunk) (m : Memory)
    → IsSound m
    → listed (suc p) m.chunk_list ≡ true
    → m.blocks (suc p) ≡ some c
    → m.blocks q ≡ none
    → length found ≡ len
    → length m.chunk_list + 1 < 2 ^ 32
    → (after : Memory) × (debug_realloc (suc p) (some (q, found)) len tag m ≡ done q after)
      × Moves (suc p) q len tag found c.bytes m after
unfolding debug_realloc listed IsIntact
debug_realloc_lem p q len tag found c m S there at_p new sized bound =
    let (mid, made, A) = debug_malloc_lem q found len tag m S new sized in
    let absent : (q == suc p) ≡ false = apart_lem (suc p) q m S there new in
    let (header, trailer, whole) : IsIntact (some c) =
      subst IsIntact at_p (listed→IsIntact (suc p) m.blocks m.chunk_list there S.intact) in
    let (after, moved, V) =
      move_chunk_lem (suc p) q len tag found c m mid A there absent whole sized bound in
    (after, realloc_step p len tag (some (q, found)) c m at_p header trailer made moved, V)
