-- ===== src/Options/Broken.antt =====
-- posix-specific.c: the client mode shows lines, and stops at the end of a buffer.
use batman_adv_userspace.Base.{
  ℕ, zero, suc, ◌+◌, ◌<◌, ◌==◌, ◌≡◌, refl, ap, ◌∙◌, List, [], ◌∷◌, ◌++◌, Bool, true, false, Option,
  none, some, inl, inr, arith, Bool-cases, if◌then◌else◌, length, length-append, listed, take,
  bytes_eq,
}
use batman_adv_userspace.Options.Client.{
  Shown, line, skipped, cleared, rest, find_newline, c_string, eod_mark, bod_mark, Place, at,
  exited, show_line, show_lines, show_buffer,
}
use batman_adv_userspace.Options.Marks.{ByMarks, show_buffer-ByMarks}
use batman_adv_userspace.Options.Pieces.{Splits, find_newline-Splits, Whole, show_buffer-Whole}

-- No piece has a newline inside.
unfoldable pub Unbroken : List Shown → Type 0
unfolding listed
Unbroken [] = Unit
Unbroken (line l ∷ out) = (listed 10 l ≡ false) × Unbroken out
Unbroken (skipped l ∷ out) = (listed 10 l ≡ false) × Unbroken out
Unbroken (cleared l ∷ out) = (listed 10 l ≡ false) × Unbroken out
Unbroken (rest l ∷ out) = (listed 10 l ≡ false) × Unbroken out

-- What the first newline leaves on both sides.
unfoldable pub Clean : List ℕ → Option (List ℕ × List ℕ) → Type 0
unfolding listed
Clean bytes none = listed 10 bytes ≡ false
Clean bytes (some (l, next)) = (listed 10 l ≡ false) × (listed 0 next ≡ false)

find_newline-Clean : (bytes : List ℕ) → listed 0 bytes ≡ false → Clean bytes (find_newline bytes)
unfolding find_newline Clean listed
find_newline-Clean [] h = refl
find_newline-Clean (b ∷ bytes) h =
    let z : (b == 0) ≡ false = ground (arith, h) in
    let others : listed 0 bytes ≡ false = ground (arith, h) in
    elim (Bool-cases (b == 10)) [
      | inl n ↦ rw (find_newline, z, n) (refl, others)
      | inr n ↦
          rw (find_newline, z, n) (more (find_newline bytes) (find_newline-Clean bytes others) n)
    ]
  where
    more :
        (o : Option (List ℕ × List ℕ))
        → Clean bytes o
        → (b == 10) ≡ false
        → Clean
            (b ∷ bytes)
            (elim o [ none ↦ none | some (before, behind) ↦ some (b ∷ before, behind) ])
    more none C n = rw n C
    more (some (before, behind)) (C, D) n = (rw n C, D)

unfoldable pub CleanPlace : List Shown × Place → Type 0
unfolding Unbroken listed
CleanPlace (out, at buff_ptr n) = Unbroken out × (listed 10 buff_ptr ≡ false)
CleanPlace (out, exited buff_ptr) = Unbroken out

-- A piece is the line that it was made of.
unfoldable pub Same : List ℕ → Option Shown → Type 0
unfolding Unbroken
Same l none = Unit
Same l (some s) = (out : List Shown) → Unbroken out → Unbroken (s ∷ out)

show_line-Same :
    (batch_mode : Bool) (l : List ℕ) → listed 10 l ≡ false → Same l (show_line batch_mode l)
unfolding show_line Same Unbroken
show_line-Same batch_mode l h = elim (Bool-cases (bytes_eq (take 3 l) eod_mark)) [
  | inl a ↦ elim (Bool-cases batch_mode) [
    | inl b ↦ rw (show_line, a, b) tt
    | inr b ↦ rw (show_line, a, b) (λ out U. (h, U))
  ]
  | inr a ↦ elim (Bool-cases (bytes_eq (take 3 l) bod_mark)) [
    | inr c ↦ rw (show_line, a, c) (λ out U. (h, U))
    | inl c ↦ elim (Bool-cases batch_mode) [
      | inl b ↦ rw (show_line, a, c, b) (λ out U. (h, U))
      | inr b ↦ rw (show_line, a, c, b) (λ out U. (h, U))
    ]
  ]
]

-- One round more than there are bytes is enough for the loop.
show_lines-CleanPlace :
    (rounds : ℕ) (batch_mode : Bool) (bytes : List ℕ) (written : ℕ)
    → length bytes < rounds
    → listed 0 bytes ≡ false
    → CleanPlace (show_lines rounds batch_mode bytes written)
unfolding show_lines CleanPlace Unbroken Splits Clean Same
show_lines-CleanPlace zero batch_mode bytes written few h = absurd omega (arith, few)
show_lines-CleanPlace (suc rounds) batch_mode bytes written few h =
    by_line (find_newline bytes) refl (find_newline-Splits bytes) (find_newline-Clean bytes h)
      (λ next n few h. show_lines-CleanPlace rounds batch_mode next n few h)
  where
    by_line :
        (o : Option (List ℕ × List ℕ))
        → find_newline bytes ≡ o
        → Splits bytes o
        → Clean bytes o
        → ((next : List ℕ) (n : ℕ)
            → length next < rounds
            → listed 0 next ≡ false
            → CleanPlace (show_lines rounds batch_mode next n))
        → CleanPlace (show_lines (suc rounds) batch_mode bytes written)
    by_line none e S C later = rw (show_lines, e) (tt, C)
    by_line (some (l, next)) e S (C, D) later =
        rw (show_lines, e)
          (by_piece (show_line batch_mode l) (show_line-Same batch_mode l C)
            (show_lines rounds batch_mode next (written + (length l + 1)))
            (later next (written + (length l + 1)) shorter D))
      where
        shorter : length next < rounds
        shorter =
            let size : length bytes ≡ length l + suc (length next) =
              ap length S ∙ length-append l (10 ∷ next) in
            omega (arith, few, size)

        by_piece :
            (o : Option Shown)
            → Same l o
            → (r : List Shown × Place) → CleanPlace r
            → CleanPlace (elim o [ none ↦ ([], exited bytes) | some s ↦ (s ∷ r.0, r.1) ])
        by_piece none F r P = tt
        by_piece (some s) F (out, at buff_ptr n) (U, P) = (F out U, P)
        by_piece (some s) F (out, exited buff_ptr) U = F out U

c_string-listed : (bytes : List ℕ) → listed 10 bytes ≡ false → listed 10 (c_string bytes) ≡ false
unfolding c_string listed
c_string-listed [] h = refl
c_string-listed (b ∷ bytes) h = elim (Bool-cases (b == 0)) [
  | inl z ↦ rw z refl
  | inr z ↦
      let other : (b == 10) ≡ false = ground (arith, h) in
      rw (z, other) (c_string-listed bytes (ground (arith, h)))
]

Unbroken-append :
    (out : List Shown) (l : List ℕ)
    → Unbroken out
    → listed 10 l ≡ false
    → Unbroken (out ++ rest l ∷ [])
unfolding Unbroken
Unbroken-append [] l U h = (h, tt)
Unbroken-append (line k ∷ out) l (a, U) h = (a, Unbroken-append out l U h)
Unbroken-append (skipped k ∷ out) l (a, U) h = (a, Unbroken-append out l U h)
Unbroken-append (cleared k ∷ out) l (a, U) h = (a, Unbroken-append out l U h)
Unbroken-append (rest k ∷ out) l (a, U) h = (a, Unbroken-append out l U h)

-- The client mode shows a buffer without a NUL line by line: no piece that it shows has a newline inside,
-- and the pieces with their newlines are the buffer, or where the program exits a part of it from the
-- start. It exits in batch mode only, at a line that starts with "EOD". A line with neither mark is
-- printed; one with "EOD" outside batch mode, or with "BOD" in it, is left out; and one with "BOD" outside
-- batch mode clears the screen. What has no newline behind it is shown last.
pub show_buffer_lem :
    (batch_mode : Bool) (bytes : List ℕ)
    → listed 0 bytes ≡ false
    → Whole batch_mode bytes (show_buffer batch_mode bytes)
      × Unbroken (show_buffer batch_mode bytes).0
      × ByMarks batch_mode (show_buffer batch_mode bytes).0
unfolding show_buffer CleanPlace Unbroken
show_buffer_lem batch_mode bytes h = (
  show_buffer-Whole batch_mode bytes h,
  by_place (show_lines (length bytes + 1) batch_mode bytes 0)
      (show_lines-CleanPlace (length bytes + 1) batch_mode bytes 0 (omega arith) h),
  show_buffer-ByMarks batch_mode bytes,
)
  where
    by_place :
        (r : List Shown × Place)
        → CleanPlace r
        → Unbroken
            (elim r.1 as (λ p. List Shown × Bool) [
              | exited _ ↦ (r.0, true)
              | at buff_ptr written ↦ (
                if written == length bytes then r.0 else r.0 ++ rest (c_string buff_ptr) ∷ [],
                false,
              )
            ]).0
    by_place (out, exited buff_ptr) U = U
    by_place (out, at buff_ptr n) (U, C) = elim (Bool-cases (n == length bytes)) [
      | inl e ↦ rw e U
      | inr e ↦ rw e (Unbroken-append out (c_string buff_ptr) U (c_string-listed buff_ptr C))
    ]
