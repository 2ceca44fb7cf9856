-- ===== src/Options/Marks.antt =====
-- posix-specific.c: which of its lines the client mode shows, and how.
use batman_adv_userspace.Base.{
  ℕ, zero, suc, ◌+◌, ◌==◌, length, if◌then◌else◌, ◌≡◌, refl, sym, ap, ◌∙◌, List, [], ◌∷◌, ◌++◌,
  Bool, true, false, Option, none, some, ◌⊎◌, inl, inr, Bool-cases, take, drop, take-append-drop,
  bytes_eq, bytes_eq→eq, bytes_eq_refl,
}
use mathlib.Core.List.{append_assoc, append-nil}
use batman_adv_userspace.Options.Client.{
  Shown, line, skipped, cleared, rest, eod_mark, bod_mark, show_line, Place, at, exited,
  find_newline, c_string, show_lines, show_buffer,
}

abbrev pub Starts : List ℕ → List ℕ → Type 0
Starts mark l = (more : List ℕ) × (l ≡ mark ++ more)

-- The test of three bytes.
Starts-true : (mark l : List ℕ) → bytes_eq (take 3 l) mark ≡ true → Starts mark l
Starts-true mark l h =
    (drop 3 l, sym (take-append-drop 3 l) ∙ ap (λ r. r ++ drop 3 l) (bytes_eq→eq (take 3 l) mark h))

Starts-false :
    (a b c : ℕ) (l : List ℕ)
    → bytes_eq (take 3 l) (a ∷ b ∷ c ∷ []) ≡ false
    → Starts (a ∷ b ∷ c ∷ []) l
    → ⊥
Starts-false a b c l h (more, e) =
    let same : bytes_eq (take 3 l) (a ∷ b ∷ c ∷ []) ≡ true =
      rw e (bytes_eq_refl (a ∷ b ∷ c ∷ [])) in
    cc (h, same)

pub Starts-append : (mark l next : List ℕ) → Starts mark l → Starts mark (l ++ next)
Starts-append mark l next (more, e) =
    (more ++ next, ap (λ r. r ++ next) e ∙ append_assoc mark more next)

-- A line that is printed has neither mark; one that is left out has the mark of the end, or in batch mode
-- that of the start; one that clears the screen has that of the start, and the mode is not batch.
unfoldable pub Kinds : Bool → List Shown → Type 0
Kinds batch_mode [] = Unit
Kinds batch_mode (line l ∷ out) =
    (Starts eod_mark l → ⊥) × (Starts bod_mark l → ⊥) × Kinds batch_mode out
Kinds batch_mode (skipped l ∷ out) =
    (((batch_mode ≡ false) × Starts eod_mark l) ⊎ ((batch_mode ≡ true) × Starts bod_mark l))
    × Kinds batch_mode out
Kinds batch_mode (cleared l ∷ out) = (batch_mode ≡ false) × Starts bod_mark l × Kinds batch_mode out
Kinds batch_mode (rest l ∷ out) = ⊥

-- What becomes of one line; the program exits at the mark of the end in batch mode.
unfoldable pub KindOf : Bool → List ℕ → Option Shown → Type 0
unfolding Kinds
KindOf batch_mode l none = (batch_mode ≡ true) × Starts eod_mark l
KindOf batch_mode l (some s) =
    (out : List Shown) → Kinds batch_mode out → Kinds batch_mode (s ∷ out)

pub show_line-KindOf :
    (batch_mode : Bool) (l : List ℕ) → KindOf batch_mode l (show_line batch_mode l)
unfolding show_line KindOf Kinds
show_line-KindOf batch_mode l = elim (Bool-cases (bytes_eq (take 3 l) eod_mark)) [
  | inl a ↦ elim (Bool-cases batch_mode) [
    | inl b ↦ rw (show_line, a, b) (refl, Starts-true eod_mark l a)
    | inr b ↦ rw (show_line, a, b) (λ out K. (inl (refl, Starts-true eod_mark l a), K))
  ]
  | inr a ↦ elim (Bool-cases (bytes_eq (take 3 l) bod_mark)) [
    | inr c ↦
        rw (show_line, a, c) (λ out K. (Starts-false 69 79 68 l a, Starts-false 66 79 68 l c, K))
    | inl c ↦ elim (Bool-cases batch_mode) [
      | inl b ↦ rw (show_line, a, c, b) (λ out K. (inr (refl, Starts-true bod_mark l c), K))
      | inr b ↦ rw (show_line, a, c, b) (λ out K. (refl, Starts-true bod_mark l c, K))
    ]
  ]
]

show_lines-Kinds :
    (rounds : ℕ) (batch_mode : Bool) (bytes : List ℕ) (written : ℕ)
    → Kinds batch_mode (show_lines rounds batch_mode bytes written).0
unfolding show_lines Kinds KindOf
show_lines-Kinds zero batch_mode bytes written = tt
show_lines-Kinds (suc rounds) batch_mode bytes written =
    by_line (find_newline bytes) refl (λ next n. show_lines-Kinds rounds batch_mode next n)
  where
    by_line :
        (o : Option (List ℕ × List ℕ))
        → find_newline bytes ≡ o
        → ((next : List ℕ) (n : ℕ) → Kinds batch_mode (show_lines rounds batch_mode next n).0)
        → Kinds batch_mode (show_lines (suc rounds) batch_mode bytes written).0
    by_line none e later = rw (show_lines, e) tt
    by_line (some (l, next)) e later =
        rw (show_lines, e)
          (by_piece (show_line batch_mode l) (show_line-KindOf batch_mode l)
            (show_lines rounds batch_mode next (written + (length l + 1)))
            (later next (written + (length l + 1))))
      where
        by_piece :
            (o : Option Shown)
            → KindOf batch_mode l o
            → (r : List Shown × Place) → Kinds batch_mode r.0
            → Kinds batch_mode
                (elim o as (λ p. List Shown × Place) [
                  | none ↦ ([], exited bytes)
                  | some s ↦ (s ∷ r.0, r.1)
                ]).0
        by_piece none F r K = tt
        by_piece (some s) F r K = F r.0 K

-- Lines, each shown by its mark, and behind them at most one piece without a newline.
unfoldable pub ByMarks : Bool → List Shown → Type 0
unfolding Kinds
ByMarks batch_mode out =
    (lines : List Shown) × (tail : List Shown) × (out ≡ lines ++ tail)
    × Kinds batch_mode lines
    × ((tail ≡ []) ⊎ ((l : List ℕ) × (tail ≡ rest l ∷ [])))

pub show_buffer-ByMarks :
    (batch_mode : Bool) (bytes : List ℕ) → ByMarks batch_mode (show_buffer batch_mode bytes).0
unfolding show_buffer ByMarks Kinds
show_buffer-ByMarks batch_mode bytes =
    by_place (show_lines (length bytes + 1) batch_mode bytes 0)
      (show_lines-Kinds (length bytes + 1) batch_mode bytes 0)
  where
    by_place :
        (r : List Shown × Place)
        → Kinds batch_mode r.0
        → ByMarks batch_mode
            (elim r.1 as (λ p. List Shown × Bool) [
              | exited _ ↦ (r.0, true)
              | at buff_ptr written ↦ (
                if written == length bytes then r.0 else r.0 ++ rest (c_string buff_ptr) ∷ [],
                false,
              )
            ]).0
    by_place (out, exited buff_ptr) K = (out, [], sym (append-nil out), K, inl refl)
    by_place (out, at buff_ptr n) K = elim (Bool-cases (n == length bytes)) [
      | inl e ↦ rw e (out, [], sym (append-nil out), K, inl refl)
      | inr e ↦ rw e (out, rest (c_string buff_ptr) ∷ [], refl, K, inr (c_string buff_ptr, refl))
    ]
