-- ===== src/Options/Pieces.antt =====
-- posix-specific.c: the client mode loses no byte of what the daemon sends.
use batman_adv_userspace.Base.{
  ℕ, zero, suc, ◌+◌, ◌==◌, ◌≡◌, refl, sym, ap, ◌∙◌, List, [], ◌∷◌, ◌++◌, Bool, true, false, Option,
  none, some, ◌⊎◌, inl, inr, arith, Bool-cases, if◌then◌else◌, length, length-append, listed,
  listed-append, take, bytes_eq,
}
use mathlib.Core.List.{append_assoc, append-nil}
use batman_adv_userspace.Options.Client.{
  Shown, line, skipped, cleared, rest, find_newline, c_string, show_line, eod_mark, bod_mark, Place,
  at, exited, show_lines, show_buffer,
}
use batman_adv_userspace.Options.Marks.{Starts, Starts-append, KindOf, show_line-KindOf}

-- The bytes that a piece stands for.
unfoldable pub received : List Shown → List ℕ
received [] = []
received (line l ∷ out) = l ++ (10 ∷ received out)
received (skipped l ∷ out) = l ++ (10 ∷ received out)
received (cleared l ∷ out) = l ++ (10 ∷ received out)
received (rest l ∷ out) = l ++ received out

unfoldable pub Splits : List ℕ → Option (List ℕ × List ℕ) → Type 0
Splits bytes none = Unit
Splits bytes (some (l, next)) = bytes ≡ l ++ (10 ∷ next)

pub find_newline-Splits : (bytes : List ℕ) → Splits bytes (find_newline bytes)
unfolding find_newline Splits
find_newline-Splits [] = tt
find_newline-Splits (b ∷ bytes) = elim (Bool-cases (b == 0)) [
  | inl z ↦ rw (find_newline, z) tt
  | inr z ↦ elim (Bool-cases (b == 10)) [
    | inl n ↦ rw (find_newline, z, n) (ap (λ c. c ∷ bytes) (ground (arith, n)))
    | inr n ↦ rw (find_newline, z, n) (more (find_newline bytes) (find_newline-Splits bytes))
  ]
]
  where
    more :
        (o : Option (List ℕ × List ℕ))
        → Splits bytes o
        → Splits
            (b ∷ bytes)
            (elim o [ none ↦ none | some (before, behind) ↦ some (b ∷ before, behind) ])
    more none S = tt
    more (some (before, behind)) S = ap (λ r. b ∷ r) S

pub c_string-whole : (bytes : List ℕ) → listed 0 bytes ≡ false → c_string bytes ≡ bytes
unfolding c_string listed
c_string-whole [] h = refl
c_string-whole (b ∷ bytes) h =
    let other : (b == 0) ≡ false = ground (arith, h) in
    rw (other, c_string-whole bytes (ground (arith, h))) refl

-- What the loop shows, and where it stands, are the bytes that it was given; it exits in batch mode, where
-- the mark of the end stands.
unfoldable pub Covers : Bool → List ℕ → ℕ → List Shown × Place → Type 0
unfolding received
Covers batch_mode bytes written (out, at buff_ptr n) =
    (received out ++ buff_ptr ≡ bytes) × (n + length buff_ptr ≡ written + length bytes)
Covers batch_mode bytes written (out, exited buff_ptr) =
    (received out ++ buff_ptr ≡ bytes) × (batch_mode ≡ true) × Starts eod_mark buff_ptr

-- A piece that stands for a line with its newline.
unfoldable pub StandsFor : List ℕ → Option Shown → Type 0
unfolding received
StandsFor l none = Unit
StandsFor l (some s) = (out : List Shown) → received (s ∷ out) ≡ l ++ (10 ∷ received out)

show_line-StandsFor : (batch_mode : Bool) (l : List ℕ) → StandsFor l (show_line batch_mode l)
unfolding show_line StandsFor received
show_line-StandsFor batch_mode l = elim (Bool-cases (bytes_eq (take 3 l) eod_mark)) [
  | inl a ↦ elim (Bool-cases batch_mode) [
    | inl b ↦ rw (show_line, a, b) tt
    | inr b ↦ rw (show_line, a, b) (λ out. refl)
  ]
  | inr a ↦ elim (Bool-cases (bytes_eq (take 3 l) bod_mark)) [
    | inr c ↦ rw (show_line, a, c) (λ out. refl)
    | inl c ↦ elim (Bool-cases batch_mode) [
      | inl b ↦ rw (show_line, a, c, b) (λ out. refl)
      | inr b ↦ rw (show_line, a, c, b) (λ out. refl)
    ]
  ]
]

-- One line more in front.
Covers-piece :
    (batch_mode : Bool) (bytes l next : List ℕ) (written : ℕ) (s : Shown) (r : List Shown × Place)
    → StandsFor l (some s)
    → bytes ≡ l ++ (10 ∷ next)
    → Covers batch_mode next (written + (length l + 1)) r
    → Covers batch_mode bytes written (s ∷ r.0, r.1)
unfolding Covers StandsFor
Covers-piece batch_mode bytes l next written s (out, at buff_ptr n) F S (same, count) =
    let size : length bytes ≡ length l + suc (length next) =
      ap length S ∙ length-append l (10 ∷ next) in
    (
      ap (λ r. r ++ buff_ptr) (F out)
          ∙ append_assoc l (10 ∷ received out) buff_ptr
          ∙ ap (λ r. l ++ (10 ∷ r)) same
          ∙ sym S,
      omega (arith, size, count),
    )
Covers-piece batch_mode bytes l next written s (out, exited buff_ptr) F S (same, batch, marked) = (
  ap (λ r. r ++ buff_ptr) (F out)
      ∙ append_assoc l (10 ∷ received out) buff_ptr
      ∙ ap (λ r. l ++ (10 ∷ r)) same
      ∙ sym S,
  batch,
  marked,
)

show_lines-Covers :
    (rounds : ℕ) (batch_mode : Bool) (bytes : List ℕ) (written : ℕ)
    → Covers batch_mode bytes written (show_lines rounds batch_mode bytes written)
unfolding show_lines Covers received Splits KindOf
show_lines-Covers zero batch_mode bytes written = (refl, refl)
show_lines-Covers (suc rounds) batch_mode bytes written =
    by_line (find_newline bytes) refl (find_newline-Splits bytes)
      (λ next n. show_lines-Covers rounds batch_mode next n)
  where
    by_line :
        (o : Option (List ℕ × List ℕ))
        → find_newline bytes ≡ o
        → Splits bytes o
        → ((next : List ℕ) (n : ℕ) → Covers batch_mode next n (show_lines rounds batch_mode next n))
        → Covers batch_mode bytes written (show_lines (suc rounds) batch_mode bytes written)
    by_line none e S later = rw (show_lines, e) (refl, refl)
    by_line (some (l, next)) e S later =
        rw (show_lines, e)
          (by_piece (show_line batch_mode l) (show_line-StandsFor batch_mode l)
            (show_line-KindOf batch_mode l))
      where
        by_piece :
            (o : Option Shown)
            → StandsFor l o
            → KindOf batch_mode l o
            → Covers batch_mode bytes written (elim o [
              | none ↦ ([], exited bytes)
              | some s ↦ (
                s ∷ (show_lines rounds batch_mode next (written + (length l + 1))).0,
                (show_lines rounds batch_mode next (written + (length l + 1))).1,
              )
            ])
        by_piece none F (batch, marked) =
            (refl, batch, rw S (Starts-append eod_mark l (10 ∷ next) marked))
        by_piece (some s) F K =
            Covers-piece batch_mode bytes l next written s
              (show_lines rounds batch_mode next (written + (length l + 1))) F S
              (later next (written + (length l + 1)))

received-append : (a b : List Shown) → received (a ++ b) ≡ received a ++ received b
unfolding received
received-append [] b = refl
received-append (line l ∷ a) b =
    ap (λ r. l ++ (10 ∷ r)) (received-append a b)
    ∙ sym (append_assoc l (10 ∷ received a) (received b))
received-append (skipped l ∷ a) b =
    ap (λ r. l ++ (10 ∷ r)) (received-append a b)
    ∙ sym (append_assoc l (10 ∷ received a) (received b))
received-append (cleared l ∷ a) b =
    ap (λ r. l ++ (10 ∷ r)) (received-append a b)
    ∙ sym (append_assoc l (10 ∷ received a) (received b))
received-append (rest l ∷ a) b =
    ap (λ r. l ++ r) (received-append a b) ∙ sym (append_assoc l (received a) (received b))

-- All that was received is accounted for, but for what is left where the program exits: that is in batch
-- mode, and starts with the mark of the end.
unfoldable pub Whole : Bool → List ℕ → List Shown × Bool → Type 0
unfolding received
Whole batch_mode bytes (out, stops) =
    (left : List ℕ) × (received out ++ left ≡ bytes)
    × (((stops ≡ true) × (batch_mode ≡ true) × Starts eod_mark left)
        ⊎ ((stops ≡ false) × (left ≡ [])))

-- One buffer.
pub show_buffer-Whole :
    (batch_mode : Bool) (bytes : List ℕ)
    → listed 0 bytes ≡ false
    → Whole batch_mode bytes (show_buffer batch_mode bytes)
unfolding show_buffer Whole Covers received
show_buffer-Whole batch_mode bytes h =
    by_place (show_lines (length bytes + 1) batch_mode bytes 0)
      (show_lines-Covers (length bytes + 1) batch_mode bytes 0)
  where
    empty : (l : List ℕ) → length l ≡ 0 → l ≡ []
    empty [] e = refl
    empty (b ∷ l) e = absurd omega (arith, e)

    all :
        (out : List Shown) (buff_ptr : List ℕ)
        → received out ++ buff_ptr ≡ bytes
        → received (out ++ rest (c_string buff_ptr) ∷ []) ++ [] ≡ bytes
    all out buff_ptr same =
        let no_nul : listed 0 buff_ptr ≡ false =
          ground (arith, h, ap (listed 0) same, listed-append 0 (received out) buff_ptr) in
        append-nil _
        ∙ received-append out (rest (c_string buff_ptr) ∷ [])
        ∙ ap (λ r. received out ++ r)
            (append-nil (c_string buff_ptr) ∙ c_string-whole buff_ptr no_nul)
        ∙ same

    by_place :
        (r : List Shown × Place)
        → Covers batch_mode bytes 0 r
        → Whole batch_mode bytes (elim r.1 [
          | exited _ ↦ (r.0, true)
          | at buff_ptr written ↦
              (if written == length bytes then r.0 else r.0 ++ rest (c_string buff_ptr) ∷ [], false)
        ])
    by_place (out, exited buff_ptr) (same, batch, marked) =
        (buff_ptr, same, inl (refl, batch, marked))
    by_place (out, at buff_ptr n) (same, count) = elim (Bool-cases (n == length bytes)) [
      | inl e ↦ rw e (buff_ptr, same, inr (refl, empty buff_ptr (ground (arith, count, e))))
      | inr e ↦ rw e ([], all out buff_ptr same, inr (refl, refl))
    ]
