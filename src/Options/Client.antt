-- ===== src/Options/Client.antt =====
-- posix-specific.c, `apply_init_args`: the client mode, which prints what a running daemon sends. A buffer is
-- what one `read` returned, with a NUL behind it.
use batman_adv_userspace.Base.{
  ℕ, zero, suc, ◌+◌, ◌==◌, List, [], ◌∷◌, ◌++◌, Bool, true, false, Option, none, some,
  if◌then◌else◌, length, take, bytes_eq,
}

-- A line that is printed with its newline, one that is not, one that clears the screen, and what is behind
-- the last newline.
pub data Shown : Type 0 where
  line : List ℕ → Shown
  skipped : List ℕ → Shown
  cleared : List ℕ → Shown
  rest : List ℕ → Shown

-- `strchr(buff_ptr, '\n')`: the bytes before the newline, and those behind it.
unfoldable pub find_newline : List ℕ → Option (List ℕ × List ℕ)
find_newline [] = none
find_newline (b ∷ bytes) =
    let later = find_newline bytes in
    if b == 0
    then none
    else (if b == 10
        then some ([], bytes)
        else elim later [ none ↦ none | some (before, behind) ↦ some (b ∷ before, behind) ])

unfoldable pub c_string : List ℕ → List ℕ
c_string [] = []
c_string (b ∷ bytes) = let later = c_string bytes in if b == 0 then [] else b ∷ later

abbrev pub eod_mark : List ℕ
eod_mark = 69 ∷ 79 ∷ 68 ∷ []

abbrev pub bod_mark : List ℕ
bod_mark = 66 ∷ 79 ∷ 68 ∷ []

-- Where the loop over the lines of a buffer stands at its end, or it exits.
pub data Place : Type 0 where
  at : (buff_ptr : List ℕ) → (bytes_written : ℕ) → Place
  exited : List ℕ → Place

-- What becomes of a line; none where the program exits.
unfoldable pub show_line : Bool → List ℕ → Option Shown
show_line batch_mode l =
    if bytes_eq (take 3 l) eod_mark
    then (if batch_mode then none else some (skipped l))
    else some (
        if bytes_eq (take 3 l) bod_mark
        then (if batch_mode then skipped l else cleared l)
        else line l)

unfoldable pub show_lines : ℕ → Bool → List ℕ → ℕ → List Shown × Place
unfolding find_newline show_line
show_lines zero batch_mode buff_ptr written = ([], at buff_ptr written)
show_lines (suc rounds) batch_mode buff_ptr written = elim (find_newline buff_ptr) [
  | none ↦ ([], at buff_ptr written)
  | some (l, next) ↦
      let (out, place) = show_lines rounds batch_mode next (written + (length l + 1)) in
      elim (show_line batch_mode l) [ none ↦ ([], exited buff_ptr) | some s ↦ (s ∷ out, place) ]
]

-- One buffer; true where the program exits.
unfoldable pub show_buffer : Bool → List ℕ → List Shown × Bool
unfolding show_lines c_string
show_buffer batch_mode bytes =
    let (out, place) = show_lines (length bytes + 1) batch_mode bytes 0 in
    elim place [
      | exited _ ↦ (out, true)
      | at buff_ptr written ↦
          (if written == length bytes then out else out ++ rest (c_string buff_ptr) ∷ [], false)
    ]

-- The loop over the buffers.
unfoldable pub show_buffers : Bool → List (List ℕ) → List Shown × Bool
unfolding show_buffer
show_buffers batch_mode [] = ([], false)
show_buffers batch_mode (b ∷ buffers) =
    let (out, stops) = show_buffer batch_mode b in
    let (more, stopped) = show_buffers batch_mode buffers in
    if stops then (out, true) else (out ++ more, stopped)

-- The 10 bytes that ask for a debug level of one digit; `unused` is what the buffer holds behind them.
unfoldable pub client_request : ℕ → List ℕ → List ℕ
client_request debug_level unused = 100 ∷ 58 ∷ (48 + debug_level) ∷ 0 ∷ take 6 unused
