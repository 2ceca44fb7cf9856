-- ===== src/Tests/Command.antt =====
-- A command line with a gateway class, and what a client gets.
use batman_adv_userspace.Base.{ℕ, List, [], ◌∷◌, false, refl, listed}
use batman_adv_userspace.Options.{
  Number, Opt, Accepted, apply_init_args, apply_init_args_lem, Whole, Unbroken, ByMarks,
  show_buffer, show_buffer_lem,
}

abbrev five : Number
five = record { value = 5; range_error = false; other_error = false }

apply_init_args_example : Accepted 5 (apply_init_args 5 (Opt.gateway five ∷ Opt.interval five ∷ []))
apply_init_args_example = apply_init_args_lem 5 (Opt.gateway five ∷ Opt.interval five ∷ [])

-- BOD, a line, and the start of another.
abbrev table : List ℕ
table = 66 ∷ 79 ∷ 68 ∷ 10 ∷ 97 ∷ 10 ∷ 98 ∷ []

show_buffer_example :
    Whole false table (show_buffer false table)
    × Unbroken (show_buffer false table).0
    × ByMarks false (show_buffer false table).0
unfolding listed
show_buffer_example = show_buffer_lem false table refl
