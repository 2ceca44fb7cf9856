-- ===== src/Clients/Debug.antt =====
-- posix-specific.c: `debug_output`, the set-up of `debug_clients` in `apply_init_args`, and `cleanup`. What
-- a format prints is left out.
use batman_adv_userspace.Base.{
  ℕ, zero, suc, ◌-◌, ◌^◌, ◌==◌, List, [], ◌∷◌, ◌++◌, Bool, true, false, Option, none, some, ◌&&◌,
  ◌||◌, not, if◌then◌else◌, ltb, leb, ◌>>=◌,
}
use batman_adv_userspace.Clients.Defs.{UnixIf, assign}

-- What a message starts with.
pub data Kind : Type 0 where
  bod : Kind
  eod : Kind
  plain : Kind

-- `converts` tells whether the format reads an argument.
pub record Message : Type 0 where
  pub kind : Kind
  pub converts : Bool

pub data Output : Type 0 where
  log : Output
  print : Output
  stamp : ℕ → Output
  clear : Output
  text : ℕ → Output

unfoldable pub is_bod : Kind → Bool
is_bod Kind.bod = true
is_bod _ = false

unfoldable pub is_eod : Kind → Bool
is_eod Kind.eod = true
is_eod _ = false

-- The loop over the descriptors. `used` tells whether `vdprintf` was called with the `va_list` before,
-- which leaves it without a value: reading an argument from it again is a fault.
unfoldable pub write_entries : ℕ → Bool → Message → Bool → List ℕ → Option (List Output)
unfolding is_bod is_eod
write_entries debug_level stamped m used [] = some []
write_entries debug_level stamped m used (fd ∷ r) =
    let on_screen = (debug_level == 1 || debug_level == 2) && fd == 1 in
    let clears = on_screen && is_bod m.kind in
    let skips = on_screen && is_eod m.kind in
    let prints = not clears && not skips in
    let rest = write_entries debug_level stamped m (used || prints) r in
    let stamps = if stamped then stamp fd ∷ [] else [] in
    let this = if clears then clear ∷ [] else (if skips then [] else text fd ∷ []) in
    if prints && (used && m.converts)
    then none
    else (rest >>= λ out. some (stamps ++ (this ++ out)))

-- What priority 0 does before the clients are looked at.
unfoldable pub daemon_output : ℕ → List Output
daemon_output debug_level =
    if debug_level == 0
    then log ∷ []
    else (if debug_level == 4
        then stamp 1 ∷ print ∷ []
        else (if debug_level == 3 then print ∷ [] else []))

abbrev pub debug_level_max : ℕ
debug_level_max = 5

unfoldable pub intern_prio : ℕ → ℕ
intern_prio debug_prio = if debug_prio == 0 then 3 else debug_prio - 1

-- `clients_num` is an `int16_t`.
unfoldable pub has_clients : ℕ → Bool
has_clients num = ltb 0 num && ltb num (2 ^ 15)

-- With the mutex free; where it is taken the function reports that with priority 0. The lists have
-- `debug_level_max` places, and reading behind them is a fault.
unfoldable pub debug_output : ℕ → ℕ → Message → UnixIf → Option (List Output)
unfolding write_entries daemon_output intern_prio has_clients
debug_output debug_level debug_prio m u =
    let i = intern_prio debug_prio in
    let first = if debug_prio == 0 then daemon_output debug_level else [] in
    if leb debug_level_max i
    then none
    else if has_clients (u.clients_num i)
    then (do out ← write_entries debug_level (i == 3) m false (u.fd_list i); some (first ++ out))
    else some first

-- The lists are empty, but for the one of the daemon's own level, which has the standard output.
unfoldable pub init_debug : ℕ → UnixIf → UnixIf
unfolding assign
init_debug debug_level u =
    if debug_level == 0 then record u { fd_list = λ i. []; clients_num = λ i. 0 } else record u {
      fd_list = assign (debug_level - 1) (1 ∷ []) (λ i. []);
      clients_num = assign (debug_level - 1) 1 (λ i. 0);
    }

-- The loop over the levels: the entries of a list are freed where its counter is not 0.
unfoldable pub cleanup : ℕ → UnixIf → UnixIf
unfolding assign has_clients
cleanup zero u = u
cleanup (suc i) u =
    let v = cleanup i u in
    if has_clients (v.clients_num i) then record v { fd_list = assign i [] v.fd_list } else v
