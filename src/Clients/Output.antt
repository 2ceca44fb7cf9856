-- ===== src/Clients/Output.antt =====
-- posix-specific.c: what `debug_output` writes to the clients of a daemon, and the lists at the start.
use batman_adv_userspace.Base.{
  ℕ, ◌-◌, ◌^◌, ◌≤◌, ◌<◌, ◌==◌, ◌≡◌, refl, ap, ◌∙◌, List, [], ◌∷◌, ◌++◌, Option, none, some, Bool,
  true, false, inl, inr, ◌&&◌, ◌||◌, leb, arith, Bool-cases, if◌then◌else◌, length, listed,
  Distinct, ltb, ◌>>=◌,
}
use batman_adv_userspace.Clients.Defs.{UnixIf, assign}
use batman_adv_userspace.Clients.Debug.{
  Message, Output, stamp, text, Kind, write_entries, intern_prio, has_clients, debug_output,
  init_debug,
}
use batman_adv_userspace.Clients.Reach.{IsStart}

-- A line for each descriptor, in the order of the list.
unfoldable pub lines : Bool → List ℕ → List Output
lines stamped [] = []
lines stamped (fd ∷ r) = (if stamped then stamp fd ∷ [] else []) ++ (text fd ∷ lines stamped r)

-- One entry, with the level 0 of a daemon.
write_step :
    (stamped used : Bool) (m : Message) (fd : ℕ) (r : List ℕ)
    → write_entries 0 stamped m used (fd ∷ r) ≡ (
        if used && m.converts
        then none
        else (write_entries 0 stamped m true r >>= λ out.
            some ((if stamped then stamp fd ∷ [] else []) ++ (text fd ∷ out))))
unfolding write_entries
write_step stamped true m fd r = refl
write_step stamped false m fd r = refl

-- Where the format reads no argument, every entry gets the message.
write_used :
    (stamped : Bool) (k : Kind) (l : List ℕ)
    → write_entries 0 stamped (record { kind = k; converts = false }) true l
      ≡ some (lines stamped l)
unfolding write_entries lines
write_used stamped k [] = refl
write_used stamped k (fd ∷ r) =
    write_step stamped true (record { kind = k; converts = false }) fd r
    ∙ rw (write_used stamped k r) refl

write_all :
    (stamped : Bool) (k : Kind) (converts : Bool) (l : List ℕ)
    → write_entries 0 stamped (record { kind = k; converts = converts }) false l
      ≡ (if converts && ltb 1 (length l) then none else some (lines stamped l))
unfolding write_entries lines
write_all stamped k false [] = refl
write_all stamped k true [] = refl
write_all stamped k false (fd ∷ r) =
    write_step stamped false (record { kind = k; converts = false }) fd r
    ∙ rw (write_used stamped k r) refl
write_all stamped k true (fd ∷ []) =
    write_step stamped false (record { kind = k; converts = true }) fd []
write_all stamped k true (fd ∷ next ∷ r) =
    let two : ltb 1 (length (fd ∷ next ∷ r)) ≡ true = ground arith in
    write_step stamped false (record { kind = k; converts = true }) fd (next ∷ r)
    ∙ rw (write_step stamped true (record { kind = k; converts = true }) next r, two) refl

nothing_first : (o : Option (List Output)) → (o >>= λ out. some ([] ++ out)) ≡ o
nothing_first none = refl
nothing_first (some out) = refl

-- debug_output of a daemon writes a message of a level from 1 on to each client of that level, in the order
-- of the list; where the format reads an argument and there is a second client, it reads from a va_list
-- that was used, and with a level above debug_level_max it reads behind its arrays.
pub debug_output_lem :
    (debug_prio : ℕ) (m : Message) (u : UnixIf)
    → 1 ≤ debug_prio
    → u.clients_num (debug_prio - 1) ≡ length (u.fd_list (debug_prio - 1))
    → length (u.fd_list (debug_prio - 1)) < 2 ^ 15
    → debug_output 0 debug_prio m u ≡ (
        if ltb 5 debug_prio || (m.converts && ltb 1 (length (u.fd_list (debug_prio - 1))))
        then none
        else some (lines (debug_prio - 1 == 3) (u.fd_list (debug_prio - 1))))
unfolding debug_output intern_prio has_clients
debug_output_lem debug_prio m u low count small =
    let is_level : (debug_prio == 0) ≡ false = ground (arith, low) in
    elim (Bool-cases (ltb 5 debug_prio)) [
      | inl e ↦
          let behind : leb 5 (debug_prio - 1) ≡ true = ground (arith, e) in
          rw (debug_output, intern_prio, is_level, behind, e) refl
      | inr e ↦
          let inside : leb 5 (debug_prio - 1) ≡ false = ground (arith, e, low) in
          rw e (by_list (u.fd_list (debug_prio - 1)) refl is_level inside)
    ]
  where
    by_list :
        (l : List ℕ)
        → u.fd_list (debug_prio - 1) ≡ l
        → (debug_prio == 0) ≡ false
        → leb 5 (debug_prio - 1) ≡ false
        → debug_output 0 debug_prio m u ≡ (
            if m.converts && ltb 1 (length (u.fd_list (debug_prio - 1)))
            then none
            else some (lines (debug_prio - 1 == 3) (u.fd_list (debug_prio - 1))))
    by_list [] e is_level inside =
        let idle : has_clients (u.clients_num (debug_prio - 1)) ≡ false =
          ground (arith, count, ap length e) in
        rw (debug_output, intern_prio, is_level, inside, idle, e)
          (write_all (debug_prio - 1 == 3) m.kind m.converts [])
    by_list (fd ∷ r) e is_level inside =
        let busy : has_clients (u.clients_num (debug_prio - 1)) ≡ true =
          ground (arith, count, ap length e, small) in
        rw (debug_output, intern_prio, is_level, inside, busy, e)
          (nothing_first _ ∙ write_all (debug_prio - 1 == 3) m.kind m.converts (fd ∷ r))

-- The lists of the set-up are those with which unix_listen starts.
pub init_debug-IsStart :
    (debug_level : ℕ) (u : UnixIf)
    → ((p : ℕ) → u.clients p ≡ none)
    → ((i : ℕ) → u.unix_packet i ≡ none)
    → IsStart (init_debug debug_level u)
unfolding init_debug assign Distinct listed
init_debug-IsStart debug_level u clients slots = elim (Bool-cases (debug_level == 0)) [
  | inl z ↦
      rw z
        record { clients = clients; slots = λ i. unset i; counts = λ i. refl; distinct = λ i. tt }
  | inr z ↦ rw z record {
    clients = clients;
    slots = λ i. unset i;
    counts =
        λ i. elim (Bool-cases (i == debug_level - 1)) [ inl e ↦ rw e refl | inr e ↦ rw e refl ];
    distinct =
        λ i. elim (Bool-cases (i == debug_level - 1)) [ inl e ↦ rw e (refl, tt) | inr e ↦ rw e tt ];
  }
]
  where
    unset : (i : ℕ) → (if ltb i 255 then none else u.unix_packet i) ≡ none
    unset i = elim (Bool-cases (ltb i 255)) [ inl e ↦ rw e refl | inr e ↦ rw e (slots i) ]
