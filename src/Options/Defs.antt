-- ===== src/Options/Defs.antt =====
-- posix-specific.c, `apply_init_args`: the loop over the options and the checks behind it. What `getopt`
-- returns is the list of options, with what `strtol` and `inet_pton` make of an argument. A `long` is
-- its 64-bit pattern, and the globals keep the widths of batman-adv.c.
use batman_adv_userspace.Base.{
  ℕ, ◌+◌, ◌^◌, ◌%◌, ◌==◌, List, [], ◌∷◌, Bool, true, false, Option, none, some, ◌&&◌, ◌||◌, not,
  if◌then◌else◌, ltb, leb,
}

-- What `strtol` returns and leaves in `errno`.
pub record Number : Type 0 where
  pub value : ℕ
  pub range_error : Bool
  pub other_error : Bool

pub data Opt : Type 0 where
  batch : Opt
  client : Opt
  debug : Number → Opt
  gateway : Number → Opt
  interval : Number → Opt
  prefer : Option ℕ → Opt
  routing : Number → Opt
  server : Option ℕ → Opt
  informs : Opt

pub record Options : Type 0 where
  pub batch_mode : ℕ
  pub unix_client : ℕ
  pub debug_level : ℕ
  pub gateway_class : ℕ
  pub originator_interval : ℕ
  pub pref_gateway : ℕ
  pub routing_class : ℕ
  pub vis_server : ℕ
  pub found_args : ℕ

abbrev pub default_options : Options
default_options = record {
  batch_mode = 0;
  unix_client = 0;
  debug_level = 0;
  gateway_class = 0;
  originator_interval = 1000;
  pref_gateway = 0;
  routing_class = 0;
  vis_server = 0;
  found_args = 1;
}

-- The program goes on with the options, or exits: with success after -H, -h, -v or -V, and else with a
-- failure.
pub data Parsed : Type 0 where
  goes_on : Options → Parsed
  exits : (success : Bool) → Parsed

-- The test of `errno` behind `strtol`; `byte` is the global after the assignment.
unfoldable pub bad_number : Number → ℕ → Bool
bad_number n byte = n.range_error || (n.range_error || n.other_error) && byte == 0

unfoldable pub two_more : Options → Options
two_more o = record o { found_args = (o.found_args + 2) % 2 ^ 8 }

unfoldable pub apply_opt : ℕ → Options → Opt → Parsed
unfolding bad_number two_more
apply_opt debug_level_max o Opt.batch =
    goes_on (record o { batch_mode = (o.batch_mode + 1) % 2 ^ 8 })
apply_opt debug_level_max o Opt.client =
    goes_on (record o { unix_client = (o.unix_client + 1) % 2 ^ 8 })
apply_opt debug_level_max o (Opt.debug n) =
    let level = n.value % 2 ^ 8 in
    if bad_number n level || ltb debug_level_max level
    then exits false
    else goes_on (two_more (record o { debug_level = level }))
apply_opt debug_level_max o (Opt.gateway n) =
    let class = n.value % 2 ^ 8 in
    if bad_number n class || ltb 11 class
    then exits false
    else goes_on (two_more (record o { gateway_class = class }))
apply_opt debug_level_max o (Opt.interval n) =
    let time = n.value % 2 ^ 16 in
    if time == 0 || leb (2 ^ 15) time
    then exits false
    else goes_on (two_more (record o { originator_interval = time }))
apply_opt debug_level_max o (Opt.prefer none) = exits false
apply_opt debug_level_max o (Opt.prefer (some addr)) =
    goes_on (two_more (record o { pref_gateway = addr }))
apply_opt debug_level_max o (Opt.routing n) =
    let class = n.value % 2 ^ 8 in
    if ltb 3 class then exits false else goes_on (two_more (record o { routing_class = class }))
apply_opt debug_level_max o (Opt.server none) = exits false
apply_opt debug_level_max o (Opt.server (some addr)) =
    goes_on (two_more (record o { vis_server = addr }))
apply_opt debug_level_max o Opt.informs = exits true

-- The loop over the options.
unfoldable pub read_opts : ℕ → Options → List Opt → Parsed
unfolding apply_opt
read_opts debug_level_max o [] = goes_on o
read_opts debug_level_max o (x ∷ xs) = elim (apply_opt debug_level_max o x) [
  | goes_on p ↦ read_opts debug_level_max p xs
  | exits success ↦ exits success
]

-- The three checks behind the loop.
unfoldable pub check_opts : Options → Parsed
check_opts o =
    if not (o.gateway_class == 0) && not (o.routing_class == 0)
    then exits false
    else (if not (o.gateway_class == 0) && not (o.pref_gateway == 0)
        then exits false
        else (if o.routing_class == 0 && not (o.pref_gateway == 0) then exits false else goes_on o))

unfoldable pub apply_init_args : ℕ → List Opt → Parsed
unfolding read_opts check_opts
apply_init_args debug_level_max opts = elim (read_opts debug_level_max default_options opts) [
  | goes_on o ↦ check_opts o
  | exits success ↦ exits success
]
