-- ===== src/Options/Range.antt =====
-- The options with which the program goes on are within their ranges and fit each other.
use batman_adv_userspace.Base.{
  ℕ, ◌^◌, ◌%◌, ◌≤◌, ◌<◌, ◌==◌, ◌≡◌, List, [], ◌∷◌, false, none, some, ◌&&◌, ◌||◌, not, ltb, leb,
  ◌⊎◌, inl, inr, arith, Bool-cases,
}
use batman_adv_userspace.Options.Defs.{
  Opt, Options, Parsed, goes_on, exits, bad_number, two_more, apply_opt, read_opts, check_opts,
  apply_init_args, default_options,
}

pub record IsInRange (debug_level_max : ℕ) (o : Options) : Type 0 where
  pub level : o.debug_level ≤ debug_level_max
  pub gateway : o.gateway_class ≤ 11
  pub routing : o.routing_class ≤ 3
  pub interval_min : 1 ≤ o.originator_interval
  pub interval_max : o.originator_interval < 2 ^ 15

-- Where the program goes on.
unfoldable pub Ranged : ℕ → Parsed → Type 0
Ranged m (goes_on o) = IsInRange m o
Ranged m (exits success) = Unit

apply_opt-Ranged : (m : ℕ) (o : Options) (x : Opt) → IsInRange m o → Ranged m (apply_opt m o x)
unfolding apply_opt two_more Ranged
apply_opt-Ranged m o Opt.batch R = record {
  level = R.level;
  gateway = R.gateway;
  routing = R.routing;
  interval_min = R.interval_min;
  interval_max = R.interval_max;
}
apply_opt-Ranged m o Opt.client R = record {
  level = R.level;
  gateway = R.gateway;
  routing = R.routing;
  interval_min = R.interval_min;
  interval_max = R.interval_max;
}
apply_opt-Ranged m o (Opt.debug n) R =
    let level = n.value % 2 ^ 8 in
    elim (Bool-cases (bad_number n level || ltb m level)) [
      | inl e ↦ rw e tt
      | inr e ↦ rw e record {
        level = ground (arith, e);
        gateway = R.gateway;
        routing = R.routing;
        interval_min = R.interval_min;
        interval_max = R.interval_max;
      }
    ]
apply_opt-Ranged m o (Opt.gateway n) R =
    let class = n.value % 2 ^ 8 in
    elim (Bool-cases (bad_number n class || ltb 11 class)) [
      | inl e ↦ rw e tt
      | inr e ↦ rw e record {
        level = R.level;
        gateway = ground (arith, e);
        routing = R.routing;
        interval_min = R.interval_min;
        interval_max = R.interval_max;
      }
    ]
apply_opt-Ranged m o (Opt.interval n) R =
    let time = n.value % 2 ^ 16 in
    elim (Bool-cases (time == 0 || leb (2 ^ 15) time)) [
      | inl e ↦ rw e tt
      | inr e ↦ rw e record {
        level = R.level;
        gateway = R.gateway;
        routing = R.routing;
        interval_min = ground (arith, e);
        interval_max = ground (arith, e);
      }
    ]
apply_opt-Ranged m o (Opt.prefer none) R = tt
apply_opt-Ranged m o (Opt.prefer (some addr)) R = record {
  level = R.level;
  gateway = R.gateway;
  routing = R.routing;
  interval_min = R.interval_min;
  interval_max = R.interval_max;
}
apply_opt-Ranged m o (Opt.routing n) R =
    let class = n.value % 2 ^ 8 in
    elim (Bool-cases (ltb 3 class)) [
      | inl e ↦ rw e tt
      | inr e ↦ rw e record {
        level = R.level;
        gateway = R.gateway;
        routing = ground (arith, e);
        interval_min = R.interval_min;
        interval_max = R.interval_max;
      }
    ]
apply_opt-Ranged m o (Opt.server none) R = tt
apply_opt-Ranged m o (Opt.server (some addr)) R = record {
  level = R.level;
  gateway = R.gateway;
  routing = R.routing;
  interval_min = R.interval_min;
  interval_max = R.interval_max;
}
apply_opt-Ranged m o Opt.informs R = tt

read_opts-Ranged :
    (m : ℕ) (o : Options) (xs : List Opt) → IsInRange m o → Ranged m (read_opts m o xs)
unfolding read_opts Ranged
read_opts-Ranged m o [] R = R
read_opts-Ranged m o (x ∷ xs) R =
    after (apply_opt m o x) (apply_opt-Ranged m o x R) (λ p S. read_opts-Ranged m p xs S)
  where
    after :
        (r : Parsed)
        → Ranged m r
        → ((p : Options) → IsInRange m p → Ranged m (read_opts m p xs))
        → Ranged m (elim r [ goes_on p ↦ read_opts m p xs | exits success ↦ exits success ])
    after (goes_on p) S later = later p S
    after (exits success) S later = tt

-- The options fit each other: a gateway takes no routing class and prefers no gateway, and a gateway is
-- preferred only with a routing class.
unfoldable pub Fits : Options → Type 0
Fits o =
    ((o.gateway_class ≡ 0) ⊎ ((o.routing_class ≡ 0) × (o.pref_gateway ≡ 0)))
    × ((1 ≤ o.routing_class) ⊎ (o.pref_gateway ≡ 0))

unfoldable pub Accepted : ℕ → Parsed → Type 0
Accepted m (goes_on o) = IsInRange m o × Fits o
Accepted m (exits success) = Unit

check_opts-Accepted : (m : ℕ) (o : Options) → IsInRange m o → Accepted m (check_opts o)
unfolding check_opts Accepted Fits
check_opts-Accepted m o R =
    elim (Bool-cases (not (o.gateway_class == 0) && not (o.routing_class == 0))) [
      | inl e ↦ rw e tt
      | inr e ↦ elim (Bool-cases (not (o.gateway_class == 0) && not (o.pref_gateway == 0))) [
        | inl f ↦ rw (e, f) tt
        | inr f ↦ elim (Bool-cases (o.routing_class == 0 && not (o.pref_gateway == 0))) [
          | inl g ↦ rw (e, f, g) tt
          | inr g ↦ rw (e, f, g) (R, (gateway_fits e f, routing_fits g))
        ]
      ]
    ]
  where
    gateway_fits :
        (not (o.gateway_class == 0) && not (o.routing_class == 0)) ≡ false
        → (not (o.gateway_class == 0) && not (o.pref_gateway == 0)) ≡ false
        → (o.gateway_class ≡ 0) ⊎ ((o.routing_class ≡ 0) × (o.pref_gateway ≡ 0))
    gateway_fits e f = elim (Bool-cases (o.gateway_class == 0)) [
      | inl z ↦ inl (ground (arith, z))
      | inr z ↦ inr (ground (arith, e, z), ground (arith, f, z))
    ]

    routing_fits :
        (o.routing_class == 0 && not (o.pref_gateway == 0)) ≡ false
        → (1 ≤ o.routing_class) ⊎ (o.pref_gateway ≡ 0)
    routing_fits g = elim (Bool-cases (o.routing_class == 0)) [
      | inl z ↦ inr (ground (arith, g, z))
      | inr z ↦ inl (ground (arith, z))
    ]

-- Where apply_init_args goes on, the debug level is at most its maximum, the gateway class at most 11, the
-- routing class at most 3 and the interval a positive number, and the options fit each other.
pub apply_init_args_lem :
    (debug_level_max : ℕ) (opts : List Opt)
    → Accepted debug_level_max (apply_init_args debug_level_max opts)
unfolding apply_init_args Accepted Ranged
apply_init_args_lem m opts =
    after (read_opts m default_options opts) (read_opts-Ranged m default_options opts defaults)
  where
    defaults : IsInRange m default_options
    defaults = record {
      level = omega arith;
      gateway = omega arith;
      routing = omega arith;
      interval_min = omega arith;
      interval_max = omega arith;
    }

    after :
        (r : Parsed)
        → Ranged m r
        → Accepted m (elim r [ goes_on o ↦ check_opts o | exits success ↦ exits success ])
    after (goes_on o) S = check_opts-Accepted m o S
    after (exits success) S = tt
