-- ===== src/Devices/Select.antt =====
-- posix-specific.c, `apply_init_args`: `select` waits for every interface and for the tap device, and the
-- MTU of the device is at most that of each interface.
use batman_adv_userspace.Base.{
  ℕ, ◌≤◌, ◌≡◌, refl, List, [], ◌∷◌, true, Option, none, some, inl, inr, arith, Bool-cases,
  Option-cases, if◌then◌else◌, ltb,
}
use batman_adv_userspace.TransTable.{zero_addr}
use batman_adv_userspace.Devices.Defs.{put_fd, TapCalls, tap_create}
use batman_adv_userspace.Devices.Start.{
  Device, Daemon, IfCalls, Started, exits, starts, init_interface, count_interface, wait_for,
  add_interfaces, StartCalls, start_tap, start_local, start_sockets, start_daemon,
}
use batman_adv_userspace.Devices.Awaited.{
  AreAwaited, Fits, AllFit, IsAwaited, AreAwaited-more, Adds, init_interface_lem,
  count_interface-IsAwaited,
}

-- Behind the loop over the interfaces.
unfoldable pub Added : List IfCalls → ℕ → Started (Unit {0}) → Type 0
Added all t (exits e) = Unit
Added all t (starts _ e) = IsAwaited e × (e.tap_mtu ≤ t) × AllFit all e.tap_mtu

Fits-less : (s t : ℕ) (o : Option ℕ) → s ≤ t → Fits t o → Fits s o
unfolding Fits
Fits-less s t none h F = tt
Fits-less s t (some mtu) h F = omega (arith, h, F)

-- The smaller of two MTUs is at most both.
widen :
    (all : List IfCalls) (calls : IfCalls) (t mtu old : ℕ) (s : Started (Unit {0}))
    → t ≡ (if ltb mtu old then mtu else old)
    → Fits mtu calls.mtu
    → Added all t s
    → Added (calls ∷ all) old s
unfolding Added AllFit
widen all calls t mtu old (exits e) h F A = tt
widen all calls t mtu old (starts _ e) h F (A, low, G) =
    let small : e.tap_mtu ≤ mtu = ground (arith, h, low) in
    (A, ground (arith, h, low), (Fits-less e.tap_mtu mtu calls.mtu small F, G))

Adds-least :
    (calls : IfCalls) (d e : Daemon) (mtu : ℕ)
    → Adds calls d (starts mtu e)
    → (count_interface mtu e).tap_mtu ≡ (if ltb mtu d.tap_mtu then mtu else d.tap_mtu)
unfolding Adds count_interface wait_for
Adds-least calls d e mtu (j, devices, small, set, top, t, F) = rw t refl

Adds-Fits :
    (calls : IfCalls) (d e : Daemon) (mtu : ℕ) → Adds calls d (starts mtu e) → Fits mtu calls.mtu
unfolding Adds
Adds-Fits calls d e mtu (j, devices, small, set, top, t, F) = F

-- The loop over the interfaces.
add_interfaces_lem :
    (all : List IfCalls) (d : Daemon) → IsAwaited d → Added all d.tap_mtu (add_interfaces all d)
unfolding add_interfaces Added AllFit
add_interfaces_lem [] d A = (A, omega arith, tt)
add_interfaces_lem (calls ∷ r) d A =
    by_result (init_interface calls first d) (init_interface_lem calls first d)
      (λ e B. add_interfaces_lem r e B)
  where
    first : Device
    first = record { if_num = d.found_ifs; raw_sock = 0; hw_addr = zero_addr }

    by_result :
        (s : Started ℕ)
        → Adds calls d s
        → ((e : Daemon) → IsAwaited e → Added r e.tap_mtu (add_interfaces r e))
        → Added
            (calls ∷ r)
            d.tap_mtu
            (elim s [ exits e ↦ exits e | starts mtu e ↦ add_interfaces r (count_interface mtu e) ])
    by_result (exits e) B later = tt
    by_result (starts mtu e) B later =
        widen r calls (count_interface mtu e).tap_mtu mtu d.tap_mtu
          (add_interfaces r (count_interface mtu e)) (Adds-least calls d e mtu B)
          (Adds-Fits calls d e mtu B)
          (later (count_interface mtu e) (count_interface-IsAwaited mtu calls d e B A))

-- What holds where the daemon runs.
unfoldable pub Runs : List IfCalls → Started (Unit {0}) → Type 0
Runs all (exits e) = Unit
Runs all (starts _ e) =
    IsAwaited e
    × (e.receive_wait_set e.tap_sock ≡ true)
    × (e.tap_sock ≤ e.receive_max_sock)
    × AllFit all e.tap_mtu

start_tap_lem :
    (all : List IfCalls) (calls : TapCalls) (d : Daemon)
    → IsAwaited d
    → AllFit all d.tap_mtu
    → Runs all (start_tap calls d)
unfolding start_tap Runs wait_for IsAwaited put_fd
start_tap_lem all calls d A F = elim (Option-cases (tap_create calls d.tap_mtu d.fds).0) [
  | inl e ↦ rw (start_tap, e) tt
  | inr (t, e) ↦
      rw (start_tap, e)
        (
          AreAwaited-more d.devices d.receive_wait_set d.receive_max_sock t.tap A,
          ground arith,
          omega arith,
          F,
        )
]

start_local_lem :
    (all : List IfCalls) (calls : StartCalls) (d : Daemon)
    → Runs all (starts tt d)
    → Runs all (start_local calls d)
unfolding start_local Runs IsAwaited
start_local_lem all calls d R = elim (Bool-cases calls.bind_ok) [
  | inr a ↦ rw (start_local, a) tt
  | inl a ↦ elim (Bool-cases calls.listen_ok) [
    | inr b ↦ rw (start_local, a, b) tt
    | inl b ↦ rw (start_local, a, b) R
  ]
]

start_sockets_lem :
    (all : List IfCalls) (calls : StartCalls) (d : Daemon)
    → Runs all (starts tt d)
    → Runs all (start_sockets calls d)
unfolding start_sockets Runs IsAwaited
start_sockets_lem all calls d R = by_vis calls.vis_socket refl
  where
    by_vis : (o : Option (Option ℕ)) → calls.vis_socket ≡ o → Runs all (start_sockets calls d)
    by_vis none e = rw (start_sockets, e) (start_local_lem all calls d R)
    by_vis (some none) e = rw (start_sockets, e) tt
    by_vis (some (some sock)) e =
        rw (start_sockets, e)
          (start_local_lem all calls (record d { fds = put_fd sock true d.fds }) R)

-- Where the daemon starts, select waits for the socket of every interface and for the tap device; each
-- of these sockets is below 128, and the MTU is at most the one that each interface reports.
pub start_daemon_lem :
    (all : List IfCalls) (calls : StartCalls) (d : Daemon)
    → d.devices ≡ []
    → Runs all (start_daemon all calls d)
unfolding start_daemon IsAwaited AreAwaited Runs Added
start_daemon_lem all calls d none_yet =
    looped (add_interfaces all d) (add_interfaces_lem all d (rw none_yet tt))
  where
    tapped :
        (s : Started (Unit {0}))
        → Runs all s
        → Runs all (elim s [ exits g ↦ exits g | starts _ g ↦ start_sockets calls g ])
    tapped (exits g) R = R
    tapped (starts _ g) R = start_sockets_lem all calls g R

    looped :
        (s : Started (Unit {0}))
        → Added all d.tap_mtu s
        → Runs all (elim s [
          | exits e ↦ exits e
          | starts _ e ↦ elim (start_tap calls.tap e) [
            | exits g ↦ exits g
            | starts _ g ↦ start_sockets calls g
          ]
        ])
    looped (exits e) A = tt
    looped (starts _ e) (A, low, F) =
        tapped (start_tap calls.tap e) (start_tap_lem all calls.tap e A F)
