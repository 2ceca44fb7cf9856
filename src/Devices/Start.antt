-- ===== src/Devices/Start.antt =====
-- posix-specific.c: `init_interface`, the part of `apply_init_args` that starts the daemon behind the
-- options, `restore_defaults` and `restore_and_exit`. What `init_interface` and the start get from the
-- system is in records. Not modelled: the daemon's fork, the signals, the threads and the messages.
use batman_adv_userspace.Base.{
  ℕ, ◌+◌, ◌-◌, ◌%◌, ◌^◌, ◌==◌, List, [], ◌∷◌, ◌++◌, Bool, true, false, Option, none, some,
  if◌then◌else◌, ltb, leb, max,
}
use batman_adv_userspace.Mesh.{Mac}
use batman_adv_userspace.TransTable.{zero_addr}
use batman_adv_userspace.Devices.Defs.{Fds, put_fd, RawCalls, rawsock_create, TapCalls, tap_create}

-- The fields of `struct batman_if` that the start writes.
pub record Device : Type 0 where
  pub if_num : ℕ
  pub raw_sock : ℕ
  pub hw_addr : Mac

pub record Daemon : Type 0 where
  pub fds : Fds
  pub devices : List Device
  pub tap_sock : ℕ
  pub tap_mtu : ℕ
  pub receive_max_sock : ℕ
  pub receive_wait_set : ℕ → Bool
  pub unix_sock : ℕ
  pub found_ifs : ℕ
  pub stop : Bool

-- `name_len` is the length of the name; `mtu` is `ifr_mtu` as a bit pattern.
pub record IfCalls : Type 0 where
  pub name_len : ℕ
  pub socket : Option ℕ
  pub hw_addr : Option Mac
  pub raw : RawCalls
  pub mtu : Option ℕ

unfoldable pub close_devices : List Device → Fds → Fds
unfolding put_fd
close_devices [] fds = fds
close_devices (i ∷ r) fds = close_devices r (put_fd i.raw_sock false fds)

unfoldable pub close_nonzero : ℕ → Fds → Fds
unfolding put_fd
close_nonzero sock fds = if sock == 0 then fds else put_fd sock false fds

-- The tap device is destroyed with `tap_destroy`, which closes its descriptor.
unfoldable pub restore_defaults : Daemon → Daemon
unfolding close_devices close_nonzero
restore_defaults d = record d {
  fds = close_nonzero d.unix_sock (close_nonzero d.tap_sock (close_devices d.devices d.fds));
  devices = [];
}

unfoldable pub restore_and_exit : Bool → Daemon → Daemon
unfolding close_nonzero restore_defaults
restore_and_exit unix_client d =
    if unix_client
    then d
    else restore_defaults
        (record d { stop = true; fds = close_nonzero d.tap_sock d.fds; tap_sock = 0 })

-- The program exits with a failure, or goes on with a value.
pub data Started (Value : Type 0) : Type 0 where
  exits : Daemon → Started Value
  starts : Value → Daemon → Started Value

-- An exit behind `restore_defaults`, with the interface `i` at the end of the list.
unfoldable pub abandon : Device → Daemon → Daemon
unfolding restore_defaults
abandon i d = restore_defaults (record d { devices = d.devices ++ i ∷ [] })

unfoldable pub close_tmp : ℕ → Daemon → Daemon
unfolding put_fd
close_tmp tmp d = record d { fds = put_fd tmp false d.fds }

-- The interface `i` was added to the list with zeroes in it. The value is the `int16_t` of the code.
unfoldable pub init_interface : IfCalls → Device → Daemon → Started ℕ
unfolding abandon close_tmp rawsock_create put_fd
init_interface calls i d =
    if ltb 15 calls.name_len then exits (abandon i d) else elim calls.socket [
      | none ↦ exits (abandon i d)
      | some tmp ↦ elim calls.hw_addr [
        | none ↦ exits (close_tmp tmp (abandon i (record d { fds = put_fd tmp true d.fds })))
        | some mac ↦
            let (sock, fds) = rawsock_create calls.raw (put_fd tmp true d.fds) in
            let j : Device = record i { raw_sock = sock; hw_addr = mac } in
            if leb (2 ^ 31) sock
            then exits (close_tmp tmp (abandon j (record d { fds = fds })))
            else elim calls.mtu [
              | none ↦ exits (close_tmp tmp (abandon j (record d { fds = fds })))
              | some mtu ↦
                  starts (mtu % 2 ^ 16)
                    (close_tmp tmp (record d { fds = fds; devices = d.devices ++ j ∷ [] }))
            ]
      ]
    ]

unfoldable pub last_sock : List Device → ℕ
last_sock [] = 0
last_sock (i ∷ []) = i.raw_sock
last_sock (i ∷ j ∷ r) = last_sock (j ∷ r)

-- A socket that `select` is to wait for.
unfoldable pub wait_for : ℕ → Daemon → Daemon
unfolding put_fd
wait_for sock d = record d {
  receive_max_sock = max d.receive_max_sock sock;
  receive_wait_set = put_fd sock true d.receive_wait_set;
}

-- What follows `init_interface` in the loop; the smallest MTU is kept.
unfoldable pub count_interface : ℕ → Daemon → Daemon
unfolding wait_for last_sock
count_interface mtu d =
    let e = wait_for (last_sock d.devices) d in
    record e {
      tap_mtu = if ltb mtu d.tap_mtu then mtu else d.tap_mtu;
      found_ifs = (d.found_ifs + 1) % 2 ^ 8;
    }

-- The loop over the names of the interfaces.
unfoldable pub add_interfaces : List IfCalls → Daemon → Started (Unit {0})
unfolding init_interface count_interface
add_interfaces [] d = starts tt d
add_interfaces (calls ∷ r) d =
    elim (init_interface calls (record { if_num = d.found_ifs; raw_sock = 0; hw_addr = zero_addr })
      d) [ exits e ↦ exits e | starts mtu e ↦ add_interfaces r (count_interface mtu e) ]

-- `vis_socket` is there where a server was given; the local socket is not tested.
pub record StartCalls : Type 0 where
  pub tap : TapCalls
  pub vis_socket : Option (Option ℕ)
  pub unix_socket : ℕ
  pub bind_ok : Bool
  pub listen_ok : Bool

unfoldable pub start_tap : TapCalls → Daemon → Started (Unit {0})
unfolding tap_create wait_for restore_defaults
start_tap calls d =
    let (made, fds) = tap_create calls d.tap_mtu d.fds in
    elim made [
      | none ↦ exits (restore_defaults (record d { fds = fds; tap_sock = 2 ^ 32 - 1 }))
      | some t ↦ starts tt (wait_for t.tap (record d { fds = fds; tap_sock = t.tap }))
    ]

unfoldable pub start_local : StartCalls → Daemon → Started (Unit {0})
unfolding restore_defaults put_fd
start_local calls d =
    let e : Daemon = record d {
      fds = put_fd calls.unix_socket true d.fds;
      unix_sock = calls.unix_socket;
    } in
    if calls.bind_ok
    then (if calls.listen_ok then starts tt e else exits (restore_defaults e))
    else exits (restore_defaults e)

unfoldable pub start_sockets : StartCalls → Daemon → Started (Unit {0})
unfolding restore_defaults put_fd start_local
start_sockets calls d = elim calls.vis_socket [
  | none ↦ start_local calls d
  | some made ↦ elim made [
    | none ↦ exits (restore_defaults d)
    | some sock ↦ start_local calls (record d { fds = put_fd sock true d.fds })
  ]
]

unfoldable pub start_daemon : List IfCalls → StartCalls → Daemon → Started (Unit {0})
unfolding add_interfaces start_tap start_sockets
start_daemon interfaces calls d = elim (add_interfaces interfaces d) [
  | exits e ↦ exits e
  | starts _ e ↦ elim (start_tap calls.tap e) [
    | exits g ↦ exits g
    | starts _ g ↦ start_sockets calls g
  ]
]
