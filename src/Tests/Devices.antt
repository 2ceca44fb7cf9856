-- ===== src/Tests/Devices.antt =====
-- An interface, a tap device that cannot be set up, and a full device.
use batman_adv_userspace.Base.{
  ℕ, ◌≡◌, refl, [], ◌∷◌, none, some, true, false, ◌==◌, if◌then◌else◌, arith, length, ltb, ◌&&◌,
  ◌||◌, ◌-◌, inr,
}
use batman_adv_userspace.Mesh.{Event}
use batman_adv_userspace.Schedule.{send_packet}
use batman_adv_userspace.Clients.{UnixIf, Message, Kind, lines, debug_output, debug_output_lem}
use batman_adv_userspace.Devices.{
  Fds, TapCalls, Leaves, Unopened, tap_create, tap_create_lem, Attempt, frame_sent, rawsock_write,
  rawsock_write-send_packet, IfCalls, StartCalls, Daemon, Runs, start_daemon, start_daemon_lem,
}
use batman_adv_userspace.Tests.Data.{mac_a, mesh}

abbrev standard : Fds
standard fd = ltb fd 3

-- The socket gets its address, and SIOCSIFFLAGS fails.
abbrev flags_fail : TapCalls
flags_fail = record {
  open_tun = some 4;
  set_iff = true;
  socket = some 5;
  get_hwaddr = true;
  set_hwaddr = true;
  get_flags = true;
  set_flags = false;
  set_mtu = true;
}

tap_create_example : Leaves standard (tap_create flags_fail 1500 standard)
unfolding Unopened
tap_create_example = tap_create_lem flags_fail 1500 standard (refl, refl, refl)

abbrev one_busy : ℕ → ℕ → Attempt
one_busy i j = if j == 0 then Attempt.busy else Attempt.taken

rawsock_write-send_packet_example :
    send_packet (λ i. rawsock_write (one_busy i)) (Event.tap []) mesh
    ≡ frame_sent (one_busy 0 1) (Event.tap []) mesh
rawsock_write-send_packet_example =
    rawsock_write-send_packet one_busy 1 (Event.tap []) mesh (omega arith) (λ j lt. ground arith)
      (inr λ e. cc)

-- A device that is busy ten times: nothing is sent, and 0 is returned.
busy_test :
    send_packet (λ i. rawsock_write (λ j. Attempt.busy)) (Event.tap []) mesh ≡ some (true, mesh)
unfolding send_packet rawsock_write
busy_test = refl

abbrev wlan : IfCalls
wlan = record {
  name_len = 5;
  socket = some 6;
  hw_addr = some mac_a;
  raw = record { socket = some 7; ifindex_ok = true; bind_ok = true };
  mtu = some 1500;
}

abbrev works : StartCalls
works = record {
  tap = record flags_fail { set_flags = true };
  vis_socket = none;
  unix_socket = 8;
  bind_ok = true;
  listen_ok = true;
}

abbrev idle : Daemon
idle = record {
  fds = standard;
  devices = [];
  tap_sock = 0;
  tap_mtu = 2000;
  receive_max_sock = 0;
  receive_wait_set = λ fd. false;
  unix_sock = 0;
  found_ifs = 0;
  stop = false;
}

start_daemon_example : Runs (wlan ∷ []) (start_daemon (wlan ∷ []) works idle)
start_daemon_example = start_daemon_lem (wlan ∷ []) works idle refl

-- Two clients of level 2.
abbrev watched : UnixIf
watched = record {
  unix_sock = 3;
  clients = λ p. none;
  client_list = [];
  unix_packet = λ i. none;
  fd_list = λ i. if i == 1 then 5 ∷ 6 ∷ [] else [];
  clients_num = λ i. if i == 1 then 2 else 0;
  wait_sockets = λ fd. false;
  max_sock = 3;
  lost = [];
  next = 100;
}

abbrev counted : Message
counted = record { kind = Kind.plain; converts = true }

debug_output_example : debug_output 0 2 counted watched ≡ (
    if ltb 5 2 || (counted.converts && ltb 1 (length (watched.fd_list (2 - 1))))
    then none
    else some (lines (2 - 1 == 3) (watched.fd_list (2 - 1))))
debug_output_example = debug_output_lem 2 counted watched (omega arith) refl (omega arith)
