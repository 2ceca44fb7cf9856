-- ===== src/Devices/Defs.antt =====
-- linux.c: the raw sockets and the tap device. The descriptors that are open are a set; what the system
-- calls of a function return is a record, with none for a descriptor that is not given out.
use batman_adv_userspace.Base.{
  ℕ, zero, suc, ◌+◌, ◌-◌, ◌%◌, ◌^◌, Bool, true, false, Option, none, some, if◌then◌else◌, ltb, ◌==◌,
  ◌&&◌,
}
use batman_adv_userspace.TransTable.{batman_maxframesize}
use batman_adv_userspace.Schedule.{WriteResult, packets_per_cycle}

abbrev pub Fds : Type 0
Fds = ℕ → Bool

unfoldable pub put_fd : ℕ → Bool → Fds → Fds
put_fd fd state fds q = if q == fd then state else fds q

-- An `int8_t` as an `int32_t`, both as bit patterns.
unfoldable pub sign_extend : ℕ → ℕ
sign_extend n = let byte = n % 2 ^ 8 in if ltb byte 128 then byte else byte + (2 ^ 32 - 2 ^ 8)

pub record RawCalls : Type 0 where
  pub socket : Option ℕ
  pub ifindex_ok : Bool
  pub bind_ok : Bool

abbrev pub minus_one : ℕ
minus_one = 2 ^ 32 - 1

-- The descriptor comes back through an `int8_t`. A failed SIOCGIFINDEX leaves it open.
unfoldable pub rawsock_create : RawCalls → Fds → ℕ × Fds
unfolding put_fd sign_extend
rawsock_create calls fds = elim calls.socket [
  | none ↦ (minus_one, fds)
  | some fd ↦
      if calls.ifindex_ok
      then (if calls.bind_ok
          then (sign_extend fd, put_fd fd true fds)
          else (minus_one, put_fd fd false (put_fd fd true fds)))
      else (minus_one, put_fd fd true fds)
]

-- The result of `readv` without the Ethernet header, or -1.
unfoldable pub rawsock_read : Option ℕ → ℕ
rawsock_read none = minus_one
rawsock_read (some packet_size) = (packet_size + (2 ^ 32 - 14)) % 2 ^ 32

-- What one `writev` of the frame does: it takes it, fails with EAGAIN or ESPIPE, or fails otherwise.
pub data Attempt : Type 0 where
  taken : Attempt
  busy : Attempt
  refused : Attempt

-- The loop over `writev`. After its last round 0 is returned, as after a write; -1 comes with the `errno`
-- of the last `writev`, which is not one to be tried again.
unfoldable pub write_loop : (ℕ → Attempt) → ℕ → ℕ → WriteResult
write_loop writev zero i = WriteResult.dropped
write_loop writev (suc rounds) i = elim (writev i) [
  | Attempt.taken ↦ WriteResult.written
  | Attempt.busy ↦ write_loop writev rounds (suc i)
  | Attempt.refused ↦ WriteResult.failed
]

unfoldable pub rawsock_write : (ℕ → Attempt) → WriteResult
unfolding write_loop
rawsock_write writev = write_loop writev packets_per_cycle 0

unfoldable pub tap_destroy : ℕ → Fds → Fds
unfolding put_fd
tap_destroy fd fds = put_fd fd false fds

pub record TapCalls : Type 0 where
  pub open_tun : Option ℕ
  pub set_iff : Bool
  pub socket : Option ℕ
  pub get_hwaddr : Bool
  pub set_hwaddr : Bool
  pub get_flags : Bool
  pub set_flags : Bool
  pub set_mtu : Bool

-- The device with the descriptor `tap`, of which `ifr_mtu` is set where the MTU is reduced.
pub record Tap : Type 0 where
  pub tap : ℕ
  pub ifr_mtu : Option ℕ

-- An error behind the socket `tmp`.
unfoldable pub tap_fails : ℕ → ℕ → Fds → Option Tap × Fds
unfolding tap_destroy put_fd
tap_fails fd tmp fds = (none, put_fd tmp false (tap_destroy fd fds))

-- The calls on the socket `tmp`. `mtu` is an `int16_t` of which the value is not negative.
unfoldable pub tap_set_up : TapCalls → ℕ → ℕ → ℕ → Fds → Option Tap × Fds
unfolding tap_fails put_fd
tap_set_up calls mtu fd tmp fds =
    if calls.get_hwaddr && (calls.set_hwaddr && (calls.get_flags && calls.set_flags))
    then (if ltb mtu 100
        then (some (record { tap = fd; ifr_mtu = none }), put_fd tmp false fds)
        else (if calls.set_mtu
            then (
              some (record { tap = fd; ifr_mtu = some (mtu - batman_maxframesize) }),
              put_fd tmp false fds,
            )
            else tap_fails fd tmp fds))
    else tap_fails fd tmp fds

-- None is the -1 of the code.
unfoldable pub tap_create : TapCalls → ℕ → Fds → Option Tap × Fds
unfolding tap_set_up tap_destroy put_fd
tap_create calls mtu fds = elim calls.open_tun [
  | none ↦ (none, fds)
  | some fd ↦
      if calls.set_iff
      then elim calls.socket [
        | none ↦ (none, tap_destroy fd (put_fd fd true fds))
        | some tmp ↦ tap_set_up calls mtu fd tmp (put_fd tmp true (put_fd fd true fds))
      ]
      else (none, put_fd fd false (put_fd fd true fds))
]
