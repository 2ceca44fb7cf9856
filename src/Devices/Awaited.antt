-- ===== src/Devices/Awaited.antt =====
-- posix-specific.c, `init_interface`: the socket of a new interface, and the set that `select` waits for.
use batman_adv_userspace.Base.{
  ℕ, ◌%◌, ◌^◌, ◌≤◌, ◌<◌, ◌==◌, ◌≡◌, refl, sym, ap, ◌∙◌, List, [], ◌∷◌, ◌++◌, Bool, true, false,
  Option, none, some, ◌⊎◌, inl, inr, arith, Bool-cases, Option-cases, if◌then◌else◌, ltb, leb, max,
}
use batman_adv_userspace.Devices.Defs.{
  minus_one, Fds, put_fd, sign_extend, RawCalls, rawsock_create,
}
use batman_adv_userspace.Devices.Start.{
  Device, Daemon, IfCalls, Started, exits, starts, init_interface, count_interface, wait_for,
  last_sock, close_tmp,
}

-- The sockets of the interfaces are in the set, at most the greatest, and fit an `int8_t`.
unfoldable pub AreAwaited : List Device → (ℕ → Bool) → ℕ → Type 0
AreAwaited [] set top = Unit
AreAwaited (i ∷ r) set top =
    ((set i.raw_sock ≡ true) × (i.raw_sock ≤ top) × (i.raw_sock < 128)) × AreAwaited r set top

-- The MTU that the interfaces report, as a `uint16_t`.
unfoldable pub Fits : ℕ → Option ℕ → Type 0
Fits t none = Unit
Fits t (some mtu) = t ≤ mtu % 2 ^ 16

unfoldable pub AllFit : List IfCalls → ℕ → Type 0
unfolding Fits
AllFit [] t = Unit
AllFit (calls ∷ r) t = Fits t calls.mtu × AllFit r t

unfoldable pub IsAwaited : Daemon → Type 0
unfolding AreAwaited
IsAwaited d = AreAwaited d.devices d.receive_wait_set d.receive_max_sock

pub AreAwaited-more :
    (xs : List Device) (set : ℕ → Bool) (top sock : ℕ)
    → AreAwaited xs set top
    → AreAwaited xs (put_fd sock true set) (max top sock)
unfolding AreAwaited put_fd
AreAwaited-more [] set top sock A = tt
AreAwaited-more (i ∷ r) set top sock ((a, b, c), A) =
    ((still, omega (arith, b), c), AreAwaited-more r set top sock A)
  where
    still : (if i.raw_sock == sock then true else set i.raw_sock) ≡ true
    still = elim (Bool-cases (i.raw_sock == sock)) [ inl e ↦ rw e refl | inr e ↦ rw e a ]

AreAwaited-last :
    (xs : List Device) (j : Device) (set : ℕ → Bool) (top : ℕ)
    → AreAwaited xs set top
    → (set j.raw_sock ≡ true) × (j.raw_sock ≤ top) × (j.raw_sock < 128)
    → AreAwaited (xs ++ j ∷ []) set top
unfolding AreAwaited
AreAwaited-last [] j set top A B = (B, tt)
AreAwaited-last (i ∷ r) j set top (C, A) B = (C, AreAwaited-last r j set top A B)

last_sock-append : (xs : List Device) (j : Device) → last_sock (xs ++ j ∷ []) ≡ j.raw_sock
unfolding last_sock
last_sock-append [] j = refl
last_sock-append (i ∷ []) j = refl
last_sock-append (i ∷ k ∷ r) j = last_sock-append (k ∷ r) j

-- What init_interface leaves where the program goes on.
unfoldable pub Adds : IfCalls → Daemon → Started ℕ → Type 0
Adds calls d (exits e) = Unit
Adds calls d (starts mtu e) =
    (j : Device) × (e.devices ≡ d.devices ++ j ∷ [])
    × (j.raw_sock < 128)
    × (e.receive_wait_set ≡ d.receive_wait_set)
    × (e.receive_max_sock ≡ d.receive_max_sock)
    × (e.tap_mtu ≡ d.tap_mtu)
    × Fits mtu calls.mtu

-- A socket that comes back through an int8_t.
sign_extend-small : (n : ℕ) → leb (2 ^ 31) (sign_extend n) ≡ false → sign_extend n < 128
unfolding sign_extend
sign_extend-small n h = elim (Bool-cases (ltb (n % 2 ^ 8) 128)) [
  | inl e ↦ rw e (ground (arith, e))
  | inr e ↦ absurd ground (arith, h, e)
]

-- The result of rawsock_create is -1 or a descriptor that came through an int8_t.
rawsock_create-result :
    (calls : RawCalls) (fds : Fds)
    → ((rawsock_create calls fds).0 ≡ minus_one)
      ⊎ ((fd : ℕ) × ((rawsock_create calls fds).0 ≡ sign_extend fd))
unfolding rawsock_create
rawsock_create-result calls fds = elim (Option-cases calls.socket) [
  | inl e ↦ inl (rw (rawsock_create, e) refl)
  | inr (fd, e) ↦ elim (Bool-cases calls.ifindex_ok) [
    | inr f ↦ inl (rw (rawsock_create, e, f) refl)
    | inl f ↦ elim (Bool-cases calls.bind_ok) [
      | inr g ↦ inl (rw (rawsock_create, e, f, g) refl)
      | inl g ↦ inr (fd, rw (rawsock_create, e, f, g) refl)
    ]
  ]
]

rawsock_create-small :
    (calls : RawCalls) (fds : Fds)
    → leb (2 ^ 31) (rawsock_create calls fds).0 ≡ false
    → (rawsock_create calls fds).0 < 128
rawsock_create-small calls fds h = elim (rawsock_create-result calls fds) [
  | inl e ↦ absurd ground (arith, h, e)
  | inr (fd, e) ↦
      let large : leb (2 ^ 31) (sign_extend fd) ≡ false = ap (leb (2 ^ 31)) (sym e) ∙ h in
      rw e (sign_extend-small fd large)
]

pub init_interface_lem :
    (calls : IfCalls) (i : Device) (d : Daemon) → Adds calls d (init_interface calls i d)
unfolding init_interface Adds Fits close_tmp
init_interface_lem calls i d = elim (Bool-cases (ltb 15 calls.name_len)) [
  | inl a ↦ rw (init_interface, a) tt
  | inr a ↦ elim (Option-cases calls.socket) [
    | inl b ↦ rw (init_interface, a, b) tt
    | inr (tmp, b) ↦ elim (Option-cases calls.hw_addr) [
      | inl c ↦ rw (init_interface, a, b, c) tt
      | inr (mac, c) ↦
          let fds = put_fd tmp true d.fds in
          elim (Bool-cases (leb (2 ^ 31) (rawsock_create calls.raw fds).0)) [
            | inl e ↦ rw (init_interface, a, b, c, e) tt
            | inr e ↦ elim (Option-cases calls.mtu) [
              | inl f ↦ rw (init_interface, a, b, c, e, f) tt
              | inr (mtu, f) ↦
                  rw (init_interface, a, b, c, e, f)
                    (
                      record i { raw_sock = (rawsock_create calls.raw fds).0; hw_addr = mac },
                      refl,
                      rawsock_create-small calls.raw fds e,
                      refl,
                      refl,
                      refl,
                      (omega arith),
                    )
            ]
          ]
    ]
  ]
]

-- One interface more.
pub count_interface-IsAwaited :
    (mtu : ℕ) (calls : IfCalls) (d e : Daemon)
    → Adds calls d (starts mtu e)
    → IsAwaited d
    → IsAwaited (count_interface mtu e)
unfolding Adds IsAwaited count_interface wait_for put_fd
count_interface-IsAwaited mtu calls d e (j, devices, small, set, top, _, _) A =
    rw (devices, last_sock-append d.devices j, set, top)
      (AreAwaited-last d.devices j _ _
        (AreAwaited-more d.devices d.receive_wait_set d.receive_max_sock j.raw_sock A)
        (ground arith, omega arith, small))
