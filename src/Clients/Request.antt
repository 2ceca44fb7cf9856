-- ===== src/Clients/Request.antt =====
-- posix-specific.c: what the client mode of `apply_init_args` writes is what `unix_listen` reads.
use batman_adv_userspace.Base.{
  ℕ, ◌+◌, ◌≤◌, ◌≡◌, refl, List, [], true, some, ltb, leb, length, arith, ◌>>=◌,
}
use batman_adv_userspace.Options.{client_request}
use batman_adv_userspace.Clients.Defs.{UnixIf, client_message, debug_message}

-- A request for a level that the daemon has is a 'd' message with that level.
pub client_request-client_message :
    (m p debug_level : ℕ) (unused : List ℕ) (u : UnixIf)
    → 1 ≤ debug_level
    → debug_level ≤ m
    → client_message m p (client_request debug_level unused) u
      ≡ (debug_message m p (48 + debug_level) u >>= λ v. some (v, []))
unfolding client_message client_request
client_request-client_message m p debug_level unused u low high =
    let long : ltb 2 (length (client_request debug_level unused)) ≡ true = ground arith in
    let above : ltb 48 (48 + debug_level) ≡ true = ground (arith, low) in
    let below : leb (48 + debug_level) (m + 48) ≡ true = ground (arith, high) in
    rw (client_message, long, above, below) refl
