-- ===== src/Clients/Thread.antt =====
-- posix-specific.c, the rest of `unix_listen`: a round of its loop, the loop, and what is done at its end.
-- `select`, `accept` and `read` are what a `Selected` says of them.
use batman_adv_userspace.Base.{
  ℕ, ◌+◌, ◌-◌, ◌%◌, ◌^◌, ◌==◌, List, [], ◌∷◌, ◌++◌, Bool, true, false, Option, none, some,
  if◌then◌else◌, ltb, max, ◌>>=◌,
}
use batman_adv_userspace.Clients.Defs.{
  UnixIf, UnixClient, assign, level_index, init_unix, client_message, close_client,
}

-- `res` is the 32-bit pattern that `select` returns; `accepted` is the new socket or a failure, and
-- `reads` the bytes by socket, none of them where `read` returns 0 or less.
pub record Selected : Type 0 where
  pub res : ℕ
  pub interrupted : Bool
  pub ready : ℕ → Bool
  pub accepted : Option ℕ
  pub reads : ℕ → List ℕ

-- A failed `accept` leaves the client that was allocated for it.
unfoldable pub accept_client : Option ℕ → UnixIf → UnixIf
unfolding assign
accept_client none u = record u { lost = u.next ∷ u.lost; next = u.next + 1 }
accept_client (some sock) u = record u {
  clients = assign u.next (some (record { sock = sock; debug_level = 0; uid = 0 })) u.clients;
  client_list = u.client_list ++ u.next ∷ [];
  wait_sockets = assign sock true u.wait_sockets;
  max_sock = max u.max_sock sock;
  next = u.next + 1;
}

-- What a client did: whether it is still there, and the packets for `handle_packet`.
pub record Served : Type 0 where
  pub unix : UnixIf
  pub closed : Bool
  pub packets : List (ℕ × List ℕ)

unfoldable pub raise_max : ℕ → UnixIf → UnixIf
raise_max sock u = record u { max_sock = max u.max_sock sock }

unfoldable pub serve_one : ℕ → Selected → ℕ → UnixIf → Option Served
unfolding client_message close_client raise_max
serve_one debug_level_max s p u = do
  c ← u.clients p
  if s.ready c.sock
      then elim (s.reads c.sock) [
        | [] ↦ (do
          v ← close_client debug_level_max p u
          some (record { unix = v; closed = true; packets = [] }))
        | b ∷ buff ↦ (do
          (v, packets) ← client_message debug_level_max p (b ∷ buff) (raise_max c.sock u)
          some (record { unix = v; closed = false; packets = packets }))
      ]
      else some (record { unix = raise_max c.sock u; closed = false; packets = [] })

-- The loop over the clients. `kept` are those before the place: `list_del` is given the head of the list
-- as the entry before the one that it takes out, and unlinks them as well.
unfoldable pub serve_clients :
    ℕ → Selected → List ℕ → List ℕ → UnixIf → Option (UnixIf × List (ℕ × List ℕ))
unfolding serve_one
serve_clients debug_level_max s kept [] u = some (record u { client_list = kept }, [])
serve_clients debug_level_max s kept (p ∷ rest) u = do
  r ← serve_one debug_level_max s p u
  (v, packets) ←
      serve_clients debug_level_max s (if r.closed then [] else kept ++ p ∷ []) rest r.unix
  some (v, r.packets ++ packets)

pub data Round : Type 0 where
  goes_on : UnixIf → List (ℕ × List ℕ) → Round
  breaks : Round

-- `res` is an `int8_t`.
unfoldable pub unix_round : ℕ → Selected → UnixIf → Option Round
unfolding accept_client serve_clients
unix_round debug_level_max s u =
    let res = s.res % 2 ^ 8 in
    if res == 0
    then some (goes_on u [])
    else (if ltb res 128
        then (if s.ready u.unix_sock then some (goes_on (accept_client s.accepted u) []) else (do
          (v, packets) ←
              serve_clients debug_level_max s [] u.client_list (record u { max_sock = u.unix_sock })
          some (goes_on v packets)))
        else some (if s.interrupted then goes_on u [] else breaks))

-- At the end of the thread an entry is taken out with the head of its list as the entry before it, so
-- that those in front of it are unlinked as well.
unfoldable pub cut_fd : ℕ → List ℕ → Option (List ℕ)
cut_fd fd [] = none
cut_fd fd (q ∷ r) = if q == fd then some r else cut_fd fd r

unfoldable pub cut_entry : ℕ → ℕ → UnixIf → UnixIf
unfolding cut_fd assign
cut_entry i fd u = elim (cut_fd fd (u.fd_list i)) [
  | none ↦ u
  | some r ↦ record u {
    fd_list = assign i r u.fd_list;
    clients_num = assign i ((u.clients_num i + (2 ^ 16 - 1)) % 2 ^ 16) u.clients_num;
  }
]

unfoldable pub drop_entry : ℕ → UnixClient → UnixIf → Option UnixIf
unfolding level_index cut_entry
drop_entry debug_level_max c u =
    if c.debug_level == 0
    then some u
    else (do i ← level_index debug_level_max c.debug_level; some (cut_entry i c.sock u))

unfoldable pub drop_client : ℕ → ℕ → UnixIf → Option UnixIf
unfolding drop_entry assign
drop_client debug_level_max p u = do
  c ← u.clients p
  v ← drop_entry debug_level_max c u
  some (record v { clients = assign p none v.clients })

unfoldable pub drop_clients : ℕ → List ℕ → UnixIf → Option UnixIf
unfolding drop_client
drop_clients debug_level_max [] u = some (record u { client_list = [] })
drop_clients debug_level_max (p ∷ rest) u = do
  v ← drop_client debug_level_max p u
  drop_clients debug_level_max rest v

-- The thread on what `select` returns in its rounds, until it breaks or the program is aborted.
unfoldable pub unix_rounds : ℕ → List Selected → UnixIf → Option (UnixIf × List (ℕ × List ℕ))
unfolding unix_round
unix_rounds debug_level_max [] u = some (u, [])
unix_rounds debug_level_max (s ∷ rounds) u = do
  r ← unix_round debug_level_max s u
  elim r [
    | breaks ↦ some (u, [])
    | goes_on v packets ↦ (do
      (w, more) ← unix_rounds debug_level_max rounds v
      some (w, packets ++ more))
  ]

unfoldable pub unix_listen : ℕ → List Selected → UnixIf → Option (UnixIf × List (ℕ × List ℕ))
unfolding init_unix unix_rounds drop_clients
unix_listen debug_level_max rounds u = do
  (v, packets) ← unix_rounds debug_level_max rounds (init_unix u)
  w ← drop_clients debug_level_max v.client_list v
  some (w, packets)
