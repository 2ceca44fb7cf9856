-- ===== src/Clients/Defs.antt =====
-- posix-specific.c, `unix_listen`: the clients of the local socket. A client is allocated at an address,
-- and `client_list`, linked as list-batman.c links it, and `unix_packet` name it by that address. Reading
-- through a dangling pointer or out of an array of `debug_clients` is a fault. The mutexes and the
-- messages for the log are not modelled.
use batman_adv_userspace.Base.{
  ℕ, zero, suc, ◌+◌, ◌-◌, ◌%◌, ◌^◌, ◌==◌, List, [], ◌∷◌, Bool, true, false, Option, none, some,
  ◌&&◌, if◌then◌else◌, ltb, leb, get_or, drop, length, ◌>>=◌,
}
use batman_adv_userspace.Frames.{icmp_packet_size}

-- A map with a new value at one place.
unfoldable pub assign {ℓ} : {A : Type ℓ} → ℕ → A → (ℕ → A) → ℕ → A
assign p v f q = if q == p then v else f q

pub record UnixClient : Type 0 where
  pub sock : ℕ
  pub debug_level : ℕ
  pub uid : ℕ

-- `debug_clients`, and the globals of the thread. `lost` are the clients that are allocated and named
-- nowhere; every address from `next` on is free.
pub record UnixIf : Type 0 where
  pub unix_sock : ℕ
  pub clients : ℕ → Option UnixClient
  pub client_list : List ℕ
  pub unix_packet : ℕ → Option ℕ
  pub fd_list : ℕ → List ℕ
  pub clients_num : ℕ → ℕ
  pub wait_sockets : ℕ → Bool
  pub max_sock : ℕ
  pub lost : List ℕ
  pub next : ℕ

-- The set-up of the thread: the loop over `unix_packet` ends before the last slot.
unfoldable pub init_unix : UnixIf → UnixIf
unfolding assign
init_unix u = record u {
  client_list = [];
  unix_packet = λ i. if ltb i 255 then none else u.unix_packet i;
  wait_sockets = assign u.unix_sock true (λ fd. false);
  max_sock = u.unix_sock;
}

-- `debug_level - '1'` as an index of the arrays of `debug_clients`.
unfoldable pub level_index : ℕ → ℕ → Option ℕ
level_index debug_level_max level =
    if leb 49 level && ltb level (49 + debug_level_max) then some (level - 49) else none

-- The loop that takes the first entry of a descriptor out of a list, with the count beside it.
unfoldable pub remove_fd : ℕ → List ℕ → ℕ → List ℕ × ℕ
remove_fd fd [] num = ([], num)
remove_fd fd (q ∷ r) num =
    let (rest, count) = remove_fd fd r num in
    if q == fd then (r, (num + (2 ^ 16 - 1)) % 2 ^ 16) else (q ∷ rest, count)

unfoldable pub detach : ℕ → ℕ → ℕ → UnixIf → Option UnixIf
unfolding level_index remove_fd assign
detach debug_level_max level fd u = do
  i ← level_index debug_level_max level
  some (record u {
    fd_list = assign i (remove_fd fd (u.fd_list i) (u.clients_num i)).0 u.fd_list;
    clients_num = assign i (remove_fd fd (u.fd_list i) (u.clients_num i)).1 u.clients_num;
  })

unfoldable pub attach : ℕ → ℕ → ℕ → UnixIf → Option UnixIf
unfolding level_index assign
attach debug_level_max level fd u = do
  i ← level_index debug_level_max level
  some (record u {
    fd_list = assign i (fd ∷ u.fd_list i) u.fd_list;
    clients_num = assign i ((u.clients_num i + 1) % 2 ^ 16) u.clients_num;
  })

-- What follows where the client had a level: its entry is removed.
unfoldable pub leave_level : ℕ → UnixClient → UnixIf → Option UnixIf
unfolding detach
leave_level debug_level_max c u =
    if c.debug_level == 0 then some u else detach debug_level_max c.debug_level c.sock u

-- A 'd' message with the level `level`: the same level a second time switches it off.
unfoldable pub debug_message : ℕ → ℕ → ℕ → UnixIf → Option UnixIf
unfolding leave_level attach assign
debug_message debug_level_max p level u = do
  c ← u.clients p
  v ← leave_level debug_level_max c u
  if c.debug_level == level
      then some (record v { clients = assign p (some (record c { debug_level = 0 })) v.clients })
      else (do
        w ← attach debug_level_max level c.sock v
        some (record w { clients = assign p (some (record c { debug_level = level })) w.clients }))

-- The first of `n` slots from `i` on that is NULL.
unfoldable pub free_slot : ℕ → ℕ → (ℕ → Option ℕ) → Option ℕ
free_slot zero i slots = none
free_slot (suc n) i slots = elim (slots i) [ none ↦ some i | some _ ↦ free_slot n (i + 1) slots ]

-- The client gets a slot where its uid is 0 and one is free.
unfoldable pub take_slot : ℕ → UnixClient → UnixIf → UnixIf
unfolding free_slot assign
take_slot p c u =
    if c.uid == 0
    then elim (free_slot 255 0 u.unix_packet) [
      | none ↦ u
      | some i ↦ record u {
        unix_packet = assign i (some p) u.unix_packet;
        clients = assign p (some (record c { uid = i })) u.clients;
      }
    ]
    else u

unfoldable pub holds_slot : ℕ → ℕ → UnixIf → Bool
holds_slot p uid u = elim (u.unix_packet uid) [ none ↦ false | some q ↦ q == p ]

-- A 'p' message; the packet goes to `handle_packet` with the client's uid where it holds its slot.
unfoldable pub packet_message : ℕ → List ℕ → UnixIf → Option (UnixIf × List (ℕ × List ℕ))
unfolding take_slot holds_slot
packet_message p bytes u = do
  c ← u.clients p
  let v = take_slot p c u
  c' ← v.clients p
  some (v, if holds_slot p c'.uid v then (c'.uid, bytes) ∷ [] else [])

-- A message of at least one byte.
unfoldable pub client_message : ℕ → ℕ → List ℕ → UnixIf → Option (UnixIf × List (ℕ × List ℕ))
unfolding packet_message debug_message
client_message debug_level_max p buff u =
    if get_or buff 0 0 == 112
    then (if length buff == icmp_packet_size + 2
        then packet_message p (drop 2 buff) u
        else some (u, []))
    else (if get_or buff 0 0 == 100
          && (ltb 2 (length buff)
              && (ltb 48 (get_or buff 2 0) && leb (get_or buff 2 0) (debug_level_max + 48)))
        then (do v ← debug_message debug_level_max p (get_or buff 2 0) u; some (v, []))
        else some (u, []))

-- The client is closed: its entry and its slot are cleared and it is freed. The list is up to the caller.
unfoldable pub close_client : ℕ → ℕ → UnixIf → Option UnixIf
unfolding leave_level assign
close_client debug_level_max p u = do
  c ← u.clients p
  v ← leave_level debug_level_max c u
  some (record v {
    unix_packet = if c.uid == 0 then v.unix_packet else assign c.uid none v.unix_packet;
    wait_sockets = assign c.sock false v.wait_sockets;
    clients = assign p none v.clients;
  })
