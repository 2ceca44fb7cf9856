-- ===== src/Tests/Clients.antt =====
-- Clients of the local socket: two that connect, one that asks twice for a slot, and one that closes.
use batman_adv_userspace.Base.{
  ℕ, ◌≡◌, refl, [], ◌∷◌, List, none, some, false, ◌==◌, Returns, if◌then◌else◌, listed, Distinct,
  arith, replicate, Bool-cases, inl, inr,
}
use batman_adv_userspace.Clients.{
  UnixIf, Selected, goes_on, IsStart, Reached, Accepts, IsListed, IsValid, GoesOn, OtherSock,
  Answers, Present, init_unix, unix_round, unix_listen_lem, answer_sock, answer_sock_lem,
  answer_sock-dangles, close_client, serve_clients, serve_clients_lem, behind_last, leaves, assign,
}

abbrev cold : UnixIf
cold = record {
  unix_sock = 3;
  clients = λ p. none;
  client_list = [];
  unix_packet = λ i. none;
  fd_list = λ i. if i == 1 then 1 ∷ [] else [];
  clients_num = λ i. if i == 1 then 1 else 0;
  wait_sockets = λ fd. false;
  max_sock = 0;
  lost = [];
  next = 100;
}

cold-IsStart : IsStart cold
unfolding Distinct listed
cold-IsStart = record {
  clients = λ p. refl;
  slots = λ i. ground arith;
  counts = λ i. ground arith;
  distinct = λ i. ground arith;
}

only_stdout : (sock i : ℕ) → (1 == sock) ≡ false → listed sock (cold.fd_list i) ≡ false
unfolding listed
only_stdout sock i h = elim (Bool-cases (i == 1)) [ inl e ↦ rw (e, h) refl | inr e ↦ rw e refl ]

-- A connection on the descriptor `sock`.
abbrev connects : ℕ → Selected
connects sock = record {
  res = 1;
  interrupted = false;
  ready = λ fd. fd == 3;
  accepted = some sock;
  reads = λ fd. [];
}

-- A message of the client on `sock`.
abbrev says : ℕ → List ℕ → Selected
says sock bytes = record {
  res = 1;
  interrupted = false;
  ready = λ fd. fd == sock;
  accepted = none;
  reads = λ fd. bytes;
}

abbrev ping : List ℕ
ping = 112 ∷ replicate 20 0

abbrev after : Selected → UnixIf → UnixIf
after s u = elim (unix_round 5 s u) [ some (goes_on v packets) ↦ v | _ ↦ u ]

abbrev one : UnixIf
one = after (connects 5) (init_unix cold)

abbrev two : UnixIf
two = after (connects 6) one

abbrev asked : UnixIf
asked = after (says 5 ping) one

abbrev twice : UnixIf
twice = after (says 5 ping) asked

one-Reached : Reached 5 one
unfolding init_unix unix_round OtherSock Accepts
one-Reached =
    Reached.round 5 (connects 5) (init_unix cold) one [] (Reached.set_up 5 cold cold-IsStart)
      (record { clients = λ p. tt; descriptors = λ i. only_stdout 5 i refl }) refl

two-Reached : Reached 5 two
unfolding init_unix unix_round OtherSock Accepts assign
two-Reached =
    Reached.round 5 (connects 6) one two [] one-Reached
      (record { clients = λ p. ground arith; descriptors = λ i. only_stdout 6 i refl }) refl

asked-Reached : Reached 5 asked
unfolding init_unix unix_round Accepts
asked-Reached =
    Reached.round 5 (says 5 ping) one asked ((0, replicate 19 0) ∷ []) one-Reached tt refl

twice-Reached : Reached 5 twice
unfolding init_unix unix_round Accepts
twice-Reached =
    Reached.round 5 (says 5 ping) asked twice ((1, replicate 19 0) ∷ []) asked-Reached tt refl

unix_listen_example : IsListed 5 one × Returns (unix_round 5 (says 5 ping) one) λ r. GoesOn 5 r
unfolding Accepts
unix_listen_example = unix_listen_lem 5 (says 5 ping) one one-Reached tt

answer_sock_example : Returns (answer_sock 1 twice) λ o. Answers 1 twice o
answer_sock_example = answer_sock_lem 5 0 twice twice-Reached

answer_sock-dangles_example : Returns (close_client 5 100 asked) λ v. answer_sock 0 v ≡ none
unfolding unix_round init_unix
answer_sock-dangles_example =
    answer_sock-dangles 5 100 (record { sock = 5; debug_level = 0; uid = 0 }) asked asked-Reached
      refl refl

-- The client on 6 closes, and the one before it is listed no more.
serve_clients_example : Returns (serve_clients 5 (says 6 []) [] (100 ∷ 101 ∷ []) two) λ r.
    IsValid 5 r.0
    × (r.0.client_list ≡ behind_last (leaves (says 6 []) two) (100 ∷ 101 ∷ []))
    × Present r.0 r.0.client_list
unfolding unix_round init_unix Present Distinct listed Accepts
serve_clients_example =
    serve_clients_lem 5 (says 6 []) (100 ∷ 101 ∷ []) two
      (unix_listen_lem 5 (says 6 []) two two-Reached tt).0.valid ((5, refl), ((6, refl), tt))
      (refl, (refl, tt))
