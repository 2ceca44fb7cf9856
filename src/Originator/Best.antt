-- ===== src/Originator/Best.antt =====
-- The ranking of `update_orig` over the neighbours that did not send the packet.
use batman_adv_userspace.Base.{
  ℕ, zero, suc, ◌+◌, ◌%◌, ◌≤◌, ◌≡◌, refl, sym, ap, ◌∙◌, List, [], ◌∷◌, Option, some, Bool, true,
  false, ◌⊎◌, inl, inr, arith, Bool-cases, if◌then◌else◌, ltb, set, length, get_elem?-get_or,
  length-set, bytes_eq,
}
use mathlib.Core.Path.{subst}
use batman_adv_userspace.RingBuffer.{
  IsRing, AllAtMost, AllAtLeast, ring_buffer_set, ring_buffer_avg, ring_buffer_avg_lem,
}
use batman_adv_userspace.Address.{compare_orig}
use batman_adv_userspace.Mesh.{Mac, NeighNode, Mesh, ◌>>=◌, return}
use batman_adv_userspace.Originator.Update.{
  record_tq, own_sum, Ranking, beats, rank, rank_neigh, is_sender, rank_others,
}
use batman_adv_userspace.Originator.Order.{
  sum_of, sends, others, last_sender, taken, Yields, Over, Ranks, Ranks-kept, Ranks-taken,
  beats-Over, beats-Yields,
}

-- The ring of a neighbour is one of ten bytes, and its own originator counts the broadcasts heard on
-- this interface.
pub record IsSound (h : Mesh) (if_num : ℕ) (n : NeighNode) : Type 0 where
  pub ring : IsRing n.tq_recv n.tq_index
  pub bytes : AllAtMost 255 n.tq_recv
  pub sum : ℕ
  pub own : own_sum n if_num h ≡ some (sum, h)

abbrev pub AllSound : Mesh → ℕ → List NeighNode → Type 0
AllSound h if_num [] = Unit
AllSound h if_num (n ∷ ns) = IsSound h if_num n × AllSound h if_num ns

set-AllAtMost : (m : ℕ) (lq : List ℕ) (i v : ℕ) → AllAtMost m lq → v ≤ m → AllAtMost m (set lq i v)
set-AllAtMost m [] i v a h = tt
set-AllAtMost m (x ∷ lq) zero v (a, b) h = (h, b)
set-AllAtMost m (x ∷ lq) (suc i) v (a, b) h = (a, set-AllAtMost m lq i v b h)

from_zero : (lq : List ℕ) → AllAtLeast 0 lq
from_zero [] = tt
from_zero (v ∷ lq) = (inr (omega arith), from_zero lq)

avg_returns :
    (lq : List ℕ) → length lq ≡ 10 → AllAtMost 255 lq → (a : ℕ) × (ring_buffer_avg lq ≡ some a)
avg_returns lq l b = elim (ring_buffer_avg_lem 0 255 lq l b b (from_zero lq)) [
  | inl (_, e) ↦ (0, e)
  | inr (a, e, _, _, _) ↦ (a, e)
]

-- The neighbour after a packet that it did not bring: a 0 in its ring, and the mean of that.
abbrev pub Missed : NeighNode → NeighNode → Type 0
Missed n n' =
    (avg : ℕ) × (ring_buffer_avg (set n.tq_recv n.tq_index 0) ≡ some avg)
    × (n' ≡ record n {
      tq_recv = set n.tq_recv n.tq_index 0;
      tq_index = (n.tq_index + 1) % 10;
      tq_avg = avg;
    })

-- A neighbour that did not send the packet stays as it is by a duplicate, and else has missed one.
abbrev pub Moves : Bool → NeighNode → NeighNode → Type 0
Moves is_duplicate n n' =
    ((is_duplicate ≡ true) × (n' ≡ n)) ⊎ ((is_duplicate ≡ false) × Missed n n')

-- The list after the loop: the sender as it was, the others moved on.
abbrev pub AllMove : Mac → ℕ → Bool → List NeighNode → List NeighNode → Type 0
AllMove neigh if_num is_duplicate [] [] = Unit
AllMove neigh if_num is_duplicate (n ∷ ns) (n' ∷ ns') =
    (((sends neigh if_num n ≡ true) × (n' ≡ n))
      ⊎ ((sends neigh if_num n ≡ false) × Moves is_duplicate n n'))
    × AllMove neigh if_num is_duplicate ns ns'
AllMove neigh if_num is_duplicate _ _ = ⊥

-- What the step does for a neighbour that did not send the packet; no state changes.
record Step (h : Mesh) (if_num : ℕ) (neigh : Mac) (is_duplicate : Bool) (n n' : NeighNode)
    : Type 0 where
  run : (if is_duplicate then return n else record_tq n 0) h ≡ some (n', h)
  moves : Moves is_duplicate n n'
  same : sends neigh if_num n' ≡ sends neigh if_num n
  own : own_sum n' if_num h ≡ own_sum n if_num h

missed :
    (h : Mesh) (if_num : ℕ) (neigh : Mac) (is_duplicate : Bool) (n : NeighNode)
    → IsSound h if_num n
    → (n' : NeighNode) × Step h if_num neigh is_duplicate n n'
unfolding record_tq ring_buffer_set own_sum
missed h if_num neigh true n s =
    (n, record { run = refl; moves = inl (refl, refl); same = refl; own = refl })
missed h if_num neigh false n s =
    let there =
      get_elem?-get_or n.tq_recv n.tq_index 0 (omega (arith, s.ring.full, s.ring.inside)) in
    let lq = set n.tq_recv n.tq_index 0 in
    let (a, avg) =
      avg_returns lq (length-set n.tq_recv n.tq_index 0 ∙ s.ring.full)
        (set-AllAtMost 255 n.tq_recv n.tq_index 0 s.bytes (omega arith)) in
    (
      record n { tq_recv = lq; tq_index = (n.tq_index + 1) % 10; tq_avg = a },
      record {
        run = rw (record_tq, ◌>>=◌, ring_buffer_set, there, avg) refl;
        moves = inr (refl, (a, avg, refl));
        same = refl;
        own = refl;
      },
    )

-- The ranking of one neighbour.
rank_neigh_lem :
    (h : Mesh) (if_num : ℕ) (n : NeighNode) (router : Option ℕ) (k : Ranking) (sum : ℕ)
    → own_sum n if_num h ≡ some (sum, h)
    → (k' : Ranking) × (rank_neigh n if_num router k h ≡ some (k', h))
      × (((k' ≡ k) × Yields h if_num router k n)
          ⊎ ((k' ≡ taken (sum_of h if_num n) n)
              × Over h if_num router k.max_tq k.max_bcast_own [] n))
unfolding rank_neigh rank sum_of
rank_neigh_lem h if_num n router k sum own =
    let is : sum_of h if_num n ≡ sum = rw (sum_of, own) refl in
    elim (Bool-cases (ltb n.tq_avg k.max_tq)) [
      | inl e ↦ (k, rw (rank_neigh, e), inl (refl, inl (ground arith)))
      | inr e ↦ elim (Bool-cases (beats n (sum_of h if_num n) router k)) [
        | inl b ↦
            let b' : beats n sum router k ≡ true = rw (← is) b in
            (
              taken sum n,
              rw (rank_neigh, e, ◌>>=◌, own, rank, b') refl,
              inr (ap (λ (t : ℕ). taken t n) (sym is), beats-Over h if_num router n k b),
            )
        | inr b ↦
            let b' : beats n sum router k ≡ false = rw (← is) b in
            (
              k,
              rw (rank_neigh, e, ◌>>=◌, own, rank, b') refl,
              inl (refl, beats-Yields h if_num router n k b),
            )
      ]
    ]

is_sender-sends :
    (neigh : Mac) (if_num : ℕ) (n : NeighNode) → is_sender neigh if_num n ≡ sends neigh if_num n
unfolding is_sender compare_orig
is_sender-sends neigh if_num n = elim (Bool-cases (bytes_eq n.addr neigh)) [
  | inl e ↦ rw e refl
  | inr e ↦ rw e refl
]

-- What the loop leaves: each neighbour as it is to be, the sender's pointer, and the ranking of the
-- others as they now are.
pub record IsRanking (h : Mesh) (router : Option ℕ) (neigh : Mac) (if_num : ℕ) (is_duplicate : Bool)
    (ns : List NeighNode) (sender : Option ℕ) (k : Ranking)
    (r : List NeighNode × Option ℕ × Ranking) : Type 0 where
  pub moved : AllMove neigh if_num is_duplicate ns r.0
  pub sender_is : r.1 ≡ last_sender neigh if_num ns sender
  pub ranks : Ranks h if_num router (others neigh if_num r.0) k r.2

-- One more neighbour in front of those that are ranked.
Ranks-cons :
    (h : Mesh) (if_num : ℕ) (router : Option ℕ) (n : NeighNode) (ns : List NeighNode)
    (k k' k'' : Ranking)
    → ((k' ≡ k) × Yields h if_num router k n)
      ⊎ ((k' ≡ taken (sum_of h if_num n) n) × Over h if_num router k.max_tq k.max_bcast_own [] n)
    → Ranks h if_num router ns k' k''
    → Ranks h if_num router (n ∷ ns) k k''
Ranks-cons h if_num router n ns k k' k'' (inl (is, y)) R =
    Ranks-kept h if_num router n ns k k'' y (subst (λ x. Ranks h if_num router ns x k'') is R)
Ranks-cons h if_num router n ns k k' k'' (inr (is, o)) R =
    Ranks-taken h if_num router n ns k k'' o (subst (λ x. Ranks h if_num router ns x k'') is R)

-- Over neighbours whose rings and originators are sound, the loop of `update_orig` does not fault and
-- changes no state. The sender is kept as it is, and so are the others by a duplicate; else the others
-- get a 0 in their rings and the mean of that. The sender's pointer is that of the last neighbour with
-- its address and interface. The ranking is that of the others, with their new qualities: the one it
-- picks has more quality than the ranking at the start and each one before it, or the same and then more
-- own broadcasts, or the present router with this quality stands behind that one, up to the one picked;
-- those behind it have less quality, or the same with no more own broadcasts and are not the router.
-- Where none is picked, the ranking is as it was and all others yield to it in this way.
pub rank_others_lem :
    (h : Mesh) (router : Option ℕ) (neigh : Mac) (if_num : ℕ) (is_duplicate : Bool)
    (ns : List NeighNode) (sender : Option ℕ) (k : Ranking)
    → AllSound h if_num ns
    → (r : List NeighNode × Option ℕ × Ranking) × (rank_others router neigh if_num is_duplicate ns
          sender k h
        ≡ some (r, h))
      × IsRanking h router neigh if_num is_duplicate ns sender k r
unfolding rank_others others last_sender
rank_others_lem h router neigh if_num is_duplicate [] sender k all =
    (([], sender, k), refl, record { moved = tt; sender_is = refl; ranks = inl (refl, tt) })
rank_others_lem h router neigh if_num is_duplicate (n ∷ ns) sender k (s, all) =
    elim (Bool-cases (sends neigh if_num n)) [
      | inl e ↦
          let here : is_sender neigh if_num n ≡ true = is_sender-sends neigh if_num n ∙ e in
          let (r, run, R) =
            rank_others_lem h router neigh if_num is_duplicate ns (some n.ptr) k all in
          (
            (n ∷ r.0, r.1, r.2),
            rw (rank_others, here, ◌>>=◌, run) refl,
            record {
              moved = (inl (e, refl), R.moved);
              sender_is = rw e R.sender_is;
              ranks = rw e R.ranks;
            },
          )
      | inr e ↦
          let here : is_sender neigh if_num n ≡ false = is_sender-sends neigh if_num n ∙ e in
          let (n', S) = missed h if_num neigh is_duplicate n s in
          let (k', ranked, K) = rank_neigh_lem h if_num n' router k s.sum (S.own ∙ s.own) in
          let (r, run, R) = rank_others_lem h router neigh if_num is_duplicate ns sender k' all in
          let e' : sends neigh if_num n' ≡ false = S.same ∙ e in
          (
            (n' ∷ r.0, r.1, r.2),
            rw (rank_others, here, ◌>>=◌, S.run, ranked, run) refl,
            record {
              moved = (inr (e, S.moves), R.moved);
              sender_is = rw e R.sender_is;
              ranks =
                  rw e'
                    (Ranks-cons h if_num router n' (others neigh if_num r.0) k k' r.2 K R.ranks);
            },
          )
    ]
