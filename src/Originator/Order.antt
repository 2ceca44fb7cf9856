-- ===== src/Originator/Order.antt =====
-- originator.c, `update_orig`: which neighbour the ranking picks, described without the loop.
use batman_adv_userspace.Base.{
  ℕ, ◌≤◌, ◌<◌, ◌==◌, ◌≡◌, ◌≢◌, refl, ap, List, [], ◌∷◌, ◌++◌, Option, none, some, Bool, true, false,
  ◌⊎◌, inl, inr, ◌&&◌, arith, Bool-cases, if◌then◌else◌, ltb, ==_iff, bytes_eq,
}
use batman_adv_userspace.Mesh.{Mac, NeighNode, Mesh}
use batman_adv_userspace.Routes.{same_ptr}
use batman_adv_userspace.Originator.Update.{own_sum, Ranking, beats}

-- The own broadcasts that the originator of a neighbour has heard on this interface.
unfoldable pub sum_of : Mesh → ℕ → NeighNode → ℕ
sum_of h if_num n = elim (own_sum n if_num h) [ none ↦ 0 | some (sum, _) ↦ sum ]

-- Does this neighbour have the address and the interface?
abbrev pub sends : Mac → ℕ → NeighNode → Bool
sends neigh if_num n = bytes_eq n.addr neigh && n.if_incoming == if_num

-- The neighbours that did not send the packet.
unfoldable pub others : Mac → ℕ → List NeighNode → List NeighNode
others neigh if_num [] = []
others neigh if_num (n ∷ ns) =
    let rest = others neigh if_num ns in if sends neigh if_num n then rest else n ∷ rest

-- The pointer of the last neighbour that sent the packet.
unfoldable pub last_sender : Mac → ℕ → List NeighNode → Option ℕ → Option ℕ
last_sender neigh if_num [] sender = sender
last_sender neigh if_num (n ∷ ns) sender =
    last_sender neigh if_num ns (if sends neigh if_num n then some n.ptr else sender)

-- The ranking with this neighbour as the best.
abbrev pub taken : ℕ → NeighNode → Ranking
taken sum n = record { max_tq = n.tq_avg; max_bcast_own = sum; best = some n.ptr }

module _ (h : Mesh) (if_num : ℕ) (router : Option ℕ) where
  -- The present router is among these, with this quality.
  abbrev pub RouterAmong : ℕ → List NeighNode → Type 0
  RouterAmong tq [] = ⊥
  RouterAmong tq (m ∷ ms) = ((router ≡ some m.ptr) × (m.tq_avg ≡ tq)) ⊎ RouterAmong tq ms

  -- `n` has less quality than the ranking `k`, or the same, no more own broadcasts, and is not the router.
  abbrev pub Yields : Ranking → NeighNode → Type 0
  Yields k n =
      (n.tq_avg < k.max_tq)
      ⊎ ((n.tq_avg ≡ k.max_tq) × (sum_of h if_num n ≤ k.max_bcast_own) × (router ≢ some n.ptr))

  abbrev pub AllYield : Ranking → List NeighNode → Type 0
  AllYield k [] = Unit
  AllYield k (n ∷ ns) = Yields k n × AllYield k ns

  -- `b`, behind the neighbours `ms`, has more quality than `tq`, or just this, and then more own broadcasts
  -- than `own` or the router stands among `ms` and `b` with this quality.
  abbrev pub Over : ℕ → ℕ → List NeighNode → NeighNode → Type 0
  Over tq own ms b =
      (tq < b.tq_avg)
      ⊎ ((tq ≡ b.tq_avg) × ((own < sum_of h if_num b) ⊎ RouterAmong b.tq_avg (ms ++ b ∷ [])))

  -- `b` is over each of the neighbours before it.
  abbrev pub OverAll : List NeighNode → NeighNode → Type 0
  OverAll [] b = Unit
  OverAll (m ∷ ms) b = Over m.tq_avg (sum_of h if_num m) ms b × OverAll ms b

  -- One of the neighbours is picked: it is over the ranking at the start and those before it, and those
  -- behind it yield to it.
  pub record Picks (ns : List NeighNode) (k k' : Ranking) : Type 0 where
    pub before : List NeighNode
    pub best : NeighNode
    pub after : List NeighNode
    pub split : ns ≡ before ++ best ∷ after
    pub is : k' ≡ taken (sum_of h if_num best) best
    pub over : Over k.max_tq k.max_bcast_own before best
    pub earlier : OverAll before best
    pub later : AllYield k' after

  -- The ranking of some neighbours that starts with `k`: all yield to `k`, or one of them is picked.
  abbrev pub Ranks : List NeighNode → Ranking → Ranking → Type 0
  Ranks ns k k' = ((k' ≡ k) × AllYield k ns) ⊎ Picks ns k k'

  -- What is over `k` is over all that yield to `k`.
  Over-yielding :
      (k : Ranking) (n b : NeighNode) (ms : List NeighNode)
      → Yields k n
      → Over k.max_tq k.max_bcast_own ms b
      → Over n.tq_avg (sum_of h if_num n) ms b
  Over-yielding k n b ms (inl less) (inl up) = inl (omega arith)
  Over-yielding k n b ms (inl less) (inr (same, _)) = inl (omega arith)
  Over-yielding k n b ms (inr (same, few, _)) (inl up) = inl (omega arith)
  Over-yielding k n b ms (inr (same, few, _)) (inr (q, inl more)) =
      inr (omega arith, inl (omega arith))
  Over-yielding k n b ms (inr (same, few, _)) (inr (q, inr among)) = inr (omega arith, inr among)

  Over-further :
      (tq own : ℕ) (n b : NeighNode) (ms : List NeighNode)
      → Over tq own ms b
      → Over tq own (n ∷ ms) b
  Over-further tq own n b ms (inl up) = inl up
  Over-further tq own n b ms (inr (q, inl more)) = inr (q, inl more)
  Over-further tq own n b ms (inr (q, inr among)) = inr (q, inr (inr among))

  -- What is over a neighbour that was taken is over the ranking before that.
  Over-taken :
      (k : Ranking) (n b : NeighNode) (ms : List NeighNode)
      → Over k.max_tq k.max_bcast_own [] n
      → Over n.tq_avg (sum_of h if_num n) ms b
      → Over k.max_tq k.max_bcast_own (n ∷ ms) b
  Over-taken k n b ms (inl up) (inl more) = inl (omega arith)
  Over-taken k n b ms (inl up) (inr (same, _)) = inl (omega arith)
  Over-taken k n b ms (inr (q, _)) (inl more) = inl (omega arith)
  Over-taken k n b ms (inr (q, inl a)) (inr (p, inl c)) = inr (omega arith, inl (omega arith))
  Over-taken k n b ms (inr (q, inl a)) (inr (p, inr among)) = inr (omega arith, inr (inr among))
  Over-taken k n b ms (inr (q, inr (inl (router_is, _)))) (inr (p, c)) =
      inr (omega arith, inr (inl (router_is, p)))
  Over-taken k n b ms (inr (q, inr (inr none_more))) (inr (p, c)) = absurd none_more

  pub Ranks-kept :
      (n : NeighNode) (ns : List NeighNode) (k k' : Ranking)
      → Yields k n
      → Ranks ns k k'
      → Ranks (n ∷ ns) k k'
  Ranks-kept n ns k k' y (inl (is, all)) = inl (is, (y, all))
  Ranks-kept n ns k k' y (inr P) = inr record {
    before = n ∷ P.before;
    best = P.best;
    after = P.after;
    split = ap (λ t. n ∷ t) P.split;
    is = P.is;
    over = Over-further k.max_tq k.max_bcast_own n P.best P.before P.over;
    earlier = (Over-yielding k n P.best P.before y P.over, P.earlier);
    later = P.later;
  }

  pub Ranks-taken :
      (n : NeighNode) (ns : List NeighNode) (k k' : Ranking)
      → Over k.max_tq k.max_bcast_own [] n
      → Ranks ns (taken (sum_of h if_num n) n) k'
      → Ranks (n ∷ ns) k k'
  Ranks-taken n ns k k' o (inl (is, all)) = inr record {
    before = [];
    best = n;
    after = ns;
    split = refl;
    is = is;
    over = o;
    earlier = tt;
    later = rw is all;
  }
  Ranks-taken n ns k k' o (inr P) = inr record {
    before = n ∷ P.before;
    best = P.best;
    after = P.after;
    split = ap (λ t. n ∷ t) P.split;
    is = P.is;
    over = Over-taken k n P.best P.before o P.over;
    earlier = (P.over, P.earlier);
    later = P.later;
  }

same_ptr_iff : (router : Option ℕ) (p : ℕ) → same_ptr router (some p) ≡ true → router ≡ some p
unfolding same_ptr
same_ptr_iff none p e = cc e
same_ptr_iff (some q) p e = ap some ((==_iff q p).0 e)

same_ptr-not : (router : Option ℕ) (p : ℕ) → same_ptr router (some p) ≡ false → router ≢ some p
unfolding same_ptr
same_ptr-not none p e is = cc is
same_ptr-not (some q) p e is = ground (arith, e, is)

-- The test of the loop, as an order.
pub beats-Over :
    (h : Mesh) (if_num : ℕ) (router : Option ℕ) (n : NeighNode) (k : Ranking)
    → beats n (sum_of h if_num n) router k ≡ true
    → Over h if_num router k.max_tq k.max_bcast_own [] n
unfolding beats
beats-Over h if_num router n k b = elim (Bool-cases (same_ptr router (some n.ptr))) [
  | inl e ↦ elim (Bool-cases (ltb k.max_tq n.tq_avg)) [
    | inl up ↦ inl (ground arith)
    | inr up ↦ inr (ground (arith, b), inr (inl (same_ptr_iff router n.ptr e, refl)))
  ]
  | inr e ↦ elim (Bool-cases (ltb k.max_tq n.tq_avg)) [
    | inl up ↦ inl (ground arith)
    | inr up ↦ inr (ground (arith, b, e), inl (ground (arith, b, e)))
  ]
]

pub beats-Yields :
    (h : Mesh) (if_num : ℕ) (router : Option ℕ) (n : NeighNode) (k : Ranking)
    → beats n (sum_of h if_num n) router k ≡ false
    → Yields h if_num router k n
unfolding beats
beats-Yields h if_num router n k b = elim (Bool-cases (n.tq_avg == k.max_tq)) [
  | inl e ↦
      inr (ground arith, ground (arith, b, e), same_ptr-not router n.ptr (ground (arith, b, e)))
  | inr e ↦ inl (ground (arith, b, e))
]
