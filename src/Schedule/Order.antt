-- ===== src/Schedule/Order.antt =====
-- The queue stays in the order of its send times.
use batman_adv_userspace.Base.{
  ℕ, ◌+◌, ◌≤◌, ◌≡◌, refl, ap, List, [], ◌∷◌, ◌++◌, arith, Bool-cases, inl, inr, ltb,
}
use batman_adv_userspace.Mesh.{ForwNode}
use batman_adv_userspace.Schedule.Defs.{insert_forw}

-- Every packet of the queue is to be sent at `t` or later; at `t` or earlier.
abbrev pub AllFrom : ℕ → List ForwNode → Type 0
AllFrom t [] = Unit
AllFrom t (n ∷ r) = (t ≤ n.send_time) × AllFrom t r

abbrev pub AllUntil : ℕ → List ForwNode → Type 0
AllUntil t [] = Unit
AllUntil t (n ∷ r) = (n.send_time ≤ t) × AllUntil t r

abbrev pub IsOrdered : List ForwNode → Type 0
IsOrdered [] = Unit
IsOrdered (n ∷ r) = AllFrom n.send_time r × IsOrdered r

AllFrom-weaken : (s t : ℕ) (q : List ForwNode) → s ≤ t → AllFrom t q → AllFrom s q
AllFrom-weaken s t [] h a = tt
AllFrom-weaken s t (n ∷ r) h (a, b) = (omega arith, AllFrom-weaken s t r h b)

insert_forw-AllFrom :
    (n : ForwNode) (t : ℕ) (q : List ForwNode)
    → t ≤ n.send_time
    → AllFrom t q
    → AllFrom t (insert_forw n q)
unfolding insert_forw
insert_forw-AllFrom n t [] h a = (h, tt)
insert_forw-AllFrom n t (m ∷ r) h (a, b) = elim (Bool-cases (ltb n.send_time m.send_time)) [
  | inl e ↦ rw e (h, (a, b))
  | inr e ↦ rw e (a, insert_forw-AllFrom n t r h b)
]

-- Where the packet goes, and the order that it leaves: behind all that are to be sent no later, before
-- all that are to be sent later.
pub record Inserted (n : ForwNode) (q q' : List ForwNode) : Type 0 where
  pub before : List ForwNode
  pub after : List ForwNode
  pub split : q ≡ before ++ after
  pub joined : q' ≡ before ++ n ∷ after
  pub no_later : AllUntil n.send_time before
  pub later : AllFrom (n.send_time + 1) after
  pub ordered : IsOrdered q'

-- Into a queue in the order of the send times, a packet is put behind all that are to be sent no
-- later and before all that are to be sent later; nothing is lost, and the queue stays in order.
pub insert_forw_lem :
    (n : ForwNode) (q : List ForwNode) → IsOrdered q → Inserted n q (insert_forw n q)
unfolding insert_forw
insert_forw_lem n [] o = record {
  before = [];
  after = [];
  split = refl;
  joined = refl;
  no_later = tt;
  later = tt;
  ordered = (tt, tt);
}
insert_forw_lem n (m ∷ r) (f, o) =
    let i = insert_forw_lem n r o in
    elim (Bool-cases (ltb n.send_time m.send_time)) [
      | inl e ↦ rw e (record {
        before = [];
        after = m ∷ r;
        split = refl;
        joined = refl;
        no_later = tt;
        later = (ground arith, AllFrom-weaken (n.send_time + 1) m.send_time r (ground arith) f);
        ordered =
            ((ground arith, AllFrom-weaken n.send_time m.send_time r (ground arith) f), (f, o));
      })
      | inr e ↦ rw e (record {
        before = m ∷ i.before;
        after = i.after;
        split = ap (λ t. m ∷ t) i.split;
        joined = ap (λ t. m ∷ t) i.joined;
        no_later = (ground arith, i.no_later);
        later = i.later;
        ordered = (insert_forw-AllFrom n m.send_time r (ground arith) f, i.ordered);
      })
    ]
