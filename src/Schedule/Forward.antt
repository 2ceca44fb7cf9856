-- ===== src/Schedule/Forward.antt =====
-- What a forwarded packet carries.
use batman_adv_userspace.Base.{
  ℕ, ◌<◌, ◌≡◌, refl, Option, none, some, Bool, arith, not, ◌&&◌, ◌==◌, if◌then◌else◌, Bool-cases,
  inl, inr,
}
use batman_adv_userspace.Address.{compare_orig}
use batman_adv_userspace.Mesh.{Mac, NeighNode, BatmanPacket}
use batman_adv_userspace.Schedule.Defs.{best_ogm, hop_penalty, forwarded, directlink_flag}

hop_penalty-lt : (tq : ℕ) → 0 < tq → hop_penalty tq < tq
unfolding hop_penalty
hop_penalty-lt tq h = omega arith

-- The quality that the router has on record, 0 where there is none.
abbrev pub router_tq : Option NeighNode → ℕ
router_tq none = 0
router_tq (some r) = r.tq_avg

-- On every branch a forwarded packet keeps its originator and sequence number, names the neighbour that
-- sent it, and has the direct link flag and no other just where it is a direct neighbour's.
pub forwarded-fields :
    (router : Option NeighNode) (neigh : Mac) (directlink : Bool) (p : BatmanPacket)
    → ((forwarded router neigh directlink p).seqno ≡ p.seqno)
      × ((forwarded router neigh directlink p).orig ≡ p.orig)
      × ((forwarded router neigh directlink p).old_orig ≡ neigh)
      × ((forwarded router neigh directlink p).flags ≡ (if directlink then directlink_flag else 0))
unfolding forwarded best_ogm
forwarded-fields none neigh directlink p = (refl, refl, refl, refl)
forwarded-fields (some r) neigh directlink p =
    elim (Bool-cases (not (r.tq_avg == 0) && not (compare_orig r.addr neigh == 0))) [
      | inl e ↦ rw e (refl, refl, refl, refl)
      | inr e ↦ rw e (refl, refl, refl, refl)
    ]
