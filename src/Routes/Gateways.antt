-- ===== src/Routes/Gateways.antt =====
-- `update_gw_list` on an originator that is no gateway yet.
use batman_adv_userspace.Base.{
  ℕ, ◌≡◌, ◌≢◌, refl, List, [], ◌∷◌, ◌++◌, none, some, false, leb, ==_iff, ◌==◌, inl, inr,
  Bool-cases, if◌then◌else◌,
}
use batman_adv_userspace.Mesh.{GwNode, Mesh, ◌>>=◌}
use batman_adv_userspace.Routes.Defs.{mark_gateway, update_gw_list}

-- No gateway of the list is this originator.
abbrev pub NoneOf : ℕ → List GwNode → Type 0
NoneOf p [] = Unit
NoneOf p (g ∷ gws) = (g.orig_node ≢ p) × NoneOf p gws

mark_gateway-NoneOf :
    (now p class : ℕ) (gws : List GwNode) → NoneOf p gws → (mark_gateway now p class gws).0 ≡ false
unfolding mark_gateway
mark_gateway-NoneOf now p class [] n = refl
mark_gateway-NoneOf now p class (g ∷ gws) (ne, n) = elim (Bool-cases (g.orig_node == p)) [
  | inl e ↦ absurd (ne ((==_iff g.orig_node p).0 e))
  | inr e ↦ rw e (mark_gateway-NoneOf now p class gws n)
]

-- The list with a new gateway at its end, seen at `now` and not deleted.
abbrev pub joined : ℕ → ℕ → Mesh → Mesh
joined now p h = record h {
  gw_list = h.gw_list ++ record { orig_node = p; last_failure = now; deleted = 0 } ∷ [];
}

-- An originator that is no gateway yet is put at the end of the list, whatever its class; but a class
-- from 12 on, any byte that the packet may hold, reads past `gw2string` first.
pub update_gw_list-new :
    (now p class : ℕ) (h : Mesh)
    → NoneOf p h.gw_list
    → update_gw_list now p class h ≡ (if leb 12 class then none else some (tt, joined now p h))
unfolding update_gw_list
update_gw_list-new now p class h n = elim (Bool-cases (leb 12 class)) [
  | inl e ↦ rw (update_gw_list, ◌>>=◌, mark_gateway-NoneOf now p class h.gw_list n, e) refl
  | inr e ↦ rw (update_gw_list, ◌>>=◌, mark_gateway-NoneOf now p class h.gw_list n, e) refl
]
