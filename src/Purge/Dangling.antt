-- ===== src/Purge/Dangling.antt =====
-- `purge_orig` where the router itself timed out.
use batman_adv_userspace.Base.{ℕ, ◌≡◌, refl, ◌∙◌, sym, List, [], ◌∷◌, none, some, true, inl, inr}
use batman_adv_userspace.Mesh.{OrigNode, NeighNode, Mesh, at, neigh_at, orig_at, store_orig, ◌>>=◌}
use batman_adv_userspace.Purge.Defs.{reroute, purge_live}
use batman_adv_userspace.Purge.Select.{alive, some_dead, purge_neighs_lem}

nil≢cons : {A : Type 0} {c : NeighNode} {cs : List NeighNode} → [] ≡ c ∷ cs → A
nil≢cons e = cc

-- Where the router of an originator timed out and another of its neighbours did not, `purge_orig` reads
-- the router after it was freed: it faults.
pub purge_live-faults :
    (t p q : ℕ) (h : Mesh) (o : OrigNode) (c : NeighNode) (cs : List NeighNode)
    → at p h.origs ≡ some o
    → o.router ≡ some q
    → neigh_at q (alive t o.neigh_list) ≡ none
    → some_dead t o.neigh_list ≡ true
    → alive t o.neigh_list ≡ c ∷ cs
    → purge_live t p h ≡ none
unfolding purge_live orig_at store_orig reroute
purge_live-faults t p q h o c cs found router gone dead stays =
    let (kept, flag, _, best) = purge_neighs_lem t o.neigh_list in
    elim best [
      | inl (_, empty) ↦ nil≢cons (sym empty ∙ stays)
      | inr (b, is, _) ↦
          rw
            (
              purge_live, ◌>>=◌, orig_at, found, store_orig, found, flag, dead, is, reroute, router,
              kept, gone,
            )
            refl
    ]
