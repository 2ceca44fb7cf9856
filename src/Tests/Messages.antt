-- ===== src/Tests/Messages.antt =====
-- Links, queue, frames and timeouts on concrete values.
use batman_adv_userspace.Base.{
  false, Option, ℕ, ◌≡◌, ◌⊎◌, inr, ◌∷◌, [], refl, none, some, arith, if◌then◌else◌, ◌==◌, List,
}
use batman_adv_userspace.Routes.{RecvBuff, update_hna, update_hna-own-faults}
use batman_adv_userspace.Schedule.{
  WriteResult, send_packet, insert_forw, decided, Inserted, insert_forw_lem, send_packet_lem,
}
use batman_adv_userspace.Originator.{
  IsSound, IsRanking, Ranking, own_sum, rank_others, rank_others_lem,
}
use batman_adv_userspace.Purge.{
  purge_live, purge_live-faults, timed_out, purge_neighs, purge_neighs_lem, alive, some_dead,
  AllUpTo, tq_of, Chosen,
}
use batman_adv_userspace.Mesh.{orig_at, Mesh, neigh_at, Event, NeighNode, at}
use batman_adv_userspace.Tests.Data.{mac_a, neigh, hosts, orig_a, mesh, queued}

update_hna-own-faults_example : update_hna 1 RecvBuff.own 6 mesh ≡ none
unfolding at
update_hna-own-faults_example = update_hna-own-faults mesh 1 orig_a hosts refl refl

insert_forw_example :
    Inserted
      (queued 5)
      (queued 3 ∷ queued 5 ∷ queued 9 ∷ [])
      (insert_forw (queued 5) (queued 3 ∷ queued 5 ∷ queued 9 ∷ []))
insert_forw_example =
    insert_forw_lem (queued 5) (queued 3 ∷ queued 5 ∷ queued 9 ∷ [])
      ((omega arith, (omega arith, tt)), ((omega arith, tt), (tt, tt)))

abbrev after_one : ℕ → WriteResult
after_one n = if n == 0 then WriteResult.again else WriteResult.written

abbrev message : Event
message = Event.tap hosts

send_packet_example : send_packet after_one message mesh ≡ decided (after_one 1) message mesh
send_packet_example =
    send_packet_lem after_one 1 message mesh (omega arith) (λ j lt. ground arith) (inr λ e. cc)

abbrev neighs : List NeighNode
neighs = neigh 7 100 220 ∷ neigh 8 300000 90 ∷ neigh 9 300000 120 ∷ []

purge_neighs_example :
    ((purge_neighs 400000 neighs none).0 ≡ alive 400000 neighs)
    × ((purge_neighs 400000 neighs none).1 ≡ some_dead 400000 neighs)
    × AllUpTo (tq_of (purge_neighs 400000 neighs none).2) (alive 400000 neighs)
    × ((((purge_neighs 400000 neighs none).2 ≡ none) × (alive 400000 neighs ≡ []))
        ⊎ ((b : NeighNode) × ((purge_neighs 400000 neighs none).2 ≡ some b)
            × Chosen (alive 400000 neighs) b))
purge_neighs_example = purge_neighs_lem 400000 neighs

-- The router, at 7, timed out, and the neighbour at 8 did not.
abbrev mesh_stale : Mesh
mesh_stale = record mesh {
  origs =
      (1, record orig_a { router = some 7; neigh_list = neigh 7 100 220 ∷ neigh 8 300000 90 ∷ [] })
      ∷ [];
}

purge_live-faults_example : purge_live 400000 1 mesh_stale ≡ none
unfolding at neigh_at timed_out
purge_live-faults_example =
    purge_live-faults 400000 1 7 mesh_stale
      (record orig_a { router = some 7; neigh_list = neigh 7 100 220 ∷ neigh 8 300000 90 ∷ [] })
      (neigh 8 300000 90) [] refl refl refl refl refl

-- The originator of the neighbours counts three own broadcasts on the first interface.
abbrev mesh_counting : Mesh
mesh_counting = record mesh { origs = (1, record orig_a { bcast_own_sum = 3 ∷ [] }) ∷ [] }

abbrev start_ranking : Ranking
start_ranking = record { max_tq = 0; max_bcast_own = 0; best = none }

sound : (q : ℕ) → IsSound mesh_counting 0 (neigh q 100 220)
unfolding at orig_at own_sum
sound q = record {
  ring = record { full = refl; inside = omega arith };
  bytes = (
    omega arith,
    (
      omega arith,
      (
        omega arith,
        (
          omega arith,
          (
            omega arith,
            (omega arith, (omega arith, (omega arith, (omega arith, (omega arith, tt))))),
          ),
        ),
      ),
    ),
  );
  sum = 3;
  own = refl;
}

rank_others_example :
    (r : List NeighNode × Option ℕ × Ranking) × (rank_others
        (some 7)
        mac_a
        0
        false
        (neigh 7 100 220 ∷ neigh 8 100 220 ∷ [])
        none
        start_ranking
        mesh_counting
      ≡ some (r, mesh_counting))
    × IsRanking mesh_counting
        (some 7)
        mac_a
        0
        false
        (neigh 7 100 220 ∷ neigh 8 100 220 ∷ [])
        none
        start_ranking
        r
rank_others_example =
    rank_others_lem mesh_counting (some 7) mac_a 0 false (neigh 7 100 220 ∷ neigh 8 100 220 ∷ [])
      none start_ranking (sound 7, (sound 8, tt))
