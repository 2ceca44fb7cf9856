-- ===== src/Clients/Close.antt =====
-- posix-specific.c, a client of `unix_listen` that closes.
use batman_adv_userspace.Base.{
  ℕ, suc, ◌==◌, ◌≡◌, ◌≢◌, refl, sym, ◌∙◌, none, some, false, ◌⊎◌, inl, inr, arith, Bool-cases,
  ==_iff, if◌then◌else◌, Returns,
}
use mathlib.Core.Path.{subst}
use batman_adv_userspace.Clients.Defs.{assign, UnixClient, UnixIf, close_client}
use batman_adv_userspace.Clients.Slots.{assign_self, assign-ne, assign-all}
use batman_adv_userspace.Clients.Slots.{Owned, Holds, IsSlotted, Owned-others, Holds-others}
use batman_adv_userspace.Clients.Levels.{
  HasLevel, Watches, left_list, left_num, leave_level_lem, left_list-others, left_list-Distinct,
  left_num-count,
}
use batman_adv_userspace.Clients.Change.{SameSock, change-IsWatched}
use batman_adv_userspace.Clients.Valid.{IsValid, Kept, Kept-assign, fresh-assign}

-- The slots after a close.
cleared :
    (p : ℕ) (c : UnixClient) (u : UnixIf)
    → u.clients p ≡ some c
    → IsSlotted u
    → IsSlotted (record u {
      unix_packet = if c.uid == 0 then u.unix_packet else assign c.uid none u.unix_packet;
      clients = assign p none u.clients;
    })
unfolding Owned Holds
cleared p c u e S = elim (Bool-cases (c.uid == 0)) [
  | inl z ↦ rw z record {
    owned = λ i. Owned-others u.clients p c none (suc i) _ e (ground (arith, z)) (S.owned i);
    holds = assign-all (λ q o. Holds u.unix_packet q o) p none u.clients tt (λ q n. S.holds q);
  }
  | inr z ↦ rw z record {
    owned = λ i. elim (Bool-cases (suc i == c.uid)) [
      | inl s ↦ rw ((==_iff (suc i) c.uid).0 s, assign_self c.uid none u.unix_packet) tt
      | inr n ↦
          rw (assign-ne c.uid (suc i) none u.unix_packet n)
            (Owned-others u.clients p c none (suc i) _ e (ground (arith, n)) (S.owned i))
    ];
    holds =
        assign-all (λ q o. Holds (assign c.uid none u.unix_packet) q o) p none u.clients tt
          (λ q n.
            Holds-others u.unix_packet c.uid none q (u.clients q)
              (other q n z (subst (Holds u.unix_packet p) e (S.holds p))) (S.holds q));
  }
]
  where
    other :
        (q : ℕ)
        → (q == p) ≡ false
        → (c.uid == 0) ≡ false
        → (c.uid ≡ 0) ⊎ (u.unix_packet c.uid ≡ some p)
        → u.unix_packet c.uid ≢ some q
    other q n z (inl y) = absurd ground (arith, z, y)
    other q n z (inr s) = λ t. same_ptr (sym s ∙ t)
      where
        same_ptr : some p ≢ some q
        same_ptr = λ t. absurd ground (arith, n, t)

-- A close returns, and takes only this client.
pub close_client_lem :
    (m p : ℕ) (c : UnixClient) (u : UnixIf)
    → IsValid m u
    → u.clients p ≡ some c
    → Returns (close_client m p u) λ v. IsValid m v × Kept p u v × (v.clients p ≡ none)
unfolding close_client Watches HasLevel SameSock
close_client_lem m p c u V e =
    let left = leave_level_lem m c u (subst (HasLevel m) e (V.watched.levels p)) in
    let S = cleared p c u e V.slotted in
    let v : UnixIf = record u {
      fd_list = left_list c u.fd_list u.clients_num;
      clients_num = left_num c u.fd_list u.clients_num;
      unix_packet = if c.uid == 0 then u.unix_packet else assign c.uid none u.unix_packet;
      wait_sockets = assign c.sock false u.wait_sockets;
      clients = assign p none u.clients;
    } in
    (
      v,
      rw (close_client, e, left) refl,
      (
        record {
          slotted = record { owned = S.owned; holds = S.holds };
          watched =
              change-IsWatched m p c none u.clients u.fd_list v.fd_list u.clients_num v.clients_num
                V.watched e tt (left_list-others m c u.clients u.fd_list u.clients_num V.watched)
                (left_num-count m c u.clients u.fd_list u.clients_num V.watched)
                (left_list-Distinct m c u.clients u.fd_list u.clients_num V.watched) (λ i. tt) tt;
          fresh = fresh-assign p u.next c none u.clients e V.fresh;
        },
        Kept-assign p none u v refl,
        assign_self p none u.clients,
      ),
    )
