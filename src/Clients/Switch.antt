-- ===== src/Clients/Switch.antt =====
-- posix-specific.c, the 'd' messages of `unix_listen`.
use batman_adv_userspace.Base.{
  ℕ, ◌+◌, ◌-◌, ◌%◌, ◌^◌, ◌<◌, ◌≤◌, ◌==◌, ◌≡◌, refl, ◌∙◌, List, ◌∷◌, some, true, false, inl, inr,
  ◌&&◌, arith, Bool-cases, length, listed, Distinct, Returns, ltb, leb,
}
use mathlib.Core.Path.{subst}
use batman_adv_userspace.Clients.Defs.{
  assign, UnixClient, UnixIf, level_index, attach, debug_message,
}
use batman_adv_userspace.Clients.Slots.{assign-all}
use batman_adv_userspace.Clients.Levels.{
  IsWatched, HasLevel, Watches, left_list, left_num, leave_level_lem, left_list_self,
  left_list-others, left_list-Distinct, left_num-count,
}
use batman_adv_userspace.Clients.Change.{SameSock, change-IsWatched}
use batman_adv_userspace.Clients.Valid.{IsValid, Answered, IsSlotted-same, answered_lem}

module _ (m p level : ℕ) (c : UnixClient) (u : UnixIf) (V : IsValid m u)
    (e : u.clients p ≡ some c) where
  abbrev lists : ℕ → List ℕ
  lists = left_list c u.fd_list u.clients_num

  abbrev nums : ℕ → ℕ
  nums = left_num c u.fd_list u.clients_num

  level_of : HasLevel m (some c)
  level_of = subst (HasLevel m) e (V.watched.levels p)

  -- The level that the client had is switched off.
  switched_off : IsWatched m (assign p (some (record c { debug_level = 0 })) u.clients) lists nums
  unfolding Watches HasLevel SameSock
  switched_off =
      change-IsWatched m p c (some (record c { debug_level = 0 })) u.clients u.fd_list lists
        u.clients_num nums V.watched e refl
        (left_list-others m c u.clients u.fd_list u.clients_num V.watched)
        (left_num-count m c u.clients u.fd_list u.clients_num V.watched)
        (left_list-Distinct m c u.clients u.fd_list u.clients_num V.watched) (λ i. off i) (inl refl)
    where
      off : (i : ℕ) → listed c.sock (lists i) ≡ (0 == i + 49)
      off i = left_list_self m c u.clients u.fd_list u.clients_num V.watched p e i ∙ ground arith

  -- It gets another one.
  switched_on :
      49 ≤ level
      → level < 49 + m
      → IsWatched m
          (assign p (some (record c { debug_level = level })) u.clients)
          (assign (level - 49) (c.sock ∷ lists (level - 49)) lists)
          (assign (level - 49) ((nums (level - 49) + 1) % 2 ^ 16) nums)
  unfolding Watches HasLevel SameSock listed assign Distinct
  switched_on low high =
      change-IsWatched m p c (some (record c { debug_level = level })) u.clients u.fd_list new_lists
        u.clients_num new_nums V.watched e refl others counts distinct on (inr (low, high))
    where
      new_lists : ℕ → List ℕ
      new_lists = assign (level - 49) (c.sock ∷ lists (level - 49)) lists

      new_nums : ℕ → ℕ
      new_nums = assign (level - 49) ((nums (level - 49) + 1) % 2 ^ 16) nums

      gone : (i : ℕ) → listed c.sock (lists i) ≡ false
      gone i = left_list_self m c u.clients u.fd_list u.clients_num V.watched p e i

      others :
          (fd i : ℕ) → (fd == c.sock) ≡ false → listed fd (new_lists i) ≡ listed fd (u.fd_list i)
      others fd i h =
          let old = left_list-others m c u.clients u.fd_list u.clients_num V.watched fd in
          assign-all (λ j l. listed fd l ≡ listed fd (u.fd_list j)) (level - 49) _ lists
            (ground (arith, h, old (level - 49) h)) (λ j n. old j h) i

      counts : (i : ℕ) → new_nums i ≡ length (new_lists i) % 2 ^ 16
      counts i =
          let before = left_num-count m c u.clients u.fd_list u.clients_num V.watched in
          elim (Bool-cases (i == level - 49)) [
            | inl s ↦ rw s (omega (arith, before (level - 49)))
            | inr n ↦ rw n (before i)
          ]

      distinct : (i : ℕ) → Distinct (new_lists i)
      distinct =
          let before = left_list-Distinct m c u.clients u.fd_list u.clients_num V.watched in
          assign-all (λ j l. Distinct l) (level - 49) _ lists
            (gone (level - 49), before (level - 49)) (λ j n. before j)

      on : (i : ℕ) → listed c.sock (new_lists i) ≡ (level == i + 49)
      on =
          assign-all (λ j l. listed c.sock l ≡ (level == j + 49)) (level - 49) _ lists
            (ground (arith, low)) (λ j n. gone j ∙ ground (arith, n, low))

-- A 'd' message returns.
pub debug_message_lem :
    (m p level : ℕ) (c : UnixClient) (u : UnixIf)
    → IsValid m u
    → u.clients p ≡ some c
    → 49 ≤ level
    → level < 49 + m
    → Returns (debug_message m p level u) λ v. Answered m p c u v
unfolding debug_message attach level_index
debug_message_lem m p level c u V e low high =
    let left = leave_level_lem m c u (level_of m p level c u V e) in
    elim (Bool-cases (c.debug_level == level)) [
      | inl s ↦
          let off = switched_off m p level c u V e in
          let d = record c { debug_level = 0 } in
          let v = record u {
            fd_list = left_list c u.fd_list u.clients_num;
            clients_num = left_num c u.fd_list u.clients_num;
            clients = assign p (some d) u.clients;
          } in
          (
            v,
            rw (debug_message, e, left, s) refl,
            answered_lem m p c d u v V e refl refl refl
                (IsSlotted-same p c d u v e refl refl refl V.slotted) off,
          )
      | inr n ↦
          let here : (leb 49 level && ltb level (49 + m)) ≡ true = ground (arith, low, high) in
          let d = record c { debug_level = level } in
          let L = left_list c u.fd_list u.clients_num in
          let N = left_num c u.fd_list u.clients_num in
          let v = record u {
            fd_list = assign (level - 49) (c.sock ∷ L (level - 49)) L;
            clients_num = assign (level - 49) ((N (level - 49) + 1) % 2 ^ 16) N;
            clients = assign p (some d) u.clients;
          } in
          (
            v,
            rw (debug_message, e, left, n, attach, level_index, here) refl,
            answered_lem m p c d u v V e refl refl refl
                (IsSlotted-same p c d u v e refl refl refl V.slotted)
                (switched_on m p level c u V e low high),
          )
    ]
