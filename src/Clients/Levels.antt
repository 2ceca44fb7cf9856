-- ===== src/Clients/Levels.antt =====
-- The lists of `debug_clients`: a client that is allocated is on the list of its level and on no other, once,
-- and the counters are the lengths.
use batman_adv_userspace.Base.{
  ℕ, suc, ◌+◌, ◌-◌, ◌%◌, ◌^◌, ◌<◌, ◌≤◌, ◌==◌, ◌≡◌, refl, ◌∙◌, List, [], ◌∷◌, Option, none, some,
  true, false, ◌⊎◌, inl, inr, ◌&&◌, arith, Bool-cases, ==_iff, if◌then◌else◌, length, listed,
  Distinct, ltb, leb,
}
use mathlib.Core.Path.{subst}
use batman_adv_userspace.Clients.Defs.{
  assign, UnixClient, UnixIf, level_index, remove_fd, detach, leave_level,
}
use batman_adv_userspace.Clients.Slots.{assign-all}

unfoldable pub HasLevel : ℕ → Option UnixClient → Type 0
HasLevel m none = Unit
HasLevel m (some c) = (c.debug_level ≡ 0) ⊎ ((49 ≤ c.debug_level) × (c.debug_level < 49 + m))

unfoldable pub Watches : List ℕ → ℕ → Option UnixClient → Type 0
Watches l i none = Unit
Watches l i (some c) = listed c.sock l ≡ (c.debug_level == i + 49)

-- Clients at two addresses have two sockets.
unfoldable pub Apart : ℕ → ℕ → Option UnixClient → Option UnixClient → Type 0
Apart p q none o = Unit
Apart p q (some c) none = Unit
Apart p q (some c) (some d) = ((p == q) ≡ true) ⊎ ((c.sock == d.sock) ≡ false)

pub record IsWatched (m : ℕ) (clients : ℕ → Option UnixClient) (fd_list : ℕ → List ℕ)
    (clients_num : ℕ → ℕ) : Type 0 where
  pub counts : (i : ℕ) → clients_num i ≡ length (fd_list i) % 2 ^ 16
  pub distinct : (i : ℕ) → Distinct (fd_list i)
  pub levels : (p : ℕ) → HasLevel m (clients p)
  pub watches : (p i : ℕ) → Watches (fd_list i) i (clients p)
  pub apart : (p q : ℕ) → Apart p q (clients p) (clients q)

-- `remove_fd` on a list without repetition.
pub remove_fd_self :
    (fd : ℕ) (l : List ℕ) (n : ℕ) → Distinct l → listed fd (remove_fd fd l n).0 ≡ false
unfolding remove_fd listed Distinct
remove_fd_self fd [] n d = refl
remove_fd_self fd (q ∷ r) n (new, d) = elim (Bool-cases (q == fd)) [
  | inl e ↦ rw (e, ← (==_iff q fd).0 e) new
  | inr e ↦ rw (e, e) (remove_fd_self fd r n d)
]

pub remove_fd-others :
    (fd q : ℕ) (l : List ℕ) (n : ℕ) → (q == fd) ≡ false → listed q (remove_fd fd l n).0 ≡ listed q l
unfolding remove_fd listed
remove_fd-others fd q [] n h = refl
remove_fd-others fd q (x ∷ r) n h = ground (arith, h, remove_fd-others fd q r n h)

pub remove_fd-Distinct : (fd : ℕ) (l : List ℕ) (n : ℕ) → Distinct l → Distinct (remove_fd fd l n).0
unfolding remove_fd Distinct
remove_fd-Distinct fd [] n d = tt
remove_fd-Distinct fd (q ∷ r) n (new, d) = elim (Bool-cases (q == fd)) [
  | inl e ↦ rw e d
  | inr e ↦ rw e (remove_fd-others fd q r n e ∙ new, remove_fd-Distinct fd r n d)
]

pub remove_fd-count :
    (fd : ℕ) (l : List ℕ) (n k : ℕ)
    → n ≡ (k + length l) % 2 ^ 16
    → (remove_fd fd l n).1 ≡ (k + length (remove_fd fd l n).0) % 2 ^ 16
unfolding remove_fd
remove_fd-count fd [] n k h = h
remove_fd-count fd (q ∷ r) n k h = elim (Bool-cases (q == fd)) [
  | inl e ↦ rw e (omega (arith, h))
  | inr e ↦
      let more : n ≡ (suc k + length r) % 2 ^ 16 = omega (arith, h) in
      rw e (omega (arith, remove_fd-count fd r n (suc k) more))
]

-- What remains of a level's list, and of its count, when the client leaves it.
unfoldable pub left_list : UnixClient → (ℕ → List ℕ) → (ℕ → ℕ) → ℕ → List ℕ
left_list c lists nums =
    if c.debug_level == 0
    then lists
    else assign (c.debug_level - 49)
        (remove_fd c.sock (lists (c.debug_level - 49)) (nums (c.debug_level - 49))).0 lists

unfoldable pub left_num : UnixClient → (ℕ → List ℕ) → (ℕ → ℕ) → ℕ → ℕ
left_num c lists nums =
    if c.debug_level == 0
    then nums
    else assign (c.debug_level - 49)
        (remove_fd c.sock (lists (c.debug_level - 49)) (nums (c.debug_level - 49))).1 nums

pub leave_level_lem :
    (m : ℕ) (c : UnixClient) (u : UnixIf)
    → HasLevel m (some c)
    → leave_level m c u
      ≡ some (record u {
        fd_list = left_list c u.fd_list u.clients_num;
        clients_num = left_num c u.fd_list u.clients_num;
      })
unfolding leave_level detach level_index HasLevel left_list left_num
leave_level_lem m c u (inl z) = rw z refl
leave_level_lem m c u (inr (a, b)) =
    let there : (c.debug_level == 0) ≡ false = ground (arith, a) in
    let here : (leb 49 c.debug_level && ltb c.debug_level (49 + m)) ≡ true = ground (arith, a, b) in
    rw (there, here) refl

-- Facts about the lists and the counts after it, each from the facts about those before.
module _ (m : ℕ) (c : UnixClient) (clients : ℕ → Option UnixClient) (lists : ℕ → List ℕ)
    (nums : ℕ → ℕ) (W : IsWatched m clients lists nums) where
  pub left_list_self :
      (p : ℕ) → clients p ≡ some c → (i : ℕ) → listed c.sock (left_list c lists nums i) ≡ false
  unfolding left_list Watches HasLevel
  left_list_self p e i = elim (Bool-cases (c.debug_level == 0)) [
    | inl z ↦ rw z (on_list i ∙ ground (arith, z))
    | inr z ↦
        let large : 49 ≤ c.debug_level = ground (arith, level, z) in
        rw z (
          assign-all (λ j l. listed c.sock l ≡ false) (c.debug_level - 49) _ lists
            (remove_fd_self c.sock (lists (c.debug_level - 49)) (nums (c.debug_level - 49))
              (W.distinct (c.debug_level - 49)))
            (λ j n. on_list j ∙ ground (arith, n, large)) i)
  ]
    where
      on_list : (j : ℕ) → listed c.sock (lists j) ≡ (c.debug_level == j + 49)
      on_list j = subst (Watches (lists j) j) e (W.watches p j)

      level : HasLevel m (some c)
      level = subst (HasLevel m) e (W.levels p)

  pub left_list-others :
      (fd i : ℕ)
      → (fd == c.sock) ≡ false
      → listed fd (left_list c lists nums i) ≡ listed fd (lists i)
  unfolding left_list
  left_list-others fd i h = elim (Bool-cases (c.debug_level == 0)) [
    | inl z ↦ rw z refl
    | inr z ↦ rw z (
        assign-all (λ j l. listed fd l ≡ listed fd (lists j)) (c.debug_level - 49) _ lists
          (remove_fd-others c.sock fd (lists (c.debug_level - 49)) (nums (c.debug_level - 49)) h)
          (λ j n. refl) i)
  ]

  pub left_list-Distinct : (i : ℕ) → Distinct (left_list c lists nums i)
  unfolding left_list
  left_list-Distinct i = elim (Bool-cases (c.debug_level == 0)) [
    | inl z ↦ rw z (W.distinct i)
    | inr z ↦ rw z (
        assign-all (λ j l. Distinct l) (c.debug_level - 49) _ lists
          (remove_fd-Distinct c.sock (lists (c.debug_level - 49)) (nums (c.debug_level - 49))
            (W.distinct (c.debug_level - 49)))
          (λ j n. W.distinct j) i)
  ]

  pub left_num-count :
      (i : ℕ) → left_num c lists nums i ≡ length (left_list c lists nums i) % 2 ^ 16
  unfolding left_list left_num assign
  left_num-count i = elim (Bool-cases (c.debug_level == 0)) [
    | inl z ↦ rw z (W.counts i)
    | inr z ↦ elim (Bool-cases (i == c.debug_level - 49)) [
      | inl e ↦
          let before = W.counts (c.debug_level - 49) in
          rw (z, e)
            (omega (
              arith,
              remove_fd-count c.sock (lists (c.debug_level - 49)) (nums (c.debug_level - 49)) 0
                  (omega (arith, before)),
            ))
      | inr e ↦ rw (z, e) (W.counts i)
    ]
  ]
