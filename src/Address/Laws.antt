-- ===== src/Address/Laws.antt =====
-- The callbacks meet what hash.h asks of them.
use batman_adv_userspace.Base.{ℕ, ◌<◌, ◌≡◌, ap, arith, bytes_eq→eq, bytes_eq_refl}
use batman_adv_userspace.Hash.{IsLawful}
use batman_adv_userspace.Mesh.{Mac}
use batman_adv_userspace.Address.Defs.{compare_orig, choose_orig, mac_callbacks}

pub compare_orig→eq : (a b : Mac) → compare_orig a b ≡ 0 → a ≡ b
unfolding compare_orig
compare_orig→eq a b h = ground (arith, bytes_eq→eq a b)

pub compare_orig_refl : (a : Mac) → compare_orig a a ≡ 0
unfolding compare_orig
compare_orig_refl a = ground (arith, bytes_eq_refl a)

choose_orig-lt : (a : Mac) (n : ℕ) → 0 < n → choose_orig a n < n
unfolding choose_orig
choose_orig-lt a n h = omega arith

-- `compare_orig` and `choose_orig` are lawful callbacks: the comparison is an equivalence, the index is
-- below every positive size, and same keys have the same index.
pub mac_callbacks-IsLawful : IsLawful mac_callbacks
mac_callbacks-IsLawful = record {
  compare_refl = λ a. compare_orig_refl a.key;
  compare_symm = λ a b h. ground (arith, compare_orig→eq a.key b.key h, compare_orig_refl b.key);
  compare_trans = λ a b c h k. ground (
    arith,
    compare_orig→eq a.key b.key h,
    compare_orig→eq b.key c.key k,
    compare_orig_refl c.key,
  );
  choose-lt = λ a n. choose_orig-lt a.key n;
  choose_congr = λ a b n h. ap (λ k. choose_orig k n) (compare_orig→eq a.key b.key h);
}
