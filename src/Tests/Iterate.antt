-- ===== src/Tests/Iterate.antt =====
-- A table of three slots with three elements, of which two are removed in a walk.
use batman_adv_userspace.Base.{
  ℕ, ◌≡◌, refl, List, [], ◌∷◌, Bool, none, some, ltb, Distinct, listed, arith,
}
use batman_adv_userspace.Hash.{
  AreChains, addrs, walk_table, table_data, staying_all, walk_table_lem,
}

abbrev slots : List (List (ℕ × ℕ))
slots = ((8, 5) ∷ (16, 50) ∷ []) ∷ [] ∷ ((24, 7) ∷ []) ∷ []

abbrev below_ten : ℕ → Bool
below_ten d = ltb d 10

walk_table_example :
    walk_table below_ten 4 slots none ≡ some (table_data slots, staying_all below_ten slots)
unfolding AreChains addrs Distinct listed table_data
walk_table_example =
    walk_table_lem below_ten slots 3 ((refl, (refl, tt)), (tt, ((refl, tt), tt))) (omega arith)
