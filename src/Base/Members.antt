-- ===== src/Base/Members.antt =====
-- Addresses in a list: a test, and lists without repetition.
use Prim.Native.Nat.{ℕ}
use mathlib.Core.Path.{◌≡◌, refl, sym, ap, ◌∙◌}
use mathlib.Core.Logic.{inl, inr, ◌≢◌}
use mathlib.Core.Bool.{Bool, true, false, ◌||◌}
use mathlib.Core.List.{List, [], ◌∷◌, ◌++◌}
use native.Mathlib.Omega.{arith}
use batman_adv_userspace.Base.Tests.{◌==◌, ==_iff, Bool-cases}

-- Is the address in the list?
unfoldable pub listed : ℕ → List ℕ → Bool
listed p [] = false
listed p (q ∷ qs) = q == p || listed p qs

unfoldable pub Distinct : List ℕ → Type 0
unfolding listed
Distinct [] = Unit
Distinct (q ∷ qs) = (listed q qs ≡ false) × Distinct qs

pub listed-append : (p : ℕ) (xs ys : List ℕ) → listed p (xs ++ ys) ≡ (listed p xs || listed p ys)
unfolding listed
listed-append p [] ys = refl
listed-append p (x ∷ xs) ys = ground (arith, listed-append p xs ys)

-- What is in the list differs from what is not.
pub listed_apart :
    (p q : ℕ) (xs : List ℕ) → listed p xs ≡ true → listed q xs ≡ false → (p == q) ≡ false
listed_apart p q xs hp hq = elim (Bool-cases (p == q)) [
  | inr e ↦ e
  | inl e ↦
      let same : listed p xs ≡ listed q xs = ap (λ r. listed r xs) ((==_iff p q).0 e) in
      absurd (true≢false (sym hp ∙ same ∙ hq))
]
  where
    true≢false : true ≢ false
    true≢false = λ e. cc e

-- A new address between two parts of a list, and an address taken out.
pub Distinct-insert :
    (xs ys : List ℕ) (p : ℕ)
    → Distinct (xs ++ ys)
    → listed p (xs ++ ys) ≡ false
    → Distinct (xs ++ p ∷ ys)
unfolding Distinct listed
Distinct-insert [] ys p d h = (h, d)
Distinct-insert (x ∷ xs) ys p (new, d) h = (
  ground (arith, listed-append x xs ys, listed-append x xs (p ∷ ys)),
  Distinct-insert xs ys p d (ground (arith)),
)

pub record TakesOut (xs ys : List ℕ) (p : ℕ) : Type 0 where
  pub distinct : Distinct (xs ++ ys)
  pub absent : listed p (xs ++ ys) ≡ false

pub Distinct-remove : (xs ys : List ℕ) (p : ℕ) → Distinct (xs ++ p ∷ ys) → TakesOut xs ys p
unfolding Distinct listed
Distinct-remove [] ys p (new, d) = record { distinct = d; absent = new }
Distinct-remove (x ∷ xs) ys p (new, d) =
    let rest = Distinct-remove xs ys p d in
    record {
      distinct =
          (ground (arith, listed-append x xs ys, listed-append x xs (p ∷ ys)), rest.distinct);
      absent = ground (arith, rest.absent, listed-append x xs (p ∷ ys));
    }

pub Distinct-right : (xs ys : List ℕ) → Distinct (xs ++ ys) → Distinct ys
unfolding Distinct
Distinct-right [] ys d = d
Distinct-right (x ∷ xs) ys (new, d) = Distinct-right xs ys d

pub Distinct-left : (xs ys : List ℕ) → Distinct (xs ++ ys) → Distinct xs
unfolding Distinct
Distinct-left [] ys d = tt
Distinct-left (x ∷ xs) ys (new, d) = (ground (arith, listed-append x xs ys), Distinct-left xs ys d)
