-- ===== src/Prelude/Forall.antt =====
-- Predicates on the members of a list, and membership of a number as a Boolean test.
use Prim.Native.Nat.{ℕ}
use mathlib.Core.Path.{◌≡◌, refl}
use mathlib.Core.Bool.{Bool, true, false, ◌||◌}
use mathlib.Core.List.{List, [], ◌∷◌, ◌++◌}
use mathlib.Core.Logic.{inl, inr}
use mathlib.Core.Path.{subst}
use native.Mathlib.Omega.{arith}
use micrun.Prelude.Tests.{◌==◌, ==_iff, Bool-cases}

module _ {ℓ κ} {A : Type ℓ} (P : A → Type κ) where
  abbrev pub All : List A → Type κ
  All [] = Unit
  All (x ∷ xs) = P x × All xs

  pub All-append : (xs ys : List A) → All xs → All ys → All (xs ++ ys)
  All-append [] ys _ hy = hy
  All-append (x ∷ xs) ys (px, hx) hy = (px, All-append xs ys hx hy)

module _ {ℓ κ μ} {A : Type ℓ} (P : A → Type κ) (Q : A → Type μ) (f : (a : A) → P a → Q a) where
  pub All-map : (xs : List A) → All P xs → All Q xs
  All-map [] _ = tt
  All-map (x ∷ xs) (px, h) = (f x px, All-map xs h)

abbrev pub elem : ℕ → List ℕ → Bool
elem a [] = false
elem a (x ∷ xs) = x == a || elem a xs

pub elem-append : (a : ℕ) (xs ys : List ℕ) → elem a (xs ++ ys) ≡ (elem a xs || elem a ys)
elem-append a [] ys = refl
elem-append a (x ∷ xs) ys = ground (arith, elem-append a xs ys)

pub elem-All {κ} : (P : ℕ → Type κ) (a : ℕ) (xs : List ℕ) → All P xs → elem a xs ≡ true → P a
elem-All P a [] h e = cc
elem-All P a (x ∷ xs) (px, h) e = elim (Bool-cases (x == a)) [
  | inl same ↦ subst P ((==_iff x a).0 same) px
  | inr other ↦ elem-All P a xs h (ground arith)
]
