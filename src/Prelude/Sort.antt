-- ===== src/Prelude/Sort.antt =====
-- Go's `sort.Slice`, which does not promise the order of equal items: a parameter with what its
-- documentation says, and an instance of it for examples.
pub mod Insertion
pub mod Counted
use Prim.Native.Nat.{ℕ, suc}
use mathlib.Core.Path.{◌≡◌}
use mathlib.Core.Bool.{Bool, false}
use mathlib.Core.List.{List, [], ◌∷◌}
use argis_extensions.Prelude.Tests.{if◌then◌else◌}
use argis_extensions.Prelude.Lists.{All}

module _ {ℓ} {A : Type ℓ} where
  -- How many items pass a test.
  abbrev pub count_if : (A → Bool) → List A → ℕ
  count_if test [] = 0
  count_if test (x ∷ xs) = let rest = count_if test xs in if test x then suc rest else rest

  -- No item is less than one before it.
  abbrev pub IsSorted : (A → A → Bool) → List A → Type 0
  IsSorted less [] = Unit
  IsSorted less (x ∷ xs) = All (λ y. less y x ≡ false) xs × IsSorted less xs

  -- The result holds the same items, in order.
  pub record Sorts (less : A → A → Bool) (sort : List A → List A) : Type ℓ where
    pub permutes : (test : A → Bool) (xs : List A) → count_if test (sort xs) ≡ count_if test xs
    pub sorted : (xs : List A) → IsSorted less (sort xs)
