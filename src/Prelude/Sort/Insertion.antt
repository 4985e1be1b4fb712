-- ===== src/Prelude/Sort/Insertion.antt =====
-- Insertion sort, which sorts by any order that is transitive and irreflexive.
use mathlib.Core.Path.{◌≡◌}
use mathlib.Core.Logic.{inl, inr}
use mathlib.Core.Bool.{Bool, true, false}
use mathlib.Core.List.{List, [], ◌∷◌}
use native.Mathlib.Omega.{arith}
use argis_extensions.Prelude.Tests.{if◌then◌else◌, Bool-cases}
use argis_extensions.Prelude.Lists.{All}
use argis_extensions.Prelude.Sort.{count_if, IsSorted, Sorts}

module _ {ℓ} {A : Type ℓ} (less : A → A → Bool) where
  unfoldable pub insert_sorted : A → List A → List A
  insert_sorted x [] = x ∷ []
  insert_sorted x (y ∷ ys) = if less x y then x ∷ y ∷ ys else y ∷ insert_sorted x ys

  unfoldable pub insertion_sort : List A → List A
  insertion_sort [] = []
  insertion_sort (x ∷ xs) = insert_sorted x (insertion_sort xs)

  insert-count :
      (test : A → Bool) (x : A) (ys : List A)
      → count_if test (insert_sorted x ys) ≡ count_if test (x ∷ ys)
  unfolding insert_sorted
  insert-count test x [] = ground arith
  insert-count test x (y ∷ ys) = ground (arith, insert-count test x ys)

  sort-count :
      (test : A → Bool) (xs : List A) → count_if test (insertion_sort xs) ≡ count_if test xs
  unfolding insertion_sort
  sort-count test [] = ground arith
  sort-count test (x ∷ xs) =
      ground (arith, insert-count test x (insertion_sort xs), sort-count test xs)

  insert-All : (P : A → Type 0) (x : A) (ys : List A) → P x → All P ys → All P (insert_sorted x ys)
  unfolding insert_sorted
  insert-All P x [] p h = (p, tt)
  insert-All P x (y ∷ ys) p (q, h) = elim (Bool-cases (less x y)) [
    | inl e ↦ rw e (p, (q, h))
    | inr e ↦ rw e (q, insert-All P x ys p h)
  ]

  module _ (irrefl : (a : A) → less a a ≡ false)
      (trans : (a b c : A) → less a b ≡ true → less b c ≡ true → less a c ≡ true) where
    later :
        (x y : A) (zs : List A)
        → less x y ≡ true
        → All (λ z. less z y ≡ false) zs
        → All (λ z. less z x ≡ false) zs
    later x y [] e h = tt
    later x y (z ∷ zs) e (f, h) = (ground (arith, trans z x y, e, f), later x y zs e h)

    insert-IsSorted : (x : A) (ys : List A) → IsSorted less ys → IsSorted less (insert_sorted x ys)
    unfolding insert_sorted
    insert-IsSorted x [] h = (tt, tt)
    insert-IsSorted x (y ∷ ys) (h, t) = elim (Bool-cases (less x y)) [
      | inl e ↦ rw e (
        (ground (arith, trans y x y, irrefl y, trans x y x, irrefl x, e), later x y ys e h),
        (h, t),
      )
      | inr e ↦ rw e (insert-All (λ z. less z y ≡ false) x ys e h, insert-IsSorted x ys t)
    ]

    sort-IsSorted : (xs : List A) → IsSorted less (insertion_sort xs)
    unfolding insertion_sort
    sort-IsSorted [] = tt
    sort-IsSorted (x ∷ xs) = insert-IsSorted x (insertion_sort xs) (sort-IsSorted xs)

    pub insertion_sort-Sorts : Sorts less insertion_sort
    insertion_sort-Sorts = record { permutes = sort-count; sorted = sort-IsSorted }
