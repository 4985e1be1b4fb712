-- ===== src/Prelude/Sort/Counted.antt =====
-- What a permutation keeps: how many items pass a test.
use Prim.Native.Nat.{ℕ, zero, suc, ◌≤◌}
use mathlib.Core.Path.{◌≡◌, refl, sym, ap, ◌∙◌}
use mathlib.Core.Logic.{inl, inr}
use mathlib.Core.Bool.{Bool, true, false, ◌&&◌}
use mathlib.Core.List.{List, [], ◌∷◌}
use native.Mathlib.Omega.{arith}
use argis_extensions.Prelude.Tests.{ltb, if◌then◌else◌, Bool-cases}
use argis_extensions.Prelude.Lists.{All, filter, take}
use argis_extensions.Prelude.Sort.{count_if, IsSorted, Sorts}

module _ {ℓ} {A : Type ℓ} where
  -- A loop that stops at the first item that passes.
  abbrev pub any : (A → Bool) → List A → Bool
  any test [] = false
  any test (x ∷ xs) = let rest = any test xs in if test x then true else rest

  module _ (test : A → Bool) where
    pub any-count : (xs : List A) → any test xs ≡ ltb 0 (count_if test xs)
    any-count [] = ground arith
    any-count (x ∷ xs) = ground (arith, any-count xs)

    pub any_same :
        (xs ys : List A) → count_if test xs ≡ count_if test ys → any test xs ≡ any test ys
    any_same xs ys h = any-count xs ∙ ap (ltb 0) h ∙ sym (any-count ys)

    pub filter_none : (xs : List A) → count_if test xs ≡ 0 → filter test xs ≡ []
    filter_none [] h = refl
    filter_none (x ∷ xs) h = elim (Bool-cases (test x)) [
      | inl e ↦ ground (arith, e, h)
      | inr e ↦ rw e (filter_none xs (ground (arith, e, h)))
    ]

    pub take-count : (n : ℕ) (xs : List A) → count_if test (take n xs) ≤ count_if test xs
    take-count zero xs = omega arith
    take-count (suc n) [] = omega arith
    take-count (suc n) (x ∷ xs) = ground (arith, take-count n xs)

    pub none_pass : (xs : List A) → All (λ y. test y ≡ false) xs → count_if test xs ≡ 0
    none_pass [] h = refl
    none_pass (x ∷ xs) (e, h) = ground (arith, e, none_pass xs h)

    pub count-filter :
        (keep : A → Bool) (xs : List A)
        → count_if test (filter keep xs) ≡ count_if (λ x. test x && keep x) xs
    count-filter keep [] = refl
    count-filter keep (x ∷ xs) = ground (arith, count-filter keep xs)

    pub count_ext :
        (other : A → Bool) (xs : List A)
        → ((x : A) → test x ≡ other x)
        → count_if test xs ≡ count_if other xs
    count_ext other [] h = refl
    count_ext other (x ∷ xs) h = ground (arith, h x, count_ext other xs h)

    pub any_count_le : (xs : List A) → any test xs ≡ true → 1 ≤ count_if test xs
    any_count_le xs h = ground (arith, any-count xs, h)

-- An item that nothing goes before, of a list that is not empty.
module _ {ℓ} {A : Type ℓ} (less : A → A → Bool) where
  -- `best` passes every test that fails on no item, and nothing goes before it.
  pub record IsFirst (xs : List A) (best : A) : Type ℓ where
    pub is_item : (test : A → Bool) → test best ≡ true → any test xs ≡ true
    pub none_before : count_if (λ x. less x best) xs ≡ 0

  pub head-IsFirst :
      (irrefl : (a : A) → less a a ≡ false) (x : A) (xs : List A)
      → IsSorted less (x ∷ xs)
      → IsFirst (x ∷ xs) x
  head-IsFirst irrefl x xs (h, t) = record {
    is_item = λ test e. rw e refl;
    none_before = ground (arith, irrefl x, none_pass (λ y. less y x) xs h);
  }

  pub permuted-IsFirst :
      (sort : List A → List A) (xs : List A) (best : A)
      → Sorts less sort
      → IsFirst (sort xs) best
      → IsFirst xs best
  permuted-IsFirst sort xs best ok first = record {
    is_item =
        λ test e. sym (any_same test (sort xs) xs (ok.permutes test xs)) ∙ first.is_item test e;
    none_before = sym (ok.permutes (λ x. less x best) xs) ∙ first.none_before;
  }

  module _ (irrefl : (a : A) → less a a ≡ false)
      (trans : (a b c : A) → less a b ≡ true → less b c ≡ true → less a c ≡ true) where
    none_before_trans :
        (x y : A) (zs : List A)
        → less x y ≡ true
        → count_if (λ z. less z y) zs ≡ 0
        → count_if (λ z. less z x) zs ≡ 0
    none_before_trans x y [] e h = refl
    none_before_trans x y (z ∷ zs) e h =
        ground (arith, trans z x y, e, h, none_before_trans x y zs e)

    pub IsFirst-exists : (x : A) (xs : List A) → (best : A) × IsFirst (x ∷ xs) best
    IsFirst-exists x [] =
        (x, record { is_item = λ test e. rw e refl; none_before = ground (arith, irrefl x) })
    IsFirst-exists x (y ∷ ys) =
        let rest = IsFirst-exists y ys in
        elim (Bool-cases (less x rest.0)) [
          | inl e ↦ (
            x,
            record {
              is_item = λ test h. rw h refl;
              none_before =
                  ground
                    (arith, irrefl x, none_before_trans x rest.0 (y ∷ ys) e rest.1.none_before);
            },
          )
          | inr e ↦ (
            rest.0,
            record {
              is_item = λ test h. ground (rest.1.is_item test h, arith);
              none_before = ground (arith, e, rest.1.none_before);
            },
          )
        ]
