-- ===== src/Prelude/Lists.antt =====
-- Lists measured by native numbers, under the library's names, and a predicate on every item.
use Prim.Native.Nat.{ℕ, zero, suc, ◌+◌, ◌-◌, min}
use mathlib.Core.Path.{◌≡◌, refl, sym, ap, ◌∙◌}
use mathlib.Core.Bool.{Bool}
use mathlib.Core.List.{List, [], ◌∷◌, ◌++◌}
use native.Mathlib.Omega.{arith}
use Prim.Native.String.{String}
use text.Mathlib.Text.{◌==◌ as str_eq}
use argis_extensions.Prelude.Tests.{if◌then◌else◌}

module _ {ℓ} {A : Type ℓ} where
  abbrev pub length : List A → ℕ
  length [] = 0
  length (x ∷ xs) = suc (length xs)

  abbrev pub take : ℕ → List A → List A
  take zero xs = []
  take (suc n) [] = []
  take (suc n) (x ∷ xs) = x ∷ take n xs

  abbrev pub replicate : ℕ → A → List A
  replicate zero a = []
  replicate (suc n) a = a ∷ replicate n a

  -- Go's `append(l, x)`.
  abbrev pub snoc : List A → A → List A
  snoc xs x = xs ++ x ∷ []

  -- Every item of a list satisfies a predicate.
  abbrev pub All {κ} : (Good : A → Type κ) (items : List A) → Type κ
  All Good [] = Unit
  All Good (item ∷ items) = Good item × All Good items

  pub length-append : (xs ys : List A) → length (xs ++ ys) ≡ length xs + length ys
  length-append [] ys = omega arith
  length-append (x ∷ xs) ys = omega (arith, length-append xs ys)

  pub length-take : (n : ℕ) (xs : List A) → length (take n xs) ≡ min n (length xs)
  length-take zero xs = omega arith
  length-take (suc n) [] = omega arith
  length-take (suc n) (x ∷ xs) = omega (arith, length-take n xs)

module _ {ℓ κ} {A : Type ℓ} (Good : A → Type κ) where
  pub All-append : (front back : List A) → All Good front → All Good back → All Good (front ++ back)
  All-append [] back _ rest = rest
  All-append (item ∷ front) back (good, goods) rest = (good, All-append front back goods rest)

-- How often a text occurs in a list.
abbrev pub count : String → List String → ℕ
count s [] = 0
count s (x ∷ xs) = let rest = count s xs in if str_eq x s then suc rest else rest

pub count-append : (s : String) (xs ys : List String) → count s (xs ++ ys) ≡ count s xs + count s ys
count-append s [] ys = omega arith
count-append s (x ∷ xs) ys = ground (arith, count-append s xs ys)

-- The lists in a row.
abbrev pub concat {ℓ} : {A : Type ℓ} → List (List A) → List A
concat [] = []
concat (xs ∷ xss) = xs ++ concat xss

module _ {ℓ} {A : Type ℓ} where
  -- The items that pass a test, in their order.
  abbrev pub filter : (A → Bool) → List A → List A
  filter keep [] = []
  filter keep (x ∷ xs) = let rest = filter keep xs in if keep x then x ∷ rest else rest

  pub append_assoc : (xs ys zs : List A) → (xs ++ ys) ++ zs ≡ xs ++ (ys ++ zs)
  append_assoc [] ys zs = refl
  append_assoc (x ∷ xs) ys zs = ap (λ l. x ∷ l) (append_assoc xs ys zs)

  pub append_nil : (xs : List A) → xs ++ [] ≡ xs
  append_nil [] = refl
  append_nil (x ∷ xs) = ap (λ l. x ∷ l) (append_nil xs)

module _ {ℓ} {A : Type ℓ} where
  abbrev pub drop : ℕ → List A → List A
  drop zero xs = xs
  drop (suc n) [] = []
  drop (suc n) (x ∷ xs) = drop n xs

  -- The items of the first list in reverse, and then those of the second.
  abbrev pub reverse_onto : List A → List A → List A
  reverse_onto [] ys = ys
  reverse_onto (x ∷ xs) ys = reverse_onto xs (x ∷ ys)

  pub take-drop : (n : ℕ) (xs : List A) → take n xs ++ drop n xs ≡ xs
  take-drop zero xs = refl
  take-drop (suc n) [] = refl
  take-drop (suc n) (x ∷ xs) = ap (λ l. x ∷ l) (take-drop n xs)

  pub length-drop : (n : ℕ) (xs : List A) → length (drop n xs) ≡ length xs - n
  length-drop zero xs = omega arith
  length-drop (suc n) [] = omega arith
  length-drop (suc n) (x ∷ xs) = omega (arith, length-drop n xs)

  pub reverse_twice :
      (xs ys zs : List A) → reverse_onto (reverse_onto xs ys) zs ≡ reverse_onto ys (xs ++ zs)
  reverse_twice [] ys zs = refl
  reverse_twice (x ∷ xs) ys zs = reverse_twice xs (x ∷ ys) zs

  pub reverse_onto_append : (xs ys : List A) → reverse_onto xs ys ≡ reverse_onto xs [] ++ ys
  reverse_onto_append [] ys = refl
  reverse_onto_append (x ∷ xs) ys =
      reverse_onto_append xs (x ∷ ys)
      ∙ sym (append_assoc (reverse_onto xs []) (x ∷ []) ys)
      ∙ ap (λ l. l ++ ys) (sym (reverse_onto_append xs (x ∷ [])))
