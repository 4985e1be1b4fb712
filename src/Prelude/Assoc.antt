-- ===== src/Prelude/Assoc.antt =====
-- A Go `map[string]V`, kept as the list of its entries in the order of their first assignment.
use Prim.Native.String.{String}
use mathlib.Core.Path.{refl, sym, ◌∙◌, ◌≡◌, subst}
use mathlib.Core.Logic.{inl, inr, ◌⊎◌}
use mathlib.Core.Option.{Option, none, some, some-injective}
use mathlib.Core.Bool.{Bool, true, false}
use mathlib.Core.List.{List, [], ◌∷◌}
use native.Mathlib.Omega.{arith}
use text.Mathlib.Text.{◌==◌ as str_eq}
use text.Mathlib.TextEquality.{eq_iff}
use argis_extensions.Prelude.Tests.{if◌then◌else◌, Bool-cases}
use argis_extensions.Prelude.Lists.{All}

abbrev pub Dict {ℓ} : Type ℓ → Type ℓ
Dict V = List (String × V)

module _ {ℓ} {V : Type ℓ} where
  -- `v, ok := d[key]`.
  unfoldable pub lookup : (key : String) (d : Dict V) → Option V
  lookup key [] = none
  lookup key (entry ∷ d) = if str_eq entry.0 key then some entry.1 else lookup key d

  -- `d[key] = value`.
  unfoldable pub insert : (key : String) (value : V) (d : Dict V) → Dict V
  insert key value [] = (key, value) ∷ []
  insert key value (entry ∷ d) =
      if str_eq entry.0 key then (entry.0, value) ∷ d else entry ∷ insert key value d

  -- `delete(d, key)`.
  unfoldable pub delete : (key : String) (d : Dict V) → Dict V
  delete key [] = []
  delete key (entry ∷ d) =
      let others = delete key d in if str_eq entry.0 key then others else entry ∷ others

  pub lookup-insert :
      (key asked : String) (value : V) (d : Dict V)
      → lookup asked (insert key value d)
        ≡ (if str_eq key asked then some value else lookup asked d)
  unfolding lookup insert
  lookup-insert key asked value [] = ground arith
  lookup-insert key asked value ((first, _) ∷ d) = ground (
    lookup-insert key asked value d,
    eq_iff first key,
    eq_iff first asked,
    eq_iff key asked,
    arith,
  )

  pub lookup-delete :
      (key asked : String) (d : Dict V)
      → lookup asked (delete key d) ≡ (if str_eq key asked then none else lookup asked d)
  unfolding lookup delete
  lookup-delete key asked [] = ground arith
  lookup-delete key asked ((first, _) ∷ d) =
      ground
        (lookup-delete key asked d, eq_iff first key, eq_iff first asked, eq_iff key asked, arith)

  -- The last assignment to a key counts.
  pub insert-insert :
      (key : String) (value old : V) (d : Dict V)
      → insert key value (insert key old d) ≡ insert key value d
  unfolding insert
  insert-insert key value old [] = ground (eq_iff key key, arith)
  insert-insert key value old ((first, _) ∷ d) =
      ground (insert-insert key value old d, eq_iff first key, arith)

module _ {ℓ} {V : Type ℓ} where
  branch_found :
      (same : Bool) (value found : V) (others : Option V)
      → (if same then some value else others) ≡ some found
      → ((same ≡ true) × (value ≡ found)) ⊎ (others ≡ some found)
  branch_found true value found others h = inl (refl, some-injective value found h)
  branch_found false value found others h = inr h

  -- What is found after an assignment is the value assigned, or was there before.
  pub insert_found :
      (key asked : String) (value found : V) (d : Dict V)
      → lookup asked (insert key value d) ≡ some found
      → ((key ≡ asked) × (value ≡ found)) ⊎ (lookup asked d ≡ some found)
  insert_found key asked value found d h =
      elim (branch_found _ value found (lookup asked d)
        (sym (lookup-insert key asked value d) ∙ h)) [
          | inl (e, same) ↦ inl ((eq_iff key asked).0 e, same)
          | inr e ↦ inr e
        ]

-- Every value of a map satisfies a predicate.
module _ {ℓ κ} {V : Type ℓ} (Good : V → Type κ) where
  abbrev pub Values : Dict V → Type κ
  Values d = All (λ entry. Good entry.1) d

  pub Values-insert :
      (key : String) (value : V) (d : Dict V) → Good value → Values d → Values (insert key value d)
  unfolding insert
  Values-insert key value [] good goods = (good, tt)
  Values-insert key value (entry ∷ d) good (first, others) =
      elim (Bool-cases (str_eq entry.0 key)) [
        | inl e ↦ rw e (good, others)
        | inr e ↦ rw e (first, Values-insert key value d good others)
      ]

  pub Values-lookup :
      (key : String) (value : V) (d : Dict V) → Values d → lookup key d ≡ some value → Good value
  unfolding lookup
  Values-lookup key value [] goods e = ground arith
  Values-lookup key value (entry ∷ d) (first, others) e = elim (Bool-cases (str_eq entry.0 key)) [
    | inl h ↦ subst Good (ground (h, e, arith)) first
    | inr h ↦ Values-lookup key value d others (ground (h, e, arith))
  ]

module _ {ℓ κ κ₁} {V : Type ℓ} (Good : V → Type κ) (Fine : V → Type κ₁) where
  pub Values-map : ((v : V) → Good v → Fine v) → (d : Dict V) → Values Good d → Values Fine d
  Values-map weaken [] goods = tt
  Values-map weaken (entry ∷ d) (first, others) = (weaken entry.1 first, Values-map weaken d others)
