-- ===== src/Router/Candidates/Alternatives.antt =====
-- plugins/intelligentrouter/decision.go: the alternatives to the selected model.
use argis_extensions.Prelude.{
  ℕ, zero, suc, ◌+◌, ◌≡◌, refl, ◌∙◌, sym, String, Bool, true, false, List, [], ◌∷◌, ◌++◌, snoc,
  length, length-append, take, filter, append_assoc, append_nil, arith, str_eq, not, Bool-cases,
  inl, inr,
}
use argis_extensions.Prelude.Int.{pos, leb_ℤ}
use argis_extensions.Router.Candidates.{alternatives_from, get_alternatives}

abbrev pub other_than : String → String → Bool
other_than selected m = not (str_eq m selected)

last_place :
    (n : ℕ) (alts : List String) (m : String)
    → length alts + 1 ≡ n
    → leb_ℤ (pos n) (pos (length (snoc alts m))) ≡ true
last_place n alts m h = rw (length-append alts (m ∷ [])) (ground (arith, h))

more_places :
    (k n : ℕ) (alts : List String) (m : String)
    → length alts + suc (suc k) ≡ n
    → leb_ℤ (pos n) (pos (length (snoc alts m))) ≡ false
more_places k n alts m h = rw (length-append alts (m ∷ [])) (ground (arith, h))

alternatives_from-take :
    (candidates : List String) (selected : String) (k n : ℕ) (alts : List String)
    → length alts + suc k ≡ n
    → alternatives_from candidates selected (pos n) alts
      ≡ alts ++ take (suc k) (filter (other_than selected) candidates)
unfolding alternatives_from
alternatives_from-take [] selected k n alts h = sym (append_nil alts)
alternatives_from-take (m ∷ candidates) selected zero n alts h =
    elim (Bool-cases (str_eq m selected)) [
      | inl e ↦ rw e (alternatives_from-take candidates selected zero n alts h)
      | inr e ↦ rw (e, last_place n alts m h) refl
    ]
alternatives_from-take (m ∷ candidates) selected (suc k) n alts h =
    elim (Bool-cases (str_eq m selected)) [
      | inl e ↦ rw e (alternatives_from-take candidates selected (suc k) n alts h)
      | inr e ↦
          rw (e, more_places k n alts m h)
            (alternatives_from-take candidates selected k n (snoc alts m)
                (rw (length-append alts (m ∷ [])) (omega (arith, h)))
              ∙ append_assoc alts (m ∷ []) _)
    ]

-- For a positive maximum the alternatives are the first so many candidates other than the selected
-- one, in their order.
pub alternatives_first :
    (candidates : List String) (selected : String) (k : ℕ)
    → get_alternatives candidates selected (pos (suc k))
      ≡ take (suc k) (filter (other_than selected) candidates)
unfolding get_alternatives
alternatives_first candidates selected k =
    alternatives_from-take candidates selected k (suc k) [] (omega arith)
