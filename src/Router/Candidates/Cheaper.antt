-- ===== src/Router/Candidates/Cheaper.antt =====
-- plugins/intelligentrouter/decision.go: the order that preferCheaperModels gives.
use argis_extensions.Prelude.{
  ◌+◌, ◌≡◌, refl, ◌∙◌, ap, String, Bool, List, [], ◌∷◌, ◌++◌, snoc, count, count-append, filter,
  append_assoc, append_nil, arith, not, Bool-cases, inl, inr,
}
use argis_extensions.Router.Candidates.{is_cheap, split_cheap, prefer_cheaper_models}

module _ (to_lower : String → String) where
  split_cheap_lem :
      (candidates cheap expensive : List String)
      → split_cheap to_lower candidates (cheap, expensive) ≡ (
        cheap ++ filter (is_cheap to_lower) candidates,
        expensive ++ filter (λ m. not (is_cheap to_lower m)) candidates,
      )
  unfolding split_cheap
  split_cheap_lem [] cheap expensive = rw (append_nil cheap, append_nil expensive) refl
  split_cheap_lem (m ∷ candidates) cheap expensive = elim (Bool-cases (is_cheap to_lower m)) [
    | inl e ↦
        rw (e, split_cheap_lem candidates (snoc cheap m) expensive)
          (ap (λ l. (l, expensive ++ filter (λ x. not (is_cheap to_lower x)) candidates))
            (append_assoc cheap (m ∷ []) _))
    | inr e ↦
        rw (e, split_cheap_lem candidates cheap (snoc expensive m))
          (ap (λ l. (cheap ++ filter (is_cheap to_lower) candidates, l))
            (append_assoc expensive (m ∷ []) _))
  ]

  filter-count :
      (keep : String → Bool) (asked : String) (xs : List String)
      → count asked (filter keep xs) + count asked (filter (λ m. not (keep m)) xs) ≡ count asked xs
  filter-count keep asked [] = refl
  filter-count keep asked (x ∷ xs) = ground (arith, filter-count keep asked xs)

  -- The cheap candidates come first and the others after them, both in the order given, and each
  -- is there as often as before.
  pub cheap_first :
      (candidates : List String)
      → (prefer_cheaper_models to_lower candidates
          ≡ filter (is_cheap to_lower) candidates
            ++ filter (λ m. not (is_cheap to_lower m)) candidates)
        × ((asked : String)
            → count asked (prefer_cheaper_models to_lower candidates) ≡ count asked candidates)
  unfolding prefer_cheaper_models
  cheap_first candidates = rw (split_cheap_lem candidates [] []) (
    refl,
    λ asked.
        count-append asked (filter (is_cheap to_lower) candidates) _
        ∙ filter-count (is_cheap to_lower) asked candidates,
  )
