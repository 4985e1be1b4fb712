-- ===== src/Router/Decision/Steps.antt =====
-- plugins/intelligentrouter/decision.go: the steps that select a model and its alternatives.
use argis_extensions.Prelude.{
  ℕ, zero, suc, ◌+◌, ◌≤◌, ◌≡◌, refl, sym, ◌∙◌, inl, inr, ◌⊎◌, String, Bool, true, Option, List, [],
  ◌∷◌, count, count-append, subst, map, snoc, length, length-append, length-take, take, filter, min,
  ltb, str_eq, if◌then◌else◌, Bool-cases, arith, not, ◌&&◌,
}
use argis_extensions.Prelude.Int.{pos}
use argis_extensions.Prelude.Assoc.{Dict}
use argis_extensions.Prelude.Float.{Float64}
use argis_extensions.Learning.{zero_float}
use argis_extensions.Learning.Tiered.Prefer.{contains}
use argis_extensions.Learning.Optimizer.{ModelScore}
use argis_extensions.Router.Candidates.{Providers, get_alternatives, merge_candidates}
use argis_extensions.Router.Candidates.Merged.{merged_once}
use argis_extensions.Router.Candidates.Alternatives.{other_than, alternatives_first}
use argis_extensions.Router.Decision.{GoLibrary, RoutingDecision}
use argis_extensions.Router.Decision.Offered.{contains-count}
use argis_extensions.Router.Decision.Route.{alternatives_step, frontier_alternatives}
use argis_extensions.Router.Decision.Choice.{choose, choose_ranked}

count-take :
    (n : ℕ) (model : String) (models : List String)
    → count model (take n models) ≤ count model models
count-take zero model models = omega arith
count-take (suc n) model [] = omega arith
count-take (suc n) model (m ∷ models) = ground (arith, count-take n model models)

count-other :
    (selected model : String) (models : List String)
    → (count selected (filter (other_than selected) models) ≡ 0)
      × (count model (filter (other_than selected) models) ≤ count model models)
count-other selected model [] = (refl, omega arith)
count-other selected model (m ∷ models) = ground (arith, count-other selected model models)

-- At most three alternatives, none of which is the selected model, each as often as it may be.
abbrev pub AreAlternatives : (String → ℕ) → String → List String → Type 0
AreAlternatives times selected alts =
    (length alts ≤ 3)
    × (count selected alts ≡ 0)
    × ((model : String) → count model alts ≤ times model)

first_alternatives :
    (candidates : List String) (selected : String)
    → AreAlternatives
        (λ m. count m candidates)
        selected
        (get_alternatives candidates selected (pos 3))
first_alternatives candidates selected =
    let rest = filter (other_than selected) candidates in
    subst (AreAlternatives (λ m. count m candidates) selected)
      (sym (alternatives_first candidates selected 2))
      (
        omega (arith, length-take 3 rest),
        omega (arith, count-take 3 selected rest, (count-other selected selected candidates).0),
        λ m. omega (arith, count-take 3 m rest, (count-other selected m candidates).1),
      )

-- What holds of the candidates in another order holds of the merged lists.
pub among_merged :
    (lists : List (List String)) (candidates : List String) (selected : String) (alts : List String)
    → ((m : String) → count m candidates ≡ count m (merge_candidates lists))
    → 1 ≤ count selected candidates
    → AreAlternatives (λ m. count m candidates) selected alts
    → (count selected (merge_candidates lists) ≡ 1)
      × AreAlternatives (λ m. min 1 (count m (merge_candidates lists))) selected alts
among_merged lists candidates selected alts same known (short, other, few) = (
  omega (arith, known, same selected, merged_once lists selected),
  (short, other, λ m. omega (arith, few m, same m, merged_once lists m)),
)

module _ (F : Float64) (P : Providers) (G : GoLibrary F) where
  abbrev pub keys : List (ModelScore F) → List String
  keys scores = map (λ s. s.model_key) scores

  abbrev added : ModelScore F → String → List String → List String
  added s selected alts =
      if not (str_eq s.model_key selected) && ltb (length alts) 3
      then snoc alts s.model_key
      else alts

  added_lem :
      (s : ModelScore F) (selected model : String) (alts : List String)
      → length alts ≤ 3
      → (length (added s selected alts) ≤ 3)
        × (count selected (added s selected alts) ≡ count selected alts)
        × (count model (added s selected alts) ≤ count model alts + count model (keys (s ∷ [])))
  added_lem s selected model alts h = ground (
    arith,
    length-append alts (s.model_key ∷ []),
    count-append selected alts (s.model_key ∷ []),
    count-append model alts (s.model_key ∷ []),
  )

  pub frontier_alternatives_lem :
      (l : List (ModelScore F)) (selected model : String) (alts : List String)
      → length alts ≤ 3
      → (length (frontier_alternatives F P G l selected alts) ≤ 3)
        × (count selected (frontier_alternatives F P G l selected alts) ≡ count selected alts)
        × (count model (frontier_alternatives F P G l selected alts)
            ≤ count model alts + count model (keys l))
  unfolding frontier_alternatives
  frontier_alternatives_lem [] selected model alts h = (h, refl, omega arith)
  frontier_alternatives_lem (s ∷ l) selected model alts h =
      let (short, none_more, few) = added_lem s selected model alts h in
      let (short', none_more', few') =
        frontier_alternatives_lem l selected model (added s selected alts) short in
      (short', none_more' ∙ none_more, ground (arith, few, few'))

  pub filter-keys :
      (keep : ModelScore F → Bool) (l : List (ModelScore F)) (model : String)
      → count model (keys (filter keep l)) ≤ count model (keys l)
  filter-keys keep [] model = omega arith
  filter-keys keep (s ∷ l) model = ground (arith, filter-keys keep l model)

  pub alternatives_step_lem :
      (front : List (ModelScore F)) (candidates : List String) (d : RoutingDecision F P)
      → ((m : String) → count m (keys front) ≤ count m candidates)
      → AreAlternatives
          (λ m. count m candidates)
          d.selected_model
          (alternatives_step F P G front candidates d).alternatives
  unfolding alternatives_step
  alternatives_step_lem front candidates d h = elim (Bool-cases (ltb 1 (length front))) [
    | inl e ↦
        let chosen = frontier_alternatives_lem front d.selected_model "" [] (omega arith) in
        rw e (
          chosen.0,
          chosen.1,
          λ m.
              omega (
                arith,
                (frontier_alternatives_lem front d.selected_model m [] (omega arith)).2,
                h m,
              ),
        )
    | inr e ↦ rw e (first_alternatives candidates d.selected_model)
  ]

  -- What is selected is the preferred model or the first of the ranking.
  pub choose-selected :
      (preference : String × F.Carrier) (candidates : List String)
      (scores : Option (Dict F.Carrier)) (ranked others : List (ModelScore F)) (best : ModelScore F)
      (d : RoutingDecision F P)
      → ranked ≡ best ∷ others
      → (preference ≡ ("", zero_float F)) ⊎ (contains F candidates preference.0 ≡ true)
      → 1 ≤ count best.model_key candidates
      → 1 ≤ count (choose F P G preference candidates scores ranked d).selected_model candidates
  unfolding choose choose_ranked
  choose-selected preference candidates scores ranked others best d e (inl none_preferred) h =
      subst (λ p. 1 ≤ count (choose F P G p candidates scores ranked d).selected_model candidates)
        (sym none_preferred) (rw e h)
  choose-selected (model, confidence) candidates scores ranked others best d e (inr known) h =
      elim (Bool-cases (not (str_eq model "") && F.lt (F.ratio 6 10) confidence)) [
        | inl c ↦ rw c (ground (arith, known, contains-count F candidates model))
        | inr c ↦ rw (c, e) h
      ]
