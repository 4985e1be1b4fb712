-- ===== src/Learning/Optimizer/Frontier.antt =====
-- plugins/learning/optimizer.go: the best model and the models on the Pareto frontier.
use argis_extensions.Prelude.{
  ◌≤◌, ◌≡◌, refl, sym, ap, ◌∙◌, subst, String, Bool, true, false, Option, none, some, List, [], ◌∷◌,
  str_eq, if◌then◌else◌, ◌&&◌, ◌||◌, not, filter, arith,
}
use argis_extensions.Prelude.Float.{Float64, IsStrict, IsOrdered}
use argis_extensions.Prelude.Sort.{count_if, IsSorted, Sorts}
use argis_extensions.Prelude.Sort.Counted.{
  any, any_same, any_count_le, count-filter, count_ext, IsFirst, head-IsFirst, permuted-IsFirst,
  IsFirst-exists,
}
use argis_extensions.Learning.Profiles.Store.{ProfileStore}
use argis_extensions.Learning.Optimizer.{ThreePillarOptimizer, ModelScore}
use argis_extensions.Learning.Optimizer.Ranked.{
  scores_higher, Sort, score_each, plain_request, rank_models, first_of, get_best_model,
}

module _ (F : Float64) where
  -- No worse in any pillar and better in one.
  unfoldable pub outscores : ModelScore F → ModelScore F → Bool
  outscores other candidate =
      F.le candidate.speed_score other.speed_score
      && F.le candidate.quality_score other.quality_score
      && F.le candidate.cost_score other.cost_score
      && (F.lt candidate.speed_score other.speed_score
          || F.lt candidate.quality_score other.quality_score
          || F.lt candidate.cost_score other.cost_score)

  -- A score of the same model is passed over.
  unfoldable pub dominates : ModelScore F → ModelScore F → Bool
  dominates other candidate =
      if str_eq other.model_key candidate.model_key then false else outscores other candidate

  -- Dominance in terms of the pillars: of another model, no pillar below and some pillar above.
  abbrev pub pillar_scores : ModelScore F → List F.Carrier
  pillar_scores s = s.speed_score ∷ s.quality_score ∷ s.cost_score ∷ []

  abbrev pub none_below : List F.Carrier → List F.Carrier → Bool
  none_below (x ∷ xs) (y ∷ ys) = F.le y x && none_below xs ys
  none_below _ _ = true

  abbrev pub some_above : List F.Carrier → List F.Carrier → Bool
  some_above (x ∷ xs) (y ∷ ys) = F.lt y x || some_above xs ys
  some_above _ _ = false

  abbrev pub is_beaten : List (ModelScore F) → ModelScore F → Bool
  is_beaten scores s =
      any
        (λ other.
          not (str_eq other.model_key s.model_key)
          && none_below (pillar_scores other) (pillar_scores s)
          && some_above (pillar_scores other) (pillar_scores s))
        scores

  abbrev pub undominated : List (ModelScore F) → ModelScore F → Bool
  undominated scores candidate = not (any (λ other. dominates other candidate) scores)

  abbrev pub frontier : List (ModelScore F) → List (ModelScore F)
  frontier scores = filter (undominated scores) scores

  unfoldable pub pareto_frontier :
      Sort F → ThreePillarOptimizer F → ProfileStore F → List String → String → List (ModelScore F)
  pareto_frontier sort o store candidates task_type =
      frontier (rank_models F sort o store (plain_request F task_type candidates))

  -- A best of the scores, or none where there is no score.
  abbrev pub BestOf : List (ModelScore F) → Option (ModelScore F) → Type 0
  BestOf scores none = count_if (λ s. true) scores ≡ 0
  BestOf scores (some best) = IsFirst (scores_higher F) scores best

  outscores_irrefl : (strict : IsStrict F) (a : ModelScore F) → outscores a a ≡ false
  unfolding outscores
  outscores_irrefl strict a = ground (
    arith,
    strict.lt_irrefl a.speed_score,
    strict.lt_irrefl a.quality_score,
    strict.lt_irrefl a.cost_score,
  )

  outscores_trans :
      (ordered : IsOrdered F) (a b c : ModelScore F)
      → outscores a b ≡ true
      → outscores b c ≡ true
      → outscores a c ≡ true
  unfolding outscores
  outscores_trans ordered a b c p q = ground (
    arith,
    p,
    q,
    ordered.le_trans c.speed_score b.speed_score a.speed_score,
    ordered.le_trans c.quality_score b.quality_score a.quality_score,
    ordered.le_trans c.cost_score b.cost_score a.cost_score,
    ordered.lt_of_le_of_lt c.speed_score b.speed_score a.speed_score,
    ordered.lt_of_le_of_lt c.quality_score b.quality_score a.quality_score,
    ordered.lt_of_le_of_lt c.cost_score b.cost_score a.cost_score,
    ordered.lt_of_lt_of_le c.speed_score b.speed_score a.speed_score,
    ordered.lt_of_lt_of_le c.quality_score b.quality_score a.quality_score,
    ordered.lt_of_lt_of_le c.cost_score b.cost_score a.cost_score,
  )

  not_outscored :
      (best : ModelScore F) (l : List (ModelScore F))
      → count_if (λ s. outscores s best) l ≡ 0
      → any (λ s. dominates s best) l ≡ false
  unfolding dominates
  not_outscored best [] h = refl
  not_outscored best (x ∷ xs) h = ground (arith, h, not_outscored best xs)

  scores_undominated :
      (x : ModelScore F) (xs : List (ModelScore F))
      → IsStrict F
      → IsOrdered F
      → 1 ≤ count_if (undominated (x ∷ xs)) (x ∷ xs)
  scores_undominated x xs strict ordered =
      let (best, first) =
        IsFirst-exists outscores (outscores_irrefl strict) (outscores_trans ordered) x xs in
      any_count_le (undominated (x ∷ xs)) (x ∷ xs) (
        first.is_item (undominated (x ∷ xs))
          (rw (not_outscored best (x ∷ xs) first.none_before) refl))

  dominates_pillars :
      (other s : ModelScore F)
      → dominates other s ≡ (
          not (str_eq other.model_key s.model_key)
          && none_below (pillar_scores other) (pillar_scores s)
          && some_above (pillar_scores other) (pillar_scores s))
  unfolding dominates outscores
  dominates_pillars other s = ground arith

  undominated_beaten :
      (l : List (ModelScore F)) (s : ModelScore F) → undominated l s ≡ not (is_beaten l s)
  undominated_beaten [] s = refl
  undominated_beaten (x ∷ xs) s =
      rw (dominates_pillars x s) (ground (arith, undominated_beaten xs s))

  scores_unbeaten :
      (x : ModelScore F) (xs : List (ModelScore F))
      → IsStrict F
      → IsOrdered F
      → 1 ≤ count_if (λ s. not (is_beaten (x ∷ xs) s)) (x ∷ xs)
  scores_unbeaten x xs strict ordered =
      let l = x ∷ xs in
      subst (λ n. 1 ≤ n)
        (count_ext (undominated l) (λ s. not (is_beaten l s)) l (undominated_beaten l))
        (scores_undominated x xs strict ordered)

  module _ (sort : Sort F) (o : ThreePillarOptimizer F) (store : ProfileStore F) where
    -- The scores of the candidates, before any sort.
    abbrev pub scored : List String → String → List (ModelScore F)
    scored candidates task_type = score_each F o store (plain_request F task_type candidates)

    -- For a sort by the composite score, the frontier holds each score of a candidate as often as the
    -- candidates have it when no score of another model is at least as high in each of speed, quality
    -- and cost and higher in one, and no other score.
    pub frontier_exact :
        (candidates : List String) (task_type : String) (test : ModelScore F → Bool)
        → Sorts (scores_higher F) sort
        → count_if test (pareto_frontier sort o store candidates task_type)
          ≡ count_if
              (λ s. test s && not (is_beaten (scored candidates task_type) s))
              (scored candidates task_type)
    unfolding pareto_frontier rank_models
    frontier_exact candidates task_type test ok =
        let l = scored candidates task_type in
        count-filter test (undominated (sort l)) (sort l)
        ∙ ok.permutes (λ s. test s && undominated (sort l) s) l
        ∙ count_ext (λ s. test s && undominated (sort l) s) (λ s. test s && not (is_beaten l s)) l
            (λ s.
              ap (λ b. test s && not b)
                (any_same (λ other. dominates other s) (sort l) l
                  (ok.permutes (λ other. dominates other s) l))
              ∙ ap (λ b. test s && b) (undominated_beaten l s))

    scores_irrefl : (strict : IsStrict F) (a : ModelScore F) → scores_higher F a a ≡ false
    scores_irrefl strict a = strict.lt_irrefl a.composite_score

    best_sorted :
        (l s : List (ModelScore F))
        → Sorts (scores_higher F) sort
        → IsStrict F
        → sort l ≡ s
        → BestOf l (first_of F s)
    unfolding first_of
    best_sorted l [] ok strict e = sym (ok.permutes (λ x. true) l) ∙ ap (count_if (λ x. true)) e
    best_sorted l (x ∷ xs) ok strict e = permuted-IsFirst (scores_higher F) sort l x ok (
        subst (λ s. IsFirst (scores_higher F) s x) (sym e)
          (head-IsFirst (scores_higher F) (scores_irrefl strict) x xs
            (subst (IsSorted (scores_higher F)) e (ok.sorted l))))

    -- For a sort by the composite score, the best model for a task is one of the candidates' scores,
    -- and none of them is higher; there is no best model just when no candidate is scored.
    pub best_highest :
        (candidates : List String) (task_type : String)
        → Sorts (scores_higher F) sort
        → IsStrict F
        → BestOf (scored candidates task_type) (get_best_model F sort o store task_type candidates)
    unfolding get_best_model rank_models
    best_highest candidates task_type ok strict =
        best_sorted (scored candidates task_type) (sort (scored candidates task_type)) ok strict
          refl

    -- For a sort by the composite score, the frontier of one or more candidates holds a score.
    pub frontier_nonempty :
        (candidate : String) (candidates : List String) (task_type : String)
        → Sorts (scores_higher F) sort
        → IsStrict F
        → IsOrdered F
        → 1 ≤ count_if (λ s. true) (pareto_frontier sort o store (candidate ∷ candidates) task_type)
    unfolding score_each
    frontier_nonempty candidate candidates task_type ok strict ordered =
        subst (λ n. 1 ≤ n) (sym (frontier_exact (candidate ∷ candidates) task_type (λ s. true) ok))
          (search (scores_unbeaten, strict, ordered))
