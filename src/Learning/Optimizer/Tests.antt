-- ===== src/Learning/Optimizer/Tests.antt =====
-- plugins/learning: two models, one of which has been observed.
use argis_extensions.Prelude.{◌≡◌, String, true, List, [], ◌∷◌, ltb, filter, ◌&&◌, not}
use argis_extensions.Prelude.Int.{pos}
use argis_extensions.Prelude.Float.{micros, micros-IsStrict}
use argis_extensions.Prelude.Sort.{count_if, Sorts}
use argis_extensions.Prelude.Sort.Insertion.{insertion_sort, insertion_sort-Sorts}
use argis_extensions.Learning.Profiles.{Observation}
use argis_extensions.Learning.Profiles.Store.{ProfileStore, get}
use argis_extensions.Learning.Profiles.Replayed.{
  Recording, record_each, is_of, replay, profile_replayed,
}
use argis_extensions.Learning.Optimizer.{
  ThreePillarOptimizer, ModelScore, new_three_pillar_optimizer,
}
use argis_extensions.Learning.Optimizer.Ranked.{scores_higher}
use argis_extensions.Learning.Optimizer.Frontier.{
  is_beaten, scored, pareto_frontier, frontier_exact,
}

abbrev answered : String → Observation micros
answered model = record {
  model_key = model;
  provider = "openai";
  task_type = "coding";
  latency_ms = 800_000_000;
  ttft_ms = 90_000_000;
  input_tokens = pos 400;
  output_tokens = pos 600;
  cost_usd = 20_000;
  success = true;
  quality_score = 900_000;
  user_satisfaction = 0;
}

abbrev recordings : List (Recording micros)
recordings =
    record { id = "a"; now = 1; observation = answered "gpt-4" }
    ∷ record { id = "b"; now = 2; observation = answered "claude" }
    ∷ record { id = "c"; now = 3; observation = answered "gpt-4" }
    ∷ []

profile_replayed_example :
    get micros (record_each micros recordings []) "gpt-4"
    ≡ replay micros (filter (is_of micros "gpt-4") recordings) (get micros [] "gpt-4")
profile_replayed_example = profile_replayed micros recordings "gpt-4" []

abbrev learnt : ProfileStore micros
learnt = record_each micros recordings []

abbrev balanced : ThreePillarOptimizer micros
balanced = new_three_pillar_optimizer micros "balanced"

abbrev by_score : List (ModelScore micros) → List (ModelScore micros)
by_score = insertion_sort (scores_higher micros)

by_score-Sorts : Sorts (scores_higher micros) by_score
by_score-Sorts =
    insertion_sort-Sorts (scores_higher micros) (λ a. micros-IsStrict.lt_irrefl a.composite_score)
      (λ a b c p q.
        micros-IsStrict.lt_trans c.composite_score b.composite_score a.composite_score q p)

abbrev two_candidates : List String
two_candidates = "gpt-4" ∷ "gemini" ∷ []

frontier_exact_example :
    count_if
      (λ s. ltb 0 s.confidence)
      (pareto_frontier micros by_score balanced learnt two_candidates "coding")
    ≡ count_if
        (λ s.
          ltb 0 s.confidence
          && not
              (is_beaten micros (scored micros by_score balanced learnt two_candidates "coding") s))
        (scored micros by_score balanced learnt two_candidates "coding")
frontier_exact_example =
    frontier_exact micros by_score balanced learnt two_candidates "coding" (λ s. ltb 0 s.confidence)
      by_score-Sorts
