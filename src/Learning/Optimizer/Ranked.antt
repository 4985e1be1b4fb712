-- ===== src/Learning/Optimizer/Ranked.antt =====
-- plugins/learning/optimizer.go: the ranking of the candidates. `sort.Slice` is the parameter `sort`,
-- for the order `scores_higher`.
use argis_extensions.Prelude.{
  String, Bool, Option, none, some, List, [], ◌∷◌, map, str_eq, if◌then◌else◌, ◌&&◌, not, get_or,
}
use argis_extensions.Prelude.Float.{Float64}
use argis_extensions.Learning.{zero_float}
use argis_extensions.Learning.Profiles.{ModelProfile}
use argis_extensions.Learning.Profiles.Store.{ProfileStore, get}
use argis_extensions.Learning.Optimizer.{
  OptimizationWeights, ThreePillarOptimizer, ModelScore, RankRequest, predefined_weights,
}
use argis_extensions.Learning.Optimizer.Scores.{score_model, unknown_score, penalise}

module _ (F : Float64) where
  unfoldable pub score_known :
      ThreePillarOptimizer F
      → RankRequest F
      → OptimizationWeights F
      → String
      → Option (ModelProfile F)
      → ModelScore F
  score_known o req w model_key none = unknown_score F model_key
  score_known o req w model_key (some p) = penalise F req p (score_model F o p req.task_type w)

  unfoldable pub weights_for : ThreePillarOptimizer F → RankRequest F → OptimizationWeights F
  weights_for o req = elim req.custom_weights [
    | some w ↦ w
    | none ↦
        if not (str_eq req.mode "") && not (str_eq req.mode o.mode)
        then get_or o.weights (predefined_weights F req.mode)
        else o.weights
  ]

  -- The loop over the candidates.
  unfoldable pub score_each :
      ThreePillarOptimizer F → ProfileStore F → RankRequest F → List (ModelScore F)
  score_each o store req =
      map (λ key. score_known o req (weights_for o req) key (get F store key)) req.candidates

  abbrev pub scores_higher : ModelScore F → ModelScore F → Bool
  scores_higher a b = F.lt b.composite_score a.composite_score

  abbrev pub Sort : Type 0
  Sort = List (ModelScore F) → List (ModelScore F)

  unfoldable pub rank_models :
      Sort → ThreePillarOptimizer F → ProfileStore F → RankRequest F → List (ModelScore F)
  rank_models sort o store req = sort (score_each o store req)

  abbrev pub plain_request : String → List String → RankRequest F
  plain_request task_type candidates = record {
    task_type = task_type;
    candidates = candidates;
    mode = "";
    custom_weights = none;
    min_quality = zero_float F;
    max_cost = zero_float F;
    max_latency = zero_float F;
  }

  unfoldable pub first_of : List (ModelScore F) → Option (ModelScore F)
  first_of [] = none
  first_of (best ∷ others) = some best

  unfoldable pub get_best_model :
      Sort → ThreePillarOptimizer F → ProfileStore F → String → List String → Option (ModelScore F)
  get_best_model sort o store task_type candidates =
      first_of (rank_models sort o store (plain_request task_type candidates))
