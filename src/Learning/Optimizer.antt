-- ===== src/Learning/Optimizer.antt =====
-- plugins/learning/optimizer.go: models scored for speed, quality and cost. The store of profiles,
-- which the optimizer shares with those that record observations, is an argument.
pub mod Scores
pub mod Ranked
pub mod Frontier
mod Tests
use argis_extensions.Prelude.{
  String, Bool, true, false, Option, none, some, List, [], ◌∷◌, map, str_eq, if◌then◌else◌, ◌&&◌,
  ◌||◌, not, get_or,
}
use argis_extensions.Prelude.Int.{ℤ, pos, is_zero}
use argis_extensions.Prelude.Assoc.{lookup}
use argis_extensions.Prelude.Float.{Float64}
use argis_extensions.Learning.{zero_float, one_float}
use argis_extensions.Learning.Profiles.{ModelProfile, TaskProfile}
use argis_extensions.Learning.Profiles.Store.{ProfileStore, get, positive}

pub record OptimizationWeights (F : Float64) : Type 0 where
  pub speed : F.Carrier
  pub quality : F.Carrier
  pub cost : F.Carrier

pub record ThreePillarOptimizer (F : Float64) : Type 0 where
  pub weights : OptimizationWeights F
  pub mode : String
  pub min_latency : F.Carrier
  pub max_latency : F.Carrier
  pub min_cost : F.Carrier
  pub max_cost : F.Carrier

pub record ModelScore (F : Float64) : Type 0 where
  pub model_key : String
  pub provider : String
  pub composite_score : F.Carrier
  pub speed_score : F.Carrier
  pub quality_score : F.Carrier
  pub cost_score : F.Carrier
  pub confidence : F.Carrier
  pub sample_count : ℤ

pub record RankRequest (F : Float64) : Type 0 where
  pub task_type : String
  pub candidates : List String
  pub mode : String
  pub custom_weights : Option (OptimizationWeights F)
  pub min_quality : F.Carrier
  pub max_cost : F.Carrier
  pub max_latency : F.Carrier

-- The three scores of a model and the number of samples behind them.
pub record Pillars (F : Float64) : Type 0 where
  pub speed_score : F.Carrier
  pub quality_score : F.Carrier
  pub cost_score : F.Carrier
  pub sample_count : ℤ

module _ (F : Float64) where
  abbrev pub half : F.Carrier
  half = F.ratio 5 10

  abbrev pub percent_weights : F.Carrier → F.Carrier → F.Carrier → OptimizationWeights F
  percent_weights speed quality cost = record { speed = speed; quality = quality; cost = cost }

  unfoldable pub predefined_weights : String → Option (OptimizationWeights F)
  predefined_weights mode =
      if str_eq mode "balanced"
      then some (percent_weights (F.ratio 33 100) (F.ratio 34 100) (F.ratio 33 100))
      else if str_eq mode "speed_first"
      then some (percent_weights (F.ratio 6 10) (F.ratio 25 100) (F.ratio 15 100))
      else if str_eq mode "quality_first"
      then some (percent_weights (F.ratio 15 100) (F.ratio 6 10) (F.ratio 25 100))
      else if str_eq mode "cost_first"
      then some (percent_weights (F.ratio 2 10) (F.ratio 2 10) (F.ratio 6 10))
      else none

  abbrev pub no_weights : OptimizationWeights F
  no_weights = percent_weights (zero_float F) (zero_float F) (zero_float F)

  unfoldable pub new_three_pillar_optimizer : String → ThreePillarOptimizer F
  new_three_pillar_optimizer mode = record {
    weights =
        get_or no_weights (predefined_weights (if str_eq mode "custom" then "balanced" else mode));
    mode = mode;
    min_latency = F.of_int (pos 50);
    max_latency = F.of_int (pos 30_000);
    min_cost = F.ratio 1 10_000;
    max_cost = F.ratio 50 100;
  }

  unfoldable pub set_weights :
      OptimizationWeights F → ThreePillarOptimizer F → ThreePillarOptimizer F
  set_weights w o =
      let total = F.add (F.add w.speed w.quality) w.cost in
      record o {
        weights =
            if positive F total
            then percent_weights (F.div w.speed total) (F.div w.quality total) (F.div w.cost total)
            else o.weights;
        mode = "custom";
      }

  unfoldable pub set_mode : String → ThreePillarOptimizer F → ThreePillarOptimizer F
  set_mode mode o = elim (predefined_weights mode) [
    | some w ↦ record o { weights = w; mode = mode }
    | none ↦ o
  ]
