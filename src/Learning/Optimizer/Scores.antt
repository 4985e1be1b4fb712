-- ===== src/Learning/Optimizer/Scores.antt =====
-- plugins/learning/optimizer.go: the score of one model.
use argis_extensions.Prelude.{String, Bool, none, some, str_eq, if◌then◌else◌, ◌&&◌}
use argis_extensions.Prelude.Int.{pos, is_zero}
use argis_extensions.Prelude.Assoc.{lookup}
use argis_extensions.Prelude.Float.{Float64}
use argis_extensions.Learning.{zero_float, one_float}
use argis_extensions.Learning.Profiles.{ModelProfile}
use argis_extensions.Learning.Profiles.Store.{positive}
use argis_extensions.Learning.Optimizer.{
  OptimizationWeights, ThreePillarOptimizer, ModelScore, RankRequest, Pillars, half,
}

module _ (F : Float64) where
  unfoldable pub normalize : F.Carrier → F.Carrier → F.Carrier → F.Carrier
  normalize value low high =
      if F.le high low
      then half F
      else F.max (zero_float F) (F.min (one_float F) (F.div (F.sub value low) (F.sub high low)))

  -- The scores from the profile of the task, when the model has one.
  unfoldable pub task_pillars : ModelProfile F → String → Pillars F
  task_pillars p task_type =
      elim (if str_eq task_type "" then none else lookup task_type p.task_profiles) [
        | some tp ↦ record {
          speed_score = tp.speed_score;
          quality_score = tp.quality_score;
          cost_score = tp.cost_score;
          sample_count = tp.sample_count;
        }
        | none ↦ record {
          speed_score = zero_float F;
          quality_score = zero_float F;
          cost_score = zero_float F;
          sample_count = pos 0;
        }
      ]

  unfoldable pub general_pillars : ThreePillarOptimizer F → ModelProfile F → Pillars F → Pillars F
  general_pillars o p task =
      let latency = p.speed.latency_ms_p50 in
      let cost = p.cost.effective_cost_per_request in
      record {
        speed_score =
            if positive F latency
            then F.sub (one_float F) (normalize latency o.min_latency o.max_latency)
            else task.speed_score;
        quality_score = p.quality.overall_score;
        cost_score =
            if positive F cost
            then F.sub (one_float F) (normalize cost o.min_cost o.max_cost)
            else task.cost_score;
        sample_count = F.to_int (F.mul p.reliability.success_rate (F.of_int (pos 100)));
      }

  unfoldable pub pillars : ThreePillarOptimizer F → ModelProfile F → String → Pillars F
  pillars o p task_type =
      let task = task_pillars p task_type in
      if is_zero task.sample_count then general_pillars o p task else task

  unfoldable pub score_model :
      ThreePillarOptimizer F → ModelProfile F → String → OptimizationWeights F → ModelScore F
  score_model o p task_type w =
      let s = pillars o p task_type in
      let composite =
        F.add (F.add (F.mul w.speed s.speed_score) (F.mul w.quality s.quality_score))
          (F.mul w.cost s.cost_score) in
      let confidence = F.min (one_float F) (F.div (F.of_int s.sample_count) (F.of_int (pos 100))) in
      record {
        model_key = p.model_key;
        provider = p.provider;
        composite_score =
            F.add (F.mul composite confidence) (F.mul (half F) (F.sub (one_float F) confidence));
        speed_score = s.speed_score;
        quality_score = s.quality_score;
        cost_score = s.cost_score;
        confidence = confidence;
        sample_count = s.sample_count;
      }

  -- The score of a model without a profile.
  abbrev pub unknown_score : String → ModelScore F
  unknown_score model_key = record {
    model_key = model_key;
    provider = "";
    composite_score = half F;
    speed_score = half F;
    quality_score = half F;
    cost_score = half F;
    confidence = zero_float F;
    sample_count = pos 0;
  }

  -- `if broken { score.CompositeScore *= 0.5 }`.
  unfoldable pub halve_when : Bool → ModelScore F → ModelScore F
  halve_when broken s =
      if broken then record s { composite_score = F.mul s.composite_score (half F) } else s

  unfoldable pub penalise : RankRequest F → ModelProfile F → ModelScore F → ModelScore F
  penalise req p s =
      halve_when (positive F req.max_latency && F.lt req.max_latency p.speed.latency_ms_p50) (
        halve_when (positive F req.max_cost && F.lt req.max_cost p.cost.effective_cost_per_request)
          (halve_when (positive F req.min_quality && F.lt s.quality_score req.min_quality) s))
