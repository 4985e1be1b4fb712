-- ===== src/Learning/Profiles/Store.antt =====
-- plugins/learning/model_profile.go: the store of profiles and how an observation changes it.
use argis_extensions.Prelude.{
  ℕ, String, Bool, Option, none, some, [], ◌∷◌, str_eq, if◌then◌else◌, ◌&&◌, get_or,
}
use argis_extensions.Prelude.Int.{pos, inc, add_int64, ltb_ℤ}
use argis_extensions.Prelude.Assoc.{Dict, lookup, insert}
use argis_extensions.Prelude.Float.{Float64}
use argis_extensions.Learning.{zero_float, one_float, ema}
use argis_extensions.Learning.Profiles.{
  SpeedProfile, QualityProfile, CostProfile, TaskProfile, ReliabilityProfile, ModelProfile,
  Observation, new_task_profile, new_profile,
}

module _ (F : Float64) where
  abbrev pub alpha : F.Carrier
  alpha = F.ratio 1 10

  abbrev pub positive : F.Carrier → Bool
  positive x = F.lt (zero_float F) x

  -- An average that moves only for a positive score.
  unfoldable pub ema_if_positive : F.Carrier → F.Carrier → F.Carrier
  ema_if_positive current score = if positive score then ema F current score alpha else current

  unfoldable pub observe_speed : Observation F → SpeedProfile F → SpeedProfile F
  observe_speed obs speed =
      let tps = F.div (F.of_int obs.output_tokens) (F.div obs.latency_ms (F.of_int (pos 1000))) in
      record speed {
        latency_ms_p50 = ema F speed.latency_ms_p50 obs.latency_ms alpha;
        ttft_ms_p50 = ema F speed.ttft_ms_p50 obs.ttft_ms alpha;
        tokens_per_second_avg =
            if ltb_ℤ (pos 0) obs.output_tokens && positive obs.latency_ms
            then ema F speed.tokens_per_second_avg tps alpha
            else speed.tokens_per_second_avg;
      }

  unfoldable pub observe_quality : Observation F → QualityProfile F → QualityProfile F
  observe_quality obs quality = record quality {
    overall_score = ema_if_positive quality.overall_score obs.quality_score;
    user_satisfaction_avg = ema_if_positive quality.user_satisfaction_avg obs.user_satisfaction;
  }

  unfoldable pub observe_cost : Observation F → CostProfile F → CostProfile F
  observe_cost obs cost =
      let total_tokens = add_int64 obs.input_tokens obs.output_tokens in
      let per_1k = F.div obs.cost_usd (F.div (F.of_int total_tokens) (F.of_int (pos 1000))) in
      record cost {
        total_spent_usd = F.add cost.total_spent_usd obs.cost_usd;
        effective_cost_per_1k_tokens =
            if ltb_ℤ (pos 0) total_tokens
            then ema F cost.effective_cost_per_1k_tokens per_1k alpha
            else cost.effective_cost_per_1k_tokens;
        effective_cost_per_request = ema F cost.effective_cost_per_request obs.cost_usd alpha;
      }

  unfoldable pub observe_reliability : Observation F → ReliabilityProfile F → ReliabilityProfile F
  observe_reliability obs r =
      if obs.success
      then record r { success_rate = ema F r.success_rate (one_float F) alpha }
      else record r {
        success_rate = ema F r.success_rate (zero_float F) alpha;
        error_rate = ema F r.error_rate (one_float F) alpha;
      }

  unfoldable pub observe_task : ℕ → Observation F → TaskProfile F → TaskProfile F
  observe_task now obs tp = record tp {
    sample_count = inc tp.sample_count;
    last_seen = now;
    avg_latency_ms = ema F tp.avg_latency_ms obs.latency_ms alpha;
    avg_cost_usd = ema F tp.avg_cost_usd obs.cost_usd alpha;
    avg_quality = ema_if_positive tp.avg_quality obs.quality_score;
    success_rate = ema F tp.success_rate (if obs.success then one_float F else zero_float F) alpha;
  }

  unfoldable pub update_task_profile :
      ℕ → Observation F → Dict (TaskProfile F) → Dict (TaskProfile F)
  update_task_profile now obs tasks =
      let tp = get_or (new_task_profile F obs.task_type) (lookup obs.task_type tasks) in
      if str_eq obs.task_type ""
      then tasks
      else insert obs.task_type (observe_task now obs tp) tasks

  unfoldable pub compute_task_composite : TaskProfile F → TaskProfile F
  compute_task_composite tp =
      let one = one_float F in
      let zero = zero_float F in
      let speed = F.max zero (F.sub one (F.div tp.avg_latency_ms (F.of_int (pos 10_000)))) in
      let cost = F.max zero (F.sub one (F.div tp.avg_cost_usd (F.ratio 10 100))) in
      record tp {
        speed_score = speed;
        quality_score = tp.avg_quality;
        cost_score = cost;
        composite_score = F.div (F.add (F.add speed tp.avg_quality) cost) (F.of_int (pos 3));
      }

  -- The loop over the task profiles of a model.
  unfoldable pub composites : Dict (TaskProfile F) → Dict (TaskProfile F)
  composites [] = []
  composites ((task, tp) ∷ tasks) = (task, compute_task_composite tp) ∷ composites tasks

  unfoldable pub derived_cost : SpeedProfile F → QualityProfile F → CostProfile F → CostProfile F
  derived_cost speed quality cost = record cost {
    quality_per_dollar =
        if positive cost.effective_cost_per_request
        then F.div quality.overall_score cost.effective_cost_per_request
        else cost.quality_per_dollar;
    speed_per_dollar =
        if positive speed.latency_ms_p50 && positive cost.effective_cost_per_request
        then F.div (F.div (F.of_int (pos 1000)) speed.latency_ms_p50)
            cost.effective_cost_per_request
        else cost.speed_per_dollar;
  }

  unfoldable pub compute_derived_metrics : ModelProfile F → ModelProfile F
  compute_derived_metrics p = record p {
    cost = derived_cost p.speed p.quality p.cost;
    task_profiles = composites p.task_profiles;
  }

  -- What RecordObservation does to the profile of the model.
  unfoldable pub observe : ℕ → Observation F → ModelProfile F → ModelProfile F
  observe now obs p =
      let p = record p {
        speed = observe_speed obs p.speed;
        quality = observe_quality obs p.quality;
        cost = observe_cost obs p.cost;
        reliability = observe_reliability obs p.reliability;
        task_profiles = update_task_profile now obs p.task_profiles;
      } in
      record (compute_derived_metrics p) { updated_at = now }

  abbrev pub ProfileStore : Type 0
  ProfileStore = Dict (ModelProfile F)

  abbrev pub get : ProfileStore → String → Option (ModelProfile F)
  get store model_key = lookup model_key store

  -- The two ends of GetOrCreate. `id` is the UUID of a profile that is made.
  unfoldable pub found_or_new :
      String
      → ℕ
      → String
      → String
      → ProfileStore
      → Option (ModelProfile F)
      → ModelProfile F × ProfileStore
  found_or_new id now model_key provider store (some p) = (p, store)
  found_or_new id now model_key provider store none =
      let made = new_profile F id now model_key provider in (made, insert model_key made store)

  unfoldable pub get_or_create :
      String → ℕ → String → String → ProfileStore → ModelProfile F × ProfileStore
  get_or_create id now model_key provider store =
      found_or_new id now model_key provider store (lookup model_key store)

  unfoldable pub record_observation : String → ℕ → Observation F → ProfileStore → ProfileStore
  record_observation id now obs store =
      let got = get_or_create id now obs.model_key obs.provider store in
      insert obs.model_key (observe now obs got.0) got.1
