-- ===== src/Learning/Profiles.antt =====
-- plugins/learning/model_profile.go: what is observed of each model. The store's map holds pointers
-- that only it shares, so a profile is a value of the map. `SpeedByInputSize` is a map as well.
pub mod Store
pub mod Replayed
pub mod Keyed
use argis_extensions.Prelude.{ℕ, String, Bool, false, List, []}
use argis_extensions.Prelude.Int.{ℤ, pos}
use argis_extensions.Prelude.Assoc.{Dict}
use argis_extensions.Prelude.Float.{Float64}
use argis_extensions.Learning.{zero_float}

pub record SpeedProfile (F : Float64) : Type 0 where
  pub ttft_ms_p50 : F.Carrier
  pub ttft_ms_p95 : F.Carrier
  pub ttft_ms_p99 : F.Carrier
  pub latency_ms_p50 : F.Carrier
  pub latency_ms_p95 : F.Carrier
  pub latency_ms_p99 : F.Carrier
  pub tokens_per_second_avg : F.Carrier
  pub tokens_per_second_p95 : F.Carrier
  pub queue_time_ms_avg : F.Carrier
  pub speed_by_input_size : Dict F.Carrier

pub record QualityProfile (F : Float64) : Type 0 where
  pub overall_score : F.Carrier
  pub code_gen_quality : F.Carrier
  pub reasoning_quality : F.Carrier
  pub creative_quality : F.Carrier
  pub instruction_follow : F.Carrier
  pub factual_accuracy : F.Carrier
  pub mmlu_score : F.Carrier
  pub human_eval_score : F.Carrier
  pub gsm8k_score : F.Carrier
  pub mt_bench_score : F.Carrier
  pub user_satisfaction_avg : F.Carrier
  pub thumbs_up_ratio : F.Carrier
  pub regeneration_rate : F.Carrier
  pub verbosity_score : F.Carrier
  pub coherence_score : F.Carrier
  pub context_retention : F.Carrier

pub record CostProfile (F : Float64) : Type 0 where
  pub input_price_per_mtok : F.Carrier
  pub output_price_per_mtok : F.Carrier
  pub effective_cost_per_request : F.Carrier
  pub effective_cost_per_1k_tokens : F.Carrier
  pub quality_per_dollar : F.Carrier
  pub speed_per_dollar : F.Carrier
  pub avg_tokens_per_request : ℤ
  pub total_spent_usd : F.Carrier
  pub billing_model : String
  pub has_free_tier : Bool

pub record TaskProfile (F : Float64) : Type 0 where
  pub task_type : String
  pub sample_count : ℤ
  pub last_seen : ℕ
  pub speed_score : F.Carrier
  pub quality_score : F.Carrier
  pub cost_score : F.Carrier
  pub composite_score : F.Carrier
  pub avg_latency_ms : F.Carrier
  pub success_rate : F.Carrier
  pub avg_quality : F.Carrier
  pub avg_cost_usd : F.Carrier

pub record ReliabilityProfile (F : Float64) : Type 0 where
  pub success_rate : F.Carrier
  pub error_rate : F.Carrier
  pub timeout_rate : F.Carrier
  pub rate_limit_hit_rate : F.Carrier
  pub avg_retries : F.Carrier
  pub uptime_percent : F.Carrier
  pub mtbf : F.Carrier

pub record CapacityProfile (F : Float64) : Type 0 where
  pub rpm_limit : ℤ
  pub tpm_limit : ℤ
  pub current_utilization : F.Carrier
  pub context_window : ℤ
  pub max_output_tokens : ℤ

pub record ModelProfile (F : Float64) : Type 0 where
  pub id : String
  pub model_key : String
  pub provider : String
  pub updated_at : ℕ
  pub speed : SpeedProfile F
  pub quality : QualityProfile F
  pub cost : CostProfile F
  pub task_profiles : Dict (TaskProfile F)
  pub reliability : ReliabilityProfile F
  pub capacity : CapacityProfile F

pub record Observation (F : Float64) : Type 0 where
  pub model_key : String
  pub provider : String
  pub task_type : String
  pub latency_ms : F.Carrier
  pub ttft_ms : F.Carrier
  pub input_tokens : ℤ
  pub output_tokens : ℤ
  pub cost_usd : F.Carrier
  pub success : Bool
  pub quality_score : F.Carrier
  pub user_satisfaction : F.Carrier

-- The zero values of the parts of a profile.
module _ (F : Float64) where
  abbrev pub zero_speed : SpeedProfile F
  zero_speed = record {
    ttft_ms_p50 = zero_float F;
    ttft_ms_p95 = zero_float F;
    ttft_ms_p99 = zero_float F;
    latency_ms_p50 = zero_float F;
    latency_ms_p95 = zero_float F;
    latency_ms_p99 = zero_float F;
    tokens_per_second_avg = zero_float F;
    tokens_per_second_p95 = zero_float F;
    queue_time_ms_avg = zero_float F;
    speed_by_input_size = [];
  }

  abbrev pub zero_quality : QualityProfile F
  zero_quality = record {
    overall_score = zero_float F;
    code_gen_quality = zero_float F;
    reasoning_quality = zero_float F;
    creative_quality = zero_float F;
    instruction_follow = zero_float F;
    factual_accuracy = zero_float F;
    mmlu_score = zero_float F;
    human_eval_score = zero_float F;
    gsm8k_score = zero_float F;
    mt_bench_score = zero_float F;
    user_satisfaction_avg = zero_float F;
    thumbs_up_ratio = zero_float F;
    regeneration_rate = zero_float F;
    verbosity_score = zero_float F;
    coherence_score = zero_float F;
    context_retention = zero_float F;
  }

  abbrev pub zero_cost : CostProfile F
  zero_cost = record {
    input_price_per_mtok = zero_float F;
    output_price_per_mtok = zero_float F;
    effective_cost_per_request = zero_float F;
    effective_cost_per_1k_tokens = zero_float F;
    quality_per_dollar = zero_float F;
    speed_per_dollar = zero_float F;
    avg_tokens_per_request = pos 0;
    total_spent_usd = zero_float F;
    billing_model = "";
    has_free_tier = false;
  }

  abbrev pub zero_reliability : ReliabilityProfile F
  zero_reliability = record {
    success_rate = zero_float F;
    error_rate = zero_float F;
    timeout_rate = zero_float F;
    rate_limit_hit_rate = zero_float F;
    avg_retries = zero_float F;
    uptime_percent = zero_float F;
    mtbf = zero_float F;
  }

  abbrev pub zero_capacity : CapacityProfile F
  zero_capacity = record {
    rpm_limit = pos 0;
    tpm_limit = pos 0;
    current_utilization = zero_float F;
    context_window = pos 0;
    max_output_tokens = pos 0;
  }

  -- `&TaskProfile{TaskType: task_type}`.
  abbrev pub new_task_profile : String → TaskProfile F
  new_task_profile task_type = record {
    task_type = task_type;
    sample_count = pos 0;
    last_seen = 0;
    speed_score = zero_float F;
    quality_score = zero_float F;
    cost_score = zero_float F;
    composite_score = zero_float F;
    avg_latency_ms = zero_float F;
    success_rate = zero_float F;
    avg_quality = zero_float F;
    avg_cost_usd = zero_float F;
  }

  -- The profile that `GetOrCreate` makes.
  abbrev pub new_profile : String → ℕ → String → String → ModelProfile F
  new_profile id now model_key provider = record {
    id = id;
    model_key = model_key;
    provider = provider;
    updated_at = now;
    speed = zero_speed;
    quality = zero_quality;
    cost = zero_cost;
    task_profiles = [];
    reliability = zero_reliability;
    capacity = zero_capacity;
  }
