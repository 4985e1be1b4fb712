-- ===== src/CostEngine.antt =====
-- costengine/types.go, and the rows of db/sqlc/models.go that the engine reads. A UUID and a billing
-- model are strings, as are the limit types; a nullable column is an `Option`.
pub mod Single
pub mod Batch
pub mod Allowed
pub mod Ranking
mod Tests
use argis_extensions.Prelude.{ℕ, String, Bool, Option, List, ◌⊎◌}
use argis_extensions.Prelude.Int.{ℤ}
use argis_extensions.Prelude.Float.{Float64}

pub record AccountLimit (F : Float64) : Type 0 where
  pub limit_type : String
  pub window_seconds : ℤ
  pub limit_value : F.Carrier
  pub is_hard : Bool
  pub cooldown_seconds : ℤ

pub record EndpointInfo (F : Float64) : Type 0 where
  pub endpoint_id : String
  pub account_id : String
  pub model_id : String
  pub model_name : String
  pub account_name : String
  pub billing_model : String
  pub limits : List (AccountLimit F)
  pub pricing_basis : String
  pub unit_price_input : F.Carrier
  pub unit_price_output : F.Carrier
  pub latency_estimate_ms : ℤ
  pub throughput_tps : F.Carrier
  pub priority : ℤ
  pub quality_tier : String
  pub status : String
  pub is_healthy : Bool

pub record CostRequest : Type 0 where
  pub endpoint_id : String
  pub est_tokens_in : ℤ
  pub est_tokens_out : ℤ
  pub role : String
  pub risk_level : String
  pub task_type : String
  pub require_premium : Bool

pub record CostResult (F : Float64) : Type 0 where
  pub endpoint_id : String
  pub endpoint_info : EndpointInfo F
  pub expected_cost_usd : F.Carrier
  pub expected_latency_ms : ℤ
  pub quota_headroom : F.Carrier
  pub allowed_for_call : Bool
  pub deny_reason : String
  pub is_preferred : Bool
  pub preference_reason : String

pub record BatchCostRequest : Type 0 where
  pub candidates : List String
  pub est_tokens_in : ℤ
  pub est_tokens_out : ℤ
  pub role : String
  pub risk_level : String
  pub task_type : String
  pub require_premium : Bool
  pub max_results : ℤ

pub record BatchCostResult (F : Float64) : Type 0 where
  pub results : List (CostResult F)
  pub recommended_id : String
  pub fallback_ids : List String
  pub all_denied : Bool
  pub deny_reason : String

pub record EngineConfig (F : Float64) : Type 0 where
  pub default_input_cost : F.Carrier
  pub default_output_cost : F.Carrier
  pub soft_quota_threshold : F.Carrier
  pub hard_quota_threshold : F.Carrier
  pub scarce_endpoint_multiplier : F.Carrier
  pub prefer_underused_threshold : F.Carrier

pub record ModelEndpoint (F : Float64) : Type 0 where
  pub id : String
  pub account_id : String
  pub model_id : String
  pub transport : String
  pub upstream_route : Option String
  pub base_url : Option String
  pub pricing_basis : Option String
  pub unit_price_input : Option F.Carrier
  pub unit_price_output : Option F.Carrier
  pub latency_estimate_ms : Option ℤ
  pub throughput_tps : Option F.Carrier
  pub priority : Option ℤ
  pub quality_tier : Option String
  pub status : Option String
  pub cooldown_until : Option ℕ
  pub created_at : Option ℕ
  pub updated_at : Option ℕ

pub record ProviderAccount (F : Float64) : Type 0 where
  pub id : String
  pub name : String
  pub backend_type : String
  pub billing_model : String
  pub base_currency : Option String
  pub subscription_fee_monthly : Option F.Carrier
  pub is_active : Option Bool
  pub notes : Option String
  pub created_at : Option ℕ
  pub updated_at : Option ℕ

pub record ProviderAccountLimit (F : Float64) : Type 0 where
  pub id : String
  pub account_id : String
  pub limit_type : String
  pub window_seconds : ℤ
  pub limit_value : Option F.Carrier
  pub is_hard : Option Bool
  pub cooldown_seconds : Option ℤ
  pub created_at : Option ℕ

-- The generated queries that the engine calls: an error of the database, or the rows.
pub record Queries (F : Float64) (E : Type 0) : Type 0 where
  pub get_model_endpoint : String → E ⊎ ModelEndpoint F
  pub get_provider_account : String → E ⊎ ProviderAccount F
  pub get_account_limits : String → E ⊎ List (ProviderAccountLimit F)
