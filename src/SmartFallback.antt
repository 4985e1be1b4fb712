-- ===== src/SmartFallback.antt =====
-- plugins/smartfallback/fallback.go: the plugin, its strategies by provider, and when it retries.
--
-- The providers of the SDK are texts, of which the source names three. The hooks of the plugin hand
-- their arguments on.
pub mod Strategies
pub mod Rules
pub mod Retries
mod Tests
use argis_extensions.Prelude.{
  ℕ, String, Bool, true, false, Option, none, some, List, [], ◌∷◌, if◌then◌else◌, ◌&&◌,
}
use argis_extensions.Prelude.Int.{ℤ, pos, ltb_ℤ, leb_ℤ}
use argis_extensions.Prelude.Assoc.{Dict, lookup}
use argis_extensions.Prelude.Float.{Float64}

-- Durations are in nanoseconds.
pub record FallbackConfig (F : Float64) : Type 0 where
  pub gemini_max_retries : ℤ
  pub gemini_backoff_min : ℤ
  pub gemini_backoff_max : ℤ
  pub gemini_backoff_multiplier : F.Carrier
  pub cerebras_max_retries : ℤ
  pub cerebras_indefinite_threshold : ℤ
  pub cerebras_indefinite_cooldown : ℤ
  pub budget_warning_threshold : F.Carrier
  pub budget_throttle_threshold : F.Carrier
  pub budget_block_threshold : F.Carrier
  pub default_max_retries : ℤ
  pub default_wait_time : ℤ
  pub enabled : Bool

abbrev pub default_fallback_config : (F : Float64) → FallbackConfig F
default_fallback_config F = record {
  gemini_max_retries = pos 3;
  gemini_backoff_min = pos 100_000_000;
  gemini_backoff_max = pos 10_000_000_000;
  gemini_backoff_multiplier = F.of_int (pos 2);
  cerebras_max_retries = pos 5;
  cerebras_indefinite_threshold = pos 5;
  cerebras_indefinite_cooldown = pos 60_000_000_000;
  budget_warning_threshold = F.ratio 7 10;
  budget_throttle_threshold = F.ratio 85 100;
  budget_block_threshold = F.of_int (pos 1);
  default_max_retries = pos 3;
  default_wait_time = pos 1_000_000_000;
  enabled = true;
}

-- The methods of `FallbackStrategy` that the plugin calls.
pub record FallbackStrategy : Type 0 where
  pub get_max_retries : ℤ
  pub get_fallback_models : List String

pub record FallbackPlugin (F : Float64) : Type 0 where
  pub config : FallbackConfig F
  pub strategies : Dict FallbackStrategy

-- An error as `shouldRetry` sees it: the status code of the BifrostError in its chain, if there is
-- one with a status code.
unfoldable pub should_retry : Option (Option ℤ) → ℤ → FallbackStrategy → Bool
should_retry none attempt strategy = false
should_retry (some none) attempt strategy = ltb_ℤ attempt strategy.get_max_retries
should_retry (some (some status_code)) attempt strategy =
    if leb_ℤ (pos 429) status_code && leb_ℤ status_code (pos 429)
    then ltb_ℤ attempt strategy.get_max_retries
    else if leb_ℤ (pos 500) status_code && ltb_ℤ status_code (pos 600)
    then ltb_ℤ attempt strategy.get_max_retries
    else ltb_ℤ attempt strategy.get_max_retries

-- `none` where neither the provider nor OpenAI has a strategy.
unfoldable pub get_strategy : {F : Float64} → String → FallbackPlugin F → Option FallbackStrategy
get_strategy provider fp = elim (lookup provider fp.strategies) [
  | some strategy ↦ some strategy
  | none ↦ lookup "openai" fp.strategies
]
