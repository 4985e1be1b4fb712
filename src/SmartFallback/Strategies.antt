-- ===== src/SmartFallback/Strategies.antt =====
-- plugins/smartfallback/strategies.go: exponential backoff and the budget.
use argis_extensions.Prelude.{
  String, Bool, true, false, Option, none, some, List, [], ◌∷◌, ◌<>◌, str_eq, if◌then◌else◌,
}
use argis_extensions.Prelude.Int.{ℤ, pos, ltb_ℤ, is_zero}
use argis_extensions.Prelude.Float.{Float64}
use argis_extensions.SmartFallback.{
  FallbackConfig, FallbackStrategy, FallbackPlugin, default_fallback_config,
}

pub record ExponentialBackoffStrategy (F : Float64) : Type 0 where
  pub name : String
  pub config : FallbackConfig F
  pub max_retries : ℤ
  pub backoff_min : ℤ
  pub backoff_max : ℤ
  pub multiplier : F.Carrier
  pub fallbacks : List String

pub record BudgetAwareStrategy (F : Float64) : Type 0 where
  pub config : FallbackConfig F
  pub used_budget : F.Carrier
  pub total_budget : F.Carrier

module _ (F : Float64) where
  unfoldable pub new_exponential_backoff_strategy :
      String → FallbackConfig F → ExponentialBackoffStrategy F
  new_exponential_backoff_strategy name config =
      let strategy : ExponentialBackoffStrategy F = record {
        name = name;
        config = config;
        max_retries = config.default_max_retries;
        backoff_min = pos 100_000_000;
        backoff_max = pos 10_000_000_000;
        multiplier = F.of_int (pos 2);
        fallbacks = [];
      } in
      if str_eq name "gemini"
      then record strategy {
        max_retries = config.gemini_max_retries;
        backoff_min = config.gemini_backoff_min;
        backoff_max = config.gemini_backoff_max;
        multiplier = config.gemini_backoff_multiplier;
        fallbacks = "claude-3-5-sonnet" ∷ "gpt-4-turbo" ∷ [];
      }
      else if str_eq name "openai"
      then record strategy { fallbacks = "claude-3-5-sonnet" ∷ "gemini-2-flash" ∷ [] }
      else if str_eq name "anthropic"
      then record strategy { fallbacks = "gpt-4-turbo" ∷ "gemini-2-flash" ∷ [] }
      else record strategy { fallbacks = "gpt-4o-mini" ∷ "claude-3-haiku" ∷ "gemini-2-flash" ∷ [] }

  -- `failed` is `err != nil`.
  unfoldable pub should_fallback : Bool → ℤ → ExponentialBackoffStrategy F → Bool
  should_fallback failed attempt s = if failed then ltb_ℤ attempt s.max_retries else false

  unfoldable pub get_wait_time : ℤ → ExponentialBackoffStrategy F → ℤ
  get_wait_time attempt s =
      let backoff =
        F.to_int (F.mul (F.of_int s.backoff_min) (F.pow s.multiplier (F.of_int attempt))) in
      if is_zero attempt
      then s.backoff_min
      else if ltb_ℤ s.backoff_max backoff
      then s.backoff_max
      else backoff

  unfoldable pub strategy_name : ExponentialBackoffStrategy F → String
  strategy_name s = s.name <> "-exponential-backoff"

  abbrev pub as_strategy : ExponentialBackoffStrategy F → FallbackStrategy
  as_strategy s = record { get_max_retries = s.max_retries; get_fallback_models = s.fallbacks }

  unfoldable pub new_fallback_plugin : Option (FallbackConfig F) → FallbackPlugin F
  new_fallback_plugin given =
      let config : FallbackConfig F = elim given [
        | some c ↦ c
        | none ↦ default_fallback_config F
      ] in
      record {
        config = config;
        strategies =
            ("gemini", as_strategy (new_exponential_backoff_strategy "gemini" config))
            ∷ ("openai", as_strategy (new_exponential_backoff_strategy "openai" config))
            ∷ ("anthropic", as_strategy (new_exponential_backoff_strategy "anthropic" config))
            ∷ [];
      }

  unfoldable pub new_budget_aware_strategy : FallbackConfig F → F.Carrier → BudgetAwareStrategy F
  new_budget_aware_strategy config total_budget = record {
    config = config;
    used_budget = F.of_int (pos 0);
    total_budget = total_budget;
  }

  unfoldable pub should_fallback_on_budget : Bool → ℤ → BudgetAwareStrategy F → Bool
  should_fallback_on_budget failed attempt s =
      if failed
      then (if F.le s.config.budget_block_threshold (F.div s.used_budget s.total_budget)
          then true
          else ltb_ℤ attempt s.config.default_max_retries)
      else false

  unfoldable pub update_budget : F.Carrier → BudgetAwareStrategy F → BudgetAwareStrategy F
  update_budget amount s = record s { used_budget = F.add s.used_budget amount }

  unfoldable pub get_budget_usage : BudgetAwareStrategy F → F.Carrier
  get_budget_usage s =
      if F.eq s.total_budget (F.of_int (pos 0))
      then F.of_int (pos 0)
      else F.div s.used_budget s.total_budget

  unfoldable pub is_throttled : BudgetAwareStrategy F → Bool
  is_throttled s = F.le s.config.budget_throttle_threshold (get_budget_usage s)

  unfoldable pub is_blocked : BudgetAwareStrategy F → Bool
  is_blocked s = F.le s.config.budget_block_threshold (get_budget_usage s)
