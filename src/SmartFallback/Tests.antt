-- ===== src/SmartFallback/Tests.antt =====
-- plugins/smartfallback: the default configuration, with numbers in millionths.
use argis_extensions.Prelude.{◌≡◌, true, some, List, [], ◌∷◌, or_else}
use argis_extensions.Prelude.Int.{pos}
use argis_extensions.Prelude.Assoc.{lookup}
use argis_extensions.Prelude.Float.{micros}
use argis_extensions.SmartFallback.{should_retry, default_fallback_config}
use argis_extensions.SmartFallback.Strategies.{
  ExponentialBackoffStrategy, new_exponential_backoff_strategy, as_strategy, should_fallback,
}
use argis_extensions.SmartFallback.Rules.{
  RuleChange, adding, removing, rule, init_default_rules, get_rule, change_rules, rule_left,
  rules_left,
}
use argis_extensions.SmartFallback.Retries.{retried_exactly}

abbrev gemini : ExponentialBackoffStrategy micros
gemini = new_exponential_backoff_strategy micros "gemini" (default_fallback_config micros)

retried_exactly_example :
    should_retry (some (some (pos 429))) (pos 2) (as_strategy micros gemini)
    ≡ should_fallback micros true (pos 2) gemini
retried_exactly_example = retried_exactly micros (some (pos 429)) (pos 2) gemini

abbrev changes : List RuleChange
changes =
    removing "default"
    ∷ adding (rule "vision" ("gpt-4o" ∷ []) [] (pos 1) []).1
    ∷ removing "reasoning"
    ∷ []

rules_left_example :
    get_rule "reasoning" (change_rules changes init_default_rules)
    ≡ or_else
        (rule_left changes "reasoning" (lookup "reasoning" init_default_rules))
        (rule_left changes "default" (lookup "default" init_default_rules))
rules_left_example = rules_left changes "reasoning" init_default_rules
