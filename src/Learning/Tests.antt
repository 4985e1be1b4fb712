-- ===== src/Learning/Tests.antt =====
-- plugins/learning: runs on concrete events, with numbers in millionths.
use argis_extensions.Prelude.{
  ◌≡◌, refl, String, false, none, some, List, [], ◌∷◌, arith, str_eq, if◌then◌else◌,
}
use argis_extensions.Prelude.Int.{pos}
use argis_extensions.Prelude.Float.{micros}
use argis_extensions.Learning.{scope_request, EpisodicEvent}
use argis_extensions.Learning.Tiered.{
  TieredLearningSystem, Context, string_value, default_tiered_config, new_tiered_learning_system,
}
use argis_extensions.Learning.Tiered.Everywhere.{Call, EachScope, record_all}
use argis_extensions.Learning.Tiered.Avoided.{IsUnavoided, nothing_avoided}
use argis_extensions.Learning.Tiered.Recorded.{CountsTo, requests_counted}
use argis_extensions.Learning.Tiered.Prefer.{get_preferred_model}
use argis_extensions.Learning.Tiered.ColdStart.{cold_start}

abbrev in_session : Context
in_session key = if str_eq key "session_id" then some (string_value "s1") else none

abbrev failed : EpisodicEvent micros
failed = record {
  id = "";
  scope = scope_request;
  scope_id = "chain";
  timestamp = 0;
  task_type = "code_generation";
  complexity = 0;
  model = "gpt-4";
  provider = "openai";
  success = false;
  latency_ms = 900_000_000;
  cost_usd = 2_000;
  quality_score = 0;
  emotional_state = "";
  toxicity_score = 0;
  frustration_level = 0;
  patterns = [];
}

abbrev fresh : TieredLearningSystem micros
fresh = new_tiered_learning_system micros 1 none

abbrev four_failures : List (Call micros)
four_failures =
    ("a", 2, in_session, failed)
    ∷ ("b", 3, in_session, failed)
    ∷ ("c", 4, in_session, failed)
    ∷ ("d", 5, in_session, failed)
    ∷ []

nothing_avoided_example :
    (after : TieredLearningSystem micros) × (record_all micros four_failures fresh ≡ some after)
    × EachScope micros (IsUnavoided micros) after
nothing_avoided_example = nothing_avoided micros 1 none four_failures

requests_counted_example :
    (after : TieredLearningSystem micros) × (record_all micros four_failures fresh ≡ some after)
    × EachScope micros (CountsTo micros 4) after
    × (after.global.total_requests ≡ pos 4)
    × (after.config ≡ default_tiered_config)
unfolding new_tiered_learning_system
requests_counted_example = requests_counted micros 1 none four_failures (omega arith)

abbrev two_models : List String
two_models = "gpt-4" ∷ "claude-3-opus" ∷ []

cold_start_example :
    (after : TieredLearningSystem micros) × (record_all micros four_failures fresh ≡ some after)
    × ((get_preferred_model micros 9 in_session "" two_models after).0 ≡ ("", 0))
unfolding new_tiered_learning_system
cold_start_example =
    cold_start micros 1 9 10 none four_failures in_session "" two_models refl (omega arith)
      (omega arith)
