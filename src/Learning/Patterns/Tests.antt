-- ===== src/Learning/Patterns/Tests.antt =====
-- plugins/learning/patterns.go: one pattern and its rule.
use argis_extensions.Prelude.{◌+◌, ◌≤◌, ◌≡◌, refl, String, true, some, List, [], ◌∷◌, arith}
use argis_extensions.Prelude.Assoc.{lookup, insert}
use argis_extensions.Prelude.Float.{micros}
use argis_extensions.Learning.Patterns.{
  Pattern, GeneratedRule, new_rule_generator, rule_from, generate_from, generate_rules, unexpired,
  get_generated_rule,
}
use argis_extensions.Learning.Patterns.Rules.{Generation, generate_all, answered_rule}

abbrev coding : Pattern micros
coding = record {
  id = "p";
  task_type = "coding";
  preferred_models = "gpt-4" ∷ [];
  confidence = 850_000;
  frequency = 1;
  success_rate = 900_000;
  avg_quality = 800_000;
}

abbrev ids : String → String
ids task_type = "rule"

abbrev generations : List (Generation micros)
generations = record { ids = ids; clock = λ n. n + 5; patterns = ("coding", coding) ∷ [] } ∷ []

abbrev coding_rule : GeneratedRule micros
coding_rule = rule_from micros ids 5 6 100 coding

answers_rule :
    get_generated_rule micros 90 "coding"
      (generate_all micros 700_000 100 1 generations (new_rule_generator micros 700_000 100))
    ≡ some coding_rule
unfolding get_generated_rule unexpired generate_rules generate_from rule_from new_rule_generator
    lookup insert
answers_rule = refl

answered_rule_example :
    (coding_rule.task_type ≡ "coding")
    × (micros.le 700_000 coding_rule.confidence ≡ true)
    × (90 ≤ coding_rule.generated_at + 1 + 100)
answered_rule_example =
    answered_rule micros 700_000 100 1 generations 90 "coding" coding_rule (omega arith)
      ((λ n. omega arith), tt) answers_rule
