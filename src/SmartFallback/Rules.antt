-- ===== src/SmartFallback/Rules.antt =====
-- plugins/smartfallback/task_rules.go: the rules of each task.
use argis_extensions.Prelude.{
  ◌≡◌, refl, ap, ◌∙◌, String, Bool, true, false, Option, none, some, List, [], ◌∷◌, str_eq,
  if◌then◌else◌, not, or_else,
}
use argis_extensions.Prelude.Int.{ℤ, pos}
use argis_extensions.Prelude.Assoc.{Dict, lookup, insert, delete, lookup-insert, lookup-delete}

pub record TaskRule : Type 0 where
  pub task_type : String
  pub preferred_models : List String
  pub fallback_models : List String
  pub priority : ℤ
  pub required_capabilities : List String
  pub avoid_models : List String

abbrev pub TaskRuleEngine : Type 0
TaskRuleEngine = Dict TaskRule

abbrev pub rule : String → List String → List String → ℤ → List String → String × TaskRule
rule task_type preferred fallback priority capabilities = (
  task_type,
  record {
    task_type = task_type;
    preferred_models = preferred;
    fallback_models = fallback;
    priority = priority;
    required_capabilities = capabilities;
    avoid_models = [];
  },
)

abbrev pub init_default_rules : TaskRuleEngine
init_default_rules =
    rule "tool_call" ("gpt-4o" ∷ "claude-3-5-sonnet" ∷ "gemini-2-flash" ∷ [])
      ("gpt-4-turbo" ∷ "claude-3-opus" ∷ []) (pos 1) ("function_calling" ∷ "tool_use" ∷ [])
    ∷ rule "code_gen" ("claude-3-5-sonnet" ∷ "gpt-4o" ∷ "deepseek-coder" ∷ [])
        ("gpt-4-turbo" ∷ "gemini-2-pro" ∷ []) (pos 1) ("code_generation" ∷ [])
    ∷ rule "reasoning" ("o1-preview" ∷ "claude-3-opus" ∷ "gpt-4o" ∷ [])
        ("claude-3-5-sonnet" ∷ "gemini-2-pro" ∷ []) (pos 1) ("reasoning" ∷ "chain_of_thought" ∷ [])
    ∷ rule "conversation" ("gpt-4o-mini" ∷ "claude-3-haiku" ∷ "gemini-2-flash" ∷ [])
        ("gpt-4o" ∷ "claude-3-5-sonnet" ∷ []) (pos 2) []
    ∷ rule "default" ("gpt-4o" ∷ "claude-3-5-sonnet" ∷ "gemini-2-flash" ∷ [])
        ("gpt-4-turbo" ∷ "claude-3-opus" ∷ "gemini-2-pro" ∷ []) (pos 3) []
    ∷ []

unfoldable pub get_rule : String → TaskRuleEngine → Option TaskRule
get_rule task_type tre = or_else (lookup task_type tre) (lookup "default" tre)

-- `none` is the panic on a nil rule.
unfoldable pub preferred_models_of : String → TaskRuleEngine → Option (List String)
preferred_models_of task_type tre = elim (get_rule task_type tre) [
  | some r ↦ some r.preferred_models
  | none ↦ none
]

unfoldable pub fallback_models_of : String → TaskRuleEngine → Option (List String)
fallback_models_of task_type tre = elim (get_rule task_type tre) [
  | some r ↦ some r.fallback_models
  | none ↦ none
]

unfoldable pub names_model : List String → String → Bool
names_model [] model = false
names_model (avoid ∷ models) model =
    let rest = names_model models model in if str_eq avoid model then true else rest

unfoldable pub is_model_available : String → String → TaskRuleEngine → Option Bool
is_model_available task_type model tre = elim (get_rule task_type tre) [
  | some r ↦ some (not (names_model r.avoid_models model))
  | none ↦ none
]

unfoldable pub add_rule : TaskRule → TaskRuleEngine → TaskRuleEngine
add_rule r tre = insert r.task_type r tre

unfoldable pub remove_rule : String → TaskRuleEngine → TaskRuleEngine
remove_rule task_type tre = delete task_type tre

-- A change of the rules.
pub data RuleChange : Type 0 where
  adding : TaskRule → RuleChange
  removing : String → RuleChange

abbrev pub change_rules : List RuleChange → TaskRuleEngine → TaskRuleEngine
change_rules [] tre = tre
change_rules (adding r ∷ changes) tre = change_rules changes (add_rule r tre)
change_rules (removing task_type ∷ changes) tre = change_rules changes (remove_rule task_type tre)

-- The rule of a task as the last change of this task leaves it.
abbrev pub rule_left : List RuleChange → String → Option TaskRule → Option TaskRule
rule_left [] task_type before = before
rule_left (adding r ∷ changes) task_type before =
    rule_left changes task_type (if str_eq r.task_type task_type then some r else before)
rule_left (removing removed ∷ changes) task_type before =
    rule_left changes task_type (if str_eq removed task_type then none else before)

changed-lookup :
    (changes : List RuleChange) (task_type : String) (tre : TaskRuleEngine)
    → lookup task_type (change_rules changes tre)
      ≡ rule_left changes task_type (lookup task_type tre)
unfolding add_rule remove_rule
changed-lookup [] task_type tre = refl
changed-lookup (adding r ∷ changes) task_type tre =
    changed-lookup changes task_type (insert r.task_type r tre)
    ∙ ap (rule_left changes task_type) (lookup-insert r.task_type task_type r tre)
changed-lookup (removing removed ∷ changes) task_type tre =
    changed-lookup changes task_type (delete removed tre)
    ∙ ap (rule_left changes task_type) (lookup-delete removed task_type tre)

-- After any changes of the rules, the rule of a task is the one that the last change of this task
-- leaves, or where that leaves none, the one that the last change of the default task leaves.
pub rules_left :
    (changes : List RuleChange) (task_type : String) (tre : TaskRuleEngine)
    → get_rule task_type (change_rules changes tre)
      ≡ or_else
          (rule_left changes task_type (lookup task_type tre))
          (rule_left changes "default" (lookup "default" tre))
unfolding get_rule
rules_left changes task_type tre =
    ap (λ o. or_else o (lookup "default" (change_rules changes tre)))
      (changed-lookup changes task_type tre)
    ∙ ap (or_else (rule_left changes task_type (lookup task_type tre)))
        (changed-lookup changes "default" tre)
