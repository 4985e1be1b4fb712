-- ===== src/Router/Semantic.antt =====
-- plugins/intelligentrouter/semantic.go: the features of a request, its class, and the models of
-- each class. The request types of the Bifrost SDK are a parameter, seen through what the code reads.
pub mod Classes
use argis_extensions.Prelude.{
  ℕ, suc, ◌+◌, ◌/◌, String, Bool, true, false, Option, none, some, List, [], ◌∷◌, length, ltb,
  if◌then◌else◌, ◌&&◌, ◌||◌,
}
use argis_extensions.Prelude.Int.{pos}
use argis_extensions.Prelude.Assoc.{Dict, lookup}
use argis_extensions.Prelude.Float.{Float64}
use argis_extensions.Router.{
  task_type_tool_call, task_type_code_gen, task_type_reasoning, task_type_default, has_part,
}
use Prim.Native.String.{len}

-- `schemas.BifrostRequest`: `chat_input` is the input of its ChatRequest, `chat_params` the number
-- of tools in the Params of that and whether they have a ToolChoice, `content_str` what a message's
-- content points at.
pub record Schemas : Type 1 where
  pub Request : Type 0
  pub Message : Type 0
  pub chat_input : Request → Option (List Message)
  pub chat_params : Request → Option (ℕ × Bool)
  pub content_str : Message → Option String

pub record FeatureSet (F : Float64) : Type 0 where
  pub has_function_calling : Bool
  pub has_tools : Bool
  pub has_tool_choice : Bool
  pub code_content : Bool
  pub complexity_score : F.Carrier
  pub required_capabilities : List String
  pub message_count : ℕ
  pub total_tokens_estimate : ℕ

pub record DetectionRules (F : Float64) : Type 0 where
  pub has_function_calling : Bool
  pub has_tools : Bool
  pub has_tool_choice : Bool
  pub code_content : Bool
  pub min_complexity : F.Carrier
  pub max_complexity : F.Carrier

pub record TaskRuleSet (F : Float64) : Type 0 where
  pub task_type : String
  pub preferred_models : List String
  pub fallback_models : List String
  pub detection_rules : DetectionRules F

abbrev pub code_markers : List String
code_markers = "```" ∷ "func " ∷ "def " ∷ "class " ∷ []

unfoldable pub any_part : String → List String → Bool
any_part content [] = false
any_part content (w ∷ words) = has_part content w || any_part content words

module _ (F : Float64) where
  abbrev pub no_detection : DetectionRules F
  no_detection = record {
    has_function_calling = false;
    has_tools = false;
    has_tool_choice = false;
    code_content = false;
    min_complexity = F.of_int (pos 0);
    max_complexity = F.of_int (pos 0);
  }

  abbrev pub initialize_rules : Dict (TaskRuleSet F)
  initialize_rules =
      (
        task_type_tool_call,
        record {
          task_type = task_type_tool_call;
          preferred_models = "claude-3-5-sonnet" ∷ "gpt-4-turbo" ∷ "gemini-2-flash" ∷ [];
          fallback_models = "gpt-4o" ∷ "claude-3-opus" ∷ [];
          detection_rules = record no_detection {
            has_function_calling = true;
            has_tools = true;
            has_tool_choice = true;
          };
        },
      )
      ∷ (
        task_type_code_gen,
        record {
          task_type = task_type_code_gen;
          preferred_models = "claude-3-5-sonnet" ∷ "gpt-4" ∷ "gemini-2-flash" ∷ [];
          fallback_models = "gpt-4-turbo" ∷ "claude-3-opus" ∷ [];
          detection_rules = record no_detection {
            code_content = true;
            min_complexity = F.ratio 3 10;
          };
        },
      )
      ∷ (
        task_type_reasoning,
        record {
          task_type = task_type_reasoning;
          preferred_models = "claude-3-opus" ∷ "gpt-4" ∷ "o1-preview" ∷ [];
          fallback_models = "claude-3-5-sonnet" ∷ "gpt-4-turbo" ∷ [];
          detection_rules = record no_detection { min_complexity = F.ratio 7 10 };
        },
      )
      ∷ (
        task_type_default,
        record {
          task_type = task_type_default;
          preferred_models = "gpt-4o-mini" ∷ "claude-3-haiku" ∷ "gemini-1.5-flash" ∷ [];
          fallback_models = "gpt-3.5-turbo" ∷ [];
          detection_rules = no_detection;
        },
      )
      ∷ []

  unfoldable pub classify : FeatureSet F → String
  classify features =
      if features.has_function_calling && features.has_tools
      then task_type_tool_call
      else if features.code_content && F.le (F.ratio 3 10) features.complexity_score
      then task_type_code_gen
      else if F.le (F.ratio 7 10) features.complexity_score
      then task_type_reasoning
      else task_type_default

  -- The models of the default rules; a missing entry of the map has none.
  unfoldable pub models_of : (TaskRuleSet F → List String) → String → List String
  models_of field task_type = elim (lookup task_type initialize_rules) [
    | some rules ↦ field rules
    | none ↦ elim (lookup task_type_default initialize_rules) [
      | some rules ↦ field rules
      | none ↦ []
    ]
  ]

  abbrev pub get_preferred_models : String → List String
  get_preferred_models = models_of (λ rules. rules.preferred_models)

  abbrev pub get_fallback_models : String → List String
  get_fallback_models = models_of (λ rules. rules.fallback_models)

  unfoldable pub raise : Bool → F.Carrier → F.Carrier → F.Carrier
  raise holds amount score = if holds then F.add score amount else score

  unfoldable pub calculate_complexity : FeatureSet F → F.Carrier
  calculate_complexity features =
      let score = raise features.has_tools (F.ratio 3 10) (F.of_int (pos 0)) in
      let score = raise features.code_content (F.ratio 2 10) score in
      let score = raise (ltb 10 features.message_count) (F.ratio 2 10) score in
      let score = raise (ltb 4000 features.total_tokens_estimate) (F.ratio 3 10) score in
      if F.lt (F.of_int (pos 1)) score then F.of_int (pos 1) else score

  abbrev pub no_features : FeatureSet F
  no_features = record {
    has_function_calling = false;
    has_tools = false;
    has_tool_choice = false;
    code_content = false;
    complexity_score = F.of_int (pos 0);
    required_capabilities = [];
    message_count = 0;
    total_tokens_estimate = 0;
  }

  module _ (S : Schemas) where
    unfoldable pub content_of : S.Message → String
    content_of msg = elim (S.content_str msg) [ some content ↦ content | none ↦ "" ]

    -- The loop over the messages.
    unfoldable pub read_messages : List S.Message → FeatureSet F → FeatureSet F
    read_messages [] features = features
    read_messages (msg ∷ messages) features = read_messages messages (record features {
      code_content = any_part (content_of msg) code_markers || features.code_content;
      total_tokens_estimate = features.total_tokens_estimate + len (content_of msg) / 4;
    })

    unfoldable pub read_params : Option (ℕ × Bool) → FeatureSet F → FeatureSet F
    read_params none features = features
    read_params (some (tools, tool_choice)) features = record features {
      has_tools = ltb 0 tools;
      has_tool_choice = tool_choice;
    }

    unfoldable pub read_input : Option (List S.Message) → FeatureSet F → FeatureSet F
    read_input none features = features
    read_input (some messages) features =
        read_messages messages (record features { message_count = length messages })

    unfoldable pub extract_features : S.Request → FeatureSet F
    extract_features req =
        let features =
          read_input (S.chat_input req) (read_params (S.chat_params req) no_features) in
        record features { complexity_score = calculate_complexity features }
