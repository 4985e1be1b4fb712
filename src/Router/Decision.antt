-- ===== src/Router/Decision.antt =====
-- plugins/intelligentrouter/router.go and decision.go: the plugin's configuration, its state, and
-- the prompt of a request. The cost engine, the model clients and the queries, which no routing
-- reads, are not in the state.
pub mod Choice
pub mod Route
pub mod Offered
pub mod Steps
pub mod Routed
pub mod Unscored
mod Tests
use argis_extensions.Prelude.{
  ℕ, String, Bool, true, false, Option, none, some, List, [], ◌∷◌, ◌<>◌, if◌then◌else◌,
}
use argis_extensions.Prelude.Int.{pos}
use argis_extensions.Prelude.Assoc.{Dict}
use argis_extensions.Prelude.Float.{Float64}
use argis_extensions.Learning.Profiles.Store.{ProfileStore}
use argis_extensions.Learning.Optimizer.{ThreePillarOptimizer, new_three_pillar_optimizer, set_mode}
use argis_extensions.Learning.Optimizer.Ranked.{Sort}
use argis_extensions.Learning.Tiered.{TieredLearningSystem, new_tiered_learning_system}
use argis_extensions.ToolRouter.{ToolProfile}
use argis_extensions.Router.ArchRouter.{ArchRouterClient}
use argis_extensions.Router.RouteLlm.{RouteLlmClient}
use argis_extensions.Router.Mirt.{MirtClient}
use argis_extensions.Router.Candidates.{Providers}
use argis_extensions.Router.Semantic.{Schemas}

-- What the decision uses of Go's library: `strings.ToLower` and `TrimSpace`, the verb "%.2f", the
-- order in which a range visits a map of scores, and the sort of the optimizer.
pub record GoLibrary (F : Float64) : Type 0 where
  pub to_lower : String → String
  pub trim_space : String → String
  pub two_decimals : F.Carrier → String
  pub visited : Dict F.Carrier → Dict F.Carrier
  pub sort : Sort F

-- More of `schemas.BifrostRequest`: `text_input` is what its TextCompletionRequest's Input points at,
-- a PromptStr and a PromptArray.
pub record Requests (S : Schemas) (P : Providers) : Type 0 where
  pub text_input : S.Request → Option (Option String × List String)
  pub set_model : String → S.Request → S.Request
  pub set_provider : P.ModelProvider → S.Request → S.Request

pub record RoutingDecision (F : Float64) (P : Providers) : Type 0 where
  pub selected_model : String
  pub selected_provider : P.ModelProvider
  pub selected_endpoint_id : String
  pub task_type : String
  pub risk_level : String
  pub confidence : F.Carrier
  pub alternatives : List String
  pub fallback_endpoints : List String
  pub tool_profile : ToolProfile
  pub context_strategy : String
  pub reasoning : String
  pub cost_estimate : F.Carrier
  pub quota_headroom : F.Carrier

pub record RouterConfig (F : Float64) (P : Providers) : Type 0 where
  pub enabled : Bool
  pub arch_router_enabled : Bool
  pub route_llm_enabled : Bool
  pub route_llm_threshold : F.Carrier
  pub route_llm_router : String
  pub semantic_rules_path : String
  pub mirt_enabled : Bool
  pub arch_router_endpoint : String
  pub arch_router_model : String
  pub router_slm_url : String
  pub summarizer_slm_url : String
  pub preferred_providers : List P.ModelProvider
  pub fallback_providers : List P.ModelProvider
  pub use_cost_engine : Bool
  pub max_cost_per_request : F.Carrier
  pub prefer_subscriptions : Bool
  pub allow_scarce_endpoints : Bool

pub record IntelligentRouter (F : Float64) (P : Providers) : Type 0 where
  pub config : RouterConfig F P
  pub arch_client : Option (ArchRouterClient F)
  pub mirt_client : Option (MirtClient F)
  pub route_llm : Option (RouteLlmClient F)
  pub profile_store : ProfileStore F
  pub optimizer : ThreePillarOptimizer F
  pub tiered_learning : TieredLearningSystem F

module _ (F : Float64) (P : Providers) where
  abbrev pub default_router_config : RouterConfig F P
  default_router_config = record {
    enabled = false;
    arch_router_enabled = false;
    route_llm_enabled = true;
    route_llm_threshold = F.ratio 7 10;
    route_llm_router = "mf";
    semantic_rules_path = "";
    mirt_enabled = true;
    arch_router_endpoint = "http://127.0.0.1:8008";
    arch_router_model = "katanemo/Arch-Router-1.5B";
    router_slm_url = "http://localhost:9001";
    summarizer_slm_url = "http://localhost:9002";
    preferred_providers = P.openai ∷ P.anthropic ∷ [];
    fallback_providers = [];
    use_cost_engine = true;
    max_cost_per_request = F.of_int (pos 1);
    prefer_subscriptions = true;
    allow_scarce_endpoints = false;
  }

  -- `New`, at the time `now`.
  unfoldable pub new_router : ℕ → Option (RouterConfig F P) → IntelligentRouter F P
  new_router now config = record {
    config = elim config [ some c ↦ c | none ↦ default_router_config ];
    arch_client = none;
    mirt_client = none;
    route_llm = none;
    profile_store = [];
    optimizer = new_three_pillar_optimizer F "balanced";
    tiered_learning = new_tiered_learning_system F now none;
  }

  unfoldable pub with_optimization_mode : String → IntelligentRouter F P → IntelligentRouter F P
  with_optimization_mode mode ir = record ir { optimizer = set_mode F mode ir.optimizer }

-- The texts of the messages, a space behind each.
unfoldable pub written : List (Option String) → String
written [] = ""
written (none ∷ contents) = " " <> written contents
written (some content ∷ contents) = content <> (" " <> written contents)

-- `strings.Join(parts, " ")`.
unfoldable pub join_parts : List String → String
join_parts [] = ""
join_parts (part ∷ []) = part
join_parts (part ∷ next ∷ parts) = part <> (" " <> join_parts (next ∷ parts))

unfoldable pub text_prompt : Option (Option String × List String) → String
text_prompt none = ""
text_prompt (some (some prompt, parts)) = prompt
text_prompt (some (none, parts)) = join_parts parts

unfoldable pub chat_or_text :
    (String → String)
    → Option (List (Option String))
    → Option (Option String × List String)
    → String
chat_or_text trim (some (content ∷ contents)) text = trim (written (content ∷ contents))
chat_or_text trim (some []) text = text_prompt text
chat_or_text trim none text = text_prompt text
