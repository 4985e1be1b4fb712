-- ===== src/ToolRouter.antt =====
-- plugins/toolrouter/routing.go: the tools that are left in a request, and their order. The SDK's
-- tools and messages are parameters: a tool with its function's name, a message with its role and
-- what its content points at. Tools without a function, on which the source panics, are left out.
pub mod Filtered
mod Tests
use argis_extensions.Prelude.{
  ℕ, suc, String, Bool, true, false, Option, none, some, List, [], ◌∷◌, ◌++◌, snoc, length, take,
  reverse_onto, str_eq, if◌then◌else◌, not, get_or, map, filter,
}
use argis_extensions.Prelude.Int.{ℤ, pos, negsuc, ltb_ℤ}
use argis_extensions.Prelude.Float.{Float64}
use argis_extensions.Prelude.Assoc.{Dict, lookup, insert}

pub record ToolSchemas : Type 1 where
  pub Tool : Type 0
  pub function_name : Tool → String
  pub Message : Type 0
  pub role : Message → String
  pub content_str : Message → Option String

pub record ToolProfile : Type 0 where
  pub preferred : List String
  pub allowed_categories : List String

pub record ToolRouterConfig (F : Float64) : Type 0 where
  pub semantic_match_threshold : F.Carrier
  pub max_tools_per_request : ℤ
  pub require_exact_capability : Bool
  pub fallback_to_all_tools : Bool

abbrev pub default_tool_router_config : (F : Float64) → ToolRouterConfig F
default_tool_router_config F = record {
  semantic_match_threshold = F.ratio 7 10;
  max_tools_per_request = pos 10;
  require_exact_capability = false;
  fallback_to_all_tools = true;
}

unfoldable pub priority_from : ℕ → List String → Dict ℕ → Dict ℕ
priority_from i [] priority = priority
priority_from i (name ∷ names) priority = priority_from (suc i) names (insert name i priority)

unfoldable pub is_some : Option ℕ → Bool
is_some none = false
is_some (some i) = true

module _ (S : ToolSchemas) where
  -- The loop over the tools, with the two lists so far.
  unfoldable pub separate :
      Bool → Dict ℕ → List S.Tool → List S.Tool × List S.Tool → List S.Tool × List S.Tool
  separate fallback priority [] lists = lists
  separate fallback priority (tool ∷ tools) (prioritized, other) =
      separate fallback priority tools (
        if str_eq (S.function_name tool) ""
        then (prioritized, other)
        else if is_some (lookup (S.function_name tool) priority)
        then (snoc prioritized tool, other)
        else if fallback
        then (prioritized, snoc other tool)
        else (prioritized, other))

  unfoldable pub apply_profile :
      {F : Float64} → ToolRouterConfig F → List S.Tool → ToolProfile → List S.Tool
  apply_profile config tools profile = elim profile.preferred [
    | [] ↦ tools
    | name ∷ names ↦
        let lists =
          separate config.fallback_to_all_tools (priority_from 0 (name ∷ names) []) tools
            ([], []) in
        lists.0 ++ lists.1
  ]

  -- The content of the last message of the user: the messages come latest first.
  unfoldable pub last_user_message : List S.Message → String
  last_user_message [] = ""
  last_user_message (msg ∷ older) =
      let earlier = last_user_message older in
      if str_eq (S.role msg) "user" then get_or "" (S.content_str msg) else earlier

  -- `classify` answers the role for a message; `none` is an error of its own.
  unfoldable pub classify_tools :
      Option (String → Option String) → List S.Tool → List S.Message → ToolProfile
  classify_tools none tools messages = record { preferred = []; allowed_categories = [] }
  classify_tools (some classify) tools messages =
      elim (classify (last_user_message (reverse_onto messages []))) [
        | none ↦ record { preferred = []; allowed_categories = [] }
        | some role ↦ record {
          preferred = filter (λ name. not (str_eq name "")) (map S.function_name tools);
          allowed_categories = if str_eq role "" then [] else role ∷ [];
        }
      ]

  -- `tools[:max]` if there are more; `none` is the panic on a negative bound.
  unfoldable pub limit : ℤ → List S.Tool → Option (List S.Tool)
  limit (pos n) tools = some (if ltb_ℤ (pos n) (pos (length tools)) then take n tools else tools)
  limit (negsuc n) tools = none

  -- The profile of the context if it prefers any tools, or one from the model if there is one.
  unfoldable pub choose_profile :
      Option (String → Option String) → ToolProfile → List S.Tool → List S.Message → ToolProfile
  choose_profile none profile tools messages = profile
  choose_profile (some classify) profile tools messages = elim profile.preferred [
    | [] ↦ classify_tools (some classify) tools messages
    | name ∷ names ↦ profile
  ]

  -- The tools of the request after `filterTools`.
  unfoldable pub filter_tools :
      {F : Float64}
      → ToolRouterConfig F
      → Option (String → Option String)
      → ToolProfile
      → List S.Message
      → List S.Tool
      → Option (List S.Tool)
  filter_tools config slm profile messages [] = some []
  filter_tools config slm profile messages (tool ∷ tools) =
      limit config.max_tools_per_request
        (apply_profile config (tool ∷ tools) (choose_profile slm profile (tool ∷ tools) messages))
