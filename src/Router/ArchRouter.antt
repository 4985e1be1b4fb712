-- ===== src/Router/ArchRouter.antt =====
-- plugins/intelligentrouter/arch_router.go: the classification of a prompt, with its cache. The
-- cache holds pointers, so the latency of a cached answer is written in the cache as well.
pub mod Blind
use argis_extensions.Prelude.{
  ℕ, String, Bool, Option, none, some, List, [], ◌∷◌, if◌then◌else◌, ◌||◌,
}
use argis_extensions.Prelude.Assoc.{Dict, lookup, insert}
use argis_extensions.Prelude.Float.{Float64}
use argis_extensions.Router.{contains_string, mentions}

pub record ArchRouterClassification (F : Float64) : Type 0 where
  pub domain : String
  pub action : String
  pub confidence : F.Carrier
  pub reasoning : String
  pub latency : ℕ

pub record ArchRouterClient (F : Float64) : Type 0 where
  pub endpoint : String
  pub model : String
  pub cache : Dict (ArchRouterClassification F)

abbrev pub programming_keywords : List String
programming_keywords = "code" ∷ "function" ∷ "bug" ∷ "error" ∷ "implement" ∷ "debug" ∷ "api" ∷ []

unfoldable pub action_of : String → String
action_of prompt =
    if contains_string prompt "write"
      || contains_string prompt "create"
      || contains_string prompt "implement"
    then "code-generation"
    else if contains_string prompt "fix"
        || contains_string prompt "debug"
        || contains_string prompt "error"
    then "debugging"
    else if contains_string prompt "explain"
        || contains_string prompt "what"
        || contains_string prompt "how"
    then "explanation"
    else "conversation"

unfoldable pub get_domain_models : String → List String
get_domain_models domain =
    let table =
      ("programming", "claude-3-5-sonnet" ∷ "gpt-4-turbo" ∷ "gemini-2-flash" ∷ [])
      ∷ ("math", "claude-3-opus" ∷ "gpt-4" ∷ "o1-preview" ∷ [])
      ∷ ("writing", "claude-3-opus" ∷ "gpt-4" ∷ "gemini-1.5-pro" ∷ [])
      ∷ ("general", "gpt-4o-mini" ∷ "claude-3-haiku" ∷ "gemini-1.5-flash" ∷ [])
      ∷ [] in
    elim (lookup domain table) [
      | some models ↦ models
      | none ↦ elim (lookup "general" table) [ some models ↦ models | none ↦ [] ]
    ]

module _ (F : Float64) where
  unfoldable pub new_arch_router_client : String → String → ArchRouterClient F
  new_arch_router_client endpoint model = record { endpoint = endpoint; model = model; cache = [] }

  unfoldable pub heuristic_classify : String → ArchRouterClassification F
  heuristic_classify prompt =
      let is_code = mentions prompt programming_keywords in
      record {
        domain = if is_code then "programming" else "general";
        action = action_of prompt;
        confidence = if is_code then F.ratio 7 10 else F.ratio 5 10;
        reasoning = "heuristic";
        latency = 0;
      }

  -- `elapsed` is what `time.Since(start)` reads.
  unfoldable pub classify_prompt :
      ℕ → String → ArchRouterClient F → ArchRouterClassification F × ArchRouterClient F
  classify_prompt elapsed prompt c =
      let answer : ArchRouterClassification F = elim (lookup prompt c.cache) [
        | some cached ↦ record cached { latency = elapsed }
        | none ↦ record (heuristic_classify prompt) { latency = elapsed }
      ] in
      (answer, record c { cache = insert prompt answer c.cache })
