-- ===== src/ContextFolding.antt =====
-- plugins/contextfolding: the token budget of a request and the messages that are kept for it. The
-- message types of the Bifrost SDK and the summarizing model are parameters. Token counts are
-- unbounded integers here: the source's 64-bit sums are far from their bounds.
pub mod Fits
pub mod Summaries
mod Tests
use argis_extensions.Prelude.{
  ℕ, ◌+◌, ◌-◌, ◌/◌, String, ◌<>◌, Bool, true, false, Option, none, some, List, [], ◌∷◌, ◌++◌,
  length, take, drop, reverse_onto, leb, if◌then◌else◌, not, ◌&&◌,
}
use argis_extensions.Prelude.Int.{ℤ, pos, negsuc, ltb_ℤ, minus_ℕ, minus_ℤ}
use argis_extensions.Prelude.Float.{Float64}
use Prim.Native.String.{len}

-- `schemas.ChatMessage`: its role, what its content points at, and the system message made of a text.
pub record Chats : Type 1 where
  pub Message : Type 0
  pub role : Message → String
  pub content_str : Message → Option String
  pub system_message : String → Message

pub data ContextStrategy : Type 0 where
  raw_only : ContextStrategy
  short_summary : ContextStrategy
  medium_summary : ContextStrategy
  full_summary : ContextStrategy
  medium_summary_with_raw_on_demand : ContextStrategy
  adaptive : ContextStrategy
  -- Any other text.
  unknown_strategy : ContextStrategy

pub record FoldingConfig (F : Float64) : Type 0 where
  pub max_context_tokens : ℤ
  pub reserve_output_tokens : ℤ
  pub system_prompt_tokens : ℤ
  pub summarize_threshold : ℤ
  pub importance_threshold : F.Carrier
  pub max_retrieved_segments : ℤ
  pub max_retrieved_chunks : ℤ
  pub default_strategy : ContextStrategy

abbrev pub default_folding_config : (F : Float64) → FoldingConfig F
default_folding_config F = record {
  max_context_tokens = pos 128_000;
  reserve_output_tokens = pos 4_096;
  system_prompt_tokens = pos 1_000;
  summarize_threshold = pos 2_000;
  importance_threshold = F.ratio 3 10;
  max_retrieved_segments = pos 10;
  max_retrieved_chunks = pos 5;
  default_strategy = medium_summary_with_raw_on_demand;
}

-- The strategy that the router left in the context, or the default.
unfoldable pub get_strategy :
    {F : Float64} → Option ContextStrategy → FoldingConfig F → ContextStrategy
get_strategy (some strategy) config = strategy
get_strategy none config = config.default_strategy

module _ (C : Chats) where
  unfoldable pub estimate_tokens : C.Message → ℕ
  estimate_tokens msg = elim (C.content_str msg) [ some content ↦ len content / 4 | none ↦ 0 ]

  unfoldable pub total_tokens : List C.Message → ℕ
  total_tokens [] = 0
  total_tokens (msg ∷ messages) = estimate_tokens msg + total_tokens messages

  abbrev pub at_least_zero : ℤ → ℕ
  at_least_zero (pos n) = n
  at_least_zero (negsuc n) = 0

  unfoldable pub calculate_budget : {F : Float64} → FoldingConfig F → List C.Message → ℕ
  calculate_budget config messages =
      let budget = minus_ℤ config.max_context_tokens config.reserve_output_tokens in
      let budget = minus_ℤ budget config.system_prompt_tokens in
      at_least_zero (minus_ℕ budget (total_tokens messages))

  abbrev pub is_empty : List C.Message → Bool
  is_empty [] = true
  is_empty (msg ∷ messages) = false

  -- The loop from the last message down: the messages not yet seen, latest first, the tokens used
  -- and the messages kept.
  unfoldable pub fit_from : ℕ → List C.Message → ℕ → List C.Message → List C.Message
  fit_from budget [] used kept = kept
  fit_from budget (msg ∷ older) used kept =
      let tokens = estimate_tokens msg in
      let rest = fit_from budget older (used + tokens) (msg ∷ kept) in
      if not (leb (used + tokens) budget) && not (is_empty kept) then kept else rest

  unfoldable pub truncate_to_fit : List C.Message → ℕ → List C.Message
  truncate_to_fit messages budget = fit_from budget (reverse_onto messages []) 0 []

  unfoldable pub messages_to_text : List C.Message → String
  messages_to_text [] = ""
  messages_to_text (msg ∷ messages) =
      let content : String = elim (C.content_str msg) [ some content ↦ content | none ↦ "" ] in
      C.role msg <> ": " <> content <> "\n\n" <> messages_to_text messages

  -- A summarizer, if there is one, takes a text and a length; `none` is an error of its own.
  unfoldable pub summary_of :
      Option (String → String → Option String) → List C.Message → String → List C.Message
  summary_of none old length_wanted = []
  summary_of (some summarize) old length_wanted =
      elim (summarize (messages_to_text old) length_wanted) [
        | none ↦ []
        | some summary ↦ C.system_message ("[Previous conversation summary]\n" <> summary) ∷ []
      ]

  unfoldable pub summarize_old :
      Option (String → String → Option String) → List C.Message → String → List C.Message
  summarize_old slm messages length_wanted =
      if leb (length messages) 3
      then messages
      else summary_of slm (take (length messages - 3) messages) length_wanted
        ++ drop (length messages - 3) messages

  unfoldable pub adaptive_fold :
      Option (String → String → Option String) → List C.Message → List C.Message
  adaptive_fold slm messages = summarize_old slm messages "medium"

  -- The input of the chat request after folding.
  unfoldable pub fold_context :
      Option (String → String → Option String)
      → ContextStrategy
      → ℕ
      → List C.Message
      → List C.Message
  fold_context slm strategy budget [] = []
  fold_context slm strategy budget (msg ∷ messages) = elim strategy [
    | raw_only ↦ truncate_to_fit (msg ∷ messages) budget
    | short_summary ↦ summarize_old slm (msg ∷ messages) "short"
    | medium_summary ↦ summarize_old slm (msg ∷ messages) "medium"
    | full_summary ↦ summarize_old slm (msg ∷ messages) "long"
    | medium_summary_with_raw_on_demand ↦ adaptive_fold slm (msg ∷ messages)
    | adaptive ↦ adaptive_fold slm (msg ∷ messages)
    | unknown_strategy ↦ msg ∷ messages
  ]

  -- `PreHook`, for the strategy found in the context.
  unfoldable pub pre_hook_fold :
      {F : Float64}
      → Option (String → String → Option String)
      → FoldingConfig F
      → Option ContextStrategy
      → List C.Message
      → List C.Message
  pre_hook_fold slm config chosen messages =
      fold_context slm (get_strategy chosen config) (calculate_budget config messages) messages
