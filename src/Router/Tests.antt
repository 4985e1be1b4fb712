-- ===== src/Router/Tests.antt =====
-- plugins/intelligentrouter: the router's heuristics on concrete prompts and candidates.
use argis_extensions.Prelude.{ℕ, ◌≡◌, ◌⊎◌, String, Bool, true, false, some, List, [], ◌∷◌, arith}
use argis_extensions.Prelude.Float.{micros}
use argis_extensions.Router.{task_type_code_gen, task_type_reasoning, task_type_default}
use argis_extensions.Router.ArchRouter.{new_arch_router_client, classify_prompt}
use argis_extensions.Router.ArchRouter.Blind.{classify_all, all_programming}
use argis_extensions.Router.Semantic.{Schemas, classify, extract_features}
use argis_extensions.Router.Semantic.Classes.{extracted_class}

abbrev asked_before : List (ℕ × String)
asked_before = (7, "") ∷ (8, "tell me a story") ∷ []

all_programming_example :
    ((classify_prompt micros 5 "tell me a story" (
        classify_all micros asked_before
          (new_arch_router_client micros "http://127.0.0.1" "arch"))).0.domain
      ≡ "programming")
    × ((classify_prompt micros 5 "tell me a story" (
          classify_all micros asked_before
            (new_arch_router_client micros "http://127.0.0.1" "arch"))).0.action
        ≡ "code-generation")
all_programming_example =
    all_programming micros "http://127.0.0.1" "arch" asked_before 5 "tell me a story" (omega arith)

-- A request is its messages, the number of its tools and whether it has a tool choice.
abbrev chats : Schemas
chats = record {
  Request = List String × ℕ × Bool;
  Message = String;
  chat_input = λ r. some r.0;
  chat_params = λ r. some (r.1, r.2);
  content_str = λ m. some m;
}

abbrev with_tools : List String × ℕ × Bool
with_tools = ("call the weather tool" ∷ [], 3, true)

extracted_class_example :
    ((classify micros (extract_features micros chats with_tools) ≡ task_type_code_gen)
      × ((extract_features micros chats with_tools).code_content ≡ true)
      × (micros.le 300_000 (extract_features micros chats with_tools).complexity_score ≡ true))
    ⊎ (((classify micros (extract_features micros chats with_tools) ≡ task_type_reasoning)
          × (micros.le 700_000 (extract_features micros chats with_tools).complexity_score ≡ true))
        ⊎ ((classify micros (extract_features micros chats with_tools) ≡ task_type_default)
            × (micros.le 700_000 (extract_features micros chats with_tools).complexity_score
                ≡ false)))
extracted_class_example = extracted_class micros chats with_tools

abbrev overlapping : List (List String)
overlapping = ("gpt-4" ∷ "o1" ∷ []) ∷ [] ∷ ("o1" ∷ "gpt-4o-mini" ∷ []) ∷ []

abbrev same : String → String
same s = s

abbrev three_models : List String
three_models = "gpt-4" ∷ "claude-3-haiku" ∷ "o1" ∷ []
