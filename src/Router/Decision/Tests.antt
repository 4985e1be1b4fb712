-- ===== src/Router/Decision/Tests.antt =====
-- plugins/intelligentrouter: a request to a new router, with numbers in millionths.
use argis_extensions.Prelude.{
  ◌≡◌, String, true, none, some, List, [], ◌∷◌, count, min, arith, if◌then◌else◌,
}
use argis_extensions.Prelude.Assoc.{Dict, lookup}
use argis_extensions.Prelude.Float.{micros, micros-IsStrict}
use argis_extensions.Prelude.Sort.{Sorts}
use argis_extensions.Prelude.Sort.Insertion.{insertion_sort, insertion_sort-Sorts}
use argis_extensions.Learning.Tiered.{Context}
use argis_extensions.Learning.Tiered.Prefer.{contains}
use argis_extensions.Learning.Optimizer.Ranked.{scores_higher}
use argis_extensions.Learning.Profiles.Keyed.{KeysAgree}
use argis_extensions.Router.Semantic.{Schemas, no_features}
use argis_extensions.Router.Candidates.{Providers}
use argis_extensions.Router.Mirt.{
  Vector25, new_mirt_client, compute_features, irt_score, score, load_abilities,
}
use argis_extensions.Router.Mirt.Scored.{ability_of, score_all, scored_exactly}
use argis_extensions.Router.Decision.{GoLibrary, Requests, IntelligentRouter, new_router}
use argis_extensions.Router.Decision.Route.{candidate_models, route}
use argis_extensions.Router.Decision.Unscored.{route-unscored}
use argis_extensions.Router.Decision.Steps.{AreAlternatives}
use argis_extensions.Router.Decision.Routed.{route-IsOffered}

-- A request is the text of its messages.
abbrev chats : Schemas
chats = record {
  Request = List String;
  Message = String;
  chat_input = λ r. some r;
  chat_params = λ r. none;
  content_str = λ m. some m;
}

abbrev providers : Providers
providers = record {
  ModelProvider = String;
  unset = "";
  anthropic = "anthropic";
  openai = "openai";
  gemini = "gemini";
  mistral = "mistral";
  bedrock = "bedrock";
}

abbrev requests : Requests chats providers
requests = record {
  text_input = λ r. none;
  set_model = λ model r. r;
  set_provider = λ provider r. r;
}

abbrev library : GoLibrary micros
library = record {
  to_lower = λ s. s;
  trim_space = λ s. s;
  two_decimals = λ x. "";
  visited = λ scores. scores;
  sort = insertion_sort (scores_higher micros);
}

library-Sorts : Sorts (scores_higher micros) library.sort
library-Sorts =
    insertion_sort-Sorts (scores_higher micros) (λ a. micros-IsStrict.lt_irrefl a.composite_score)
      (λ a b c p q.
        micros-IsStrict.lt_trans c.composite_score b.composite_score a.composite_score q p)

abbrev fresh : IntelligentRouter micros providers
fresh = new_router micros providers 0 none

abbrev nobody : Context
nobody key = none

abbrev hello : List String
hello = "hello" ∷ []

empty-KeysAgree : KeysAgree micros fresh.profile_store
unfolding lookup new_router
empty-KeysAgree key p e = ground (e, arith)

route-IsOffered_example :
    (count
        (route micros providers library chats requests 1 2 nobody
          (no_features micros)
          hello
          fresh).0.selected_model
        (candidate_models micros providers library chats requests 2
          (no_features micros)
          hello
          fresh)
      ≡ 1)
    × AreAlternatives
        (λ m. min 1 (
          count m (
            candidate_models micros providers library chats requests 2
              (no_features micros)
              hello
              fresh)))
        (route micros providers library chats requests 1 2 nobody
          (no_features micros)
          hello
          fresh).0.selected_model
        (route micros providers library chats requests 1 2 nobody
          (no_features micros)
          hello
          fresh).0.alternatives
route-IsOffered_example =
    route-IsOffered micros providers library chats requests 1 2 nobody (no_features micros) hello
      fresh library-Sorts empty-KeysAgree

route-unscored_example :
    (route micros providers library chats requests 1 2 nobody
      (no_features micros)
      hello
      (record fresh {
        mirt_client = some (new_mirt_client micros);
        config = record fresh.config { mirt_enabled = true };
      })).0
    ≡ (route micros providers library chats requests 1 2 nobody (no_features micros) hello fresh).0
route-unscored_example =
    route-unscored micros providers library chats requests 1 2 nobody (no_features micros) hello
      fresh (some (new_mirt_client micros)) true library-Sorts

abbrev abilities : Dict (Vector25 micros)
abilities = ("gpt-4", λ i. 900_000) ∷ []

abbrev asked_before : List (String × List String)
asked_before = ("hello", "gpt-4" ∷ []) ∷ []

scored_exactly_example :
    lookup "gpt-4"
      (score micros "hello" ("gpt-4" ∷ []) (
        score_all micros asked_before (load_abilities micros abilities (new_mirt_client micros)))).0
    ≡ (if contains micros ("gpt-4" ∷ []) "gpt-4"
        then some (
            irt_score micros
              (ability_of micros abilities "gpt-4")
              (compute_features micros "hello"))
        else none)
scored_exactly_example = scored_exactly micros abilities asked_before "hello" ("gpt-4" ∷ []) "gpt-4"
