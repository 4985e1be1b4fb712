-- ===== src/Router/RouteLlm.antt =====
-- plugins/intelligentrouter/routellm.go: the score of a prompt, with its cache.
pub mod Blind
use argis_extensions.Prelude.{
  ℕ, String, Bool, Option, none, some, List, [], ◌∷◌, if◌then◌else◌, ltb,
}
use argis_extensions.Prelude.Int.{pos}
use argis_extensions.Prelude.Assoc.{Dict, lookup, insert}
use argis_extensions.Prelude.Float.{Float64}
use argis_extensions.Router.{mentions}
use Prim.Native.String.{len}

pub record RouteLlmClient (F : Float64) : Type 0 where
  pub endpoint : String
  pub router_type : String
  pub threshold : F.Carrier
  pub strong_model : String
  pub weak_model : String
  pub cache : Dict F.Carrier

abbrev pub code_indicators : List String
code_indicators = "```" ∷ "function" ∷ "def " ∷ "class " ∷ "import " ∷ "package " ∷ []

abbrev pub math_indicators : List String
math_indicators = "calculate" ∷ "prove" ∷ "derive" ∷ "equation" ∷ "theorem" ∷ []

module _ (F : Float64) where
  unfoldable pub new_route_llm_client : String → F.Carrier → RouteLlmClient F
  new_route_llm_client router threshold = record {
    endpoint = "";
    router_type = router;
    threshold = threshold;
    strong_model = "gpt-4";
    weak_model = "gpt-3.5-turbo";
    cache = [];
  }

  unfoldable pub add_when : Bool → F.Carrier → F.Carrier → F.Carrier
  add_when found amount score = if found then F.add score amount else score

  unfoldable pub heuristic_score : String → F.Carrier
  heuristic_score prompt =
      let score = add_when (ltb 2000 (len prompt)) (F.ratio 2 10) (F.ratio 5 10) in
      let score = add_when (mentions prompt code_indicators) (F.ratio 1 10) score in
      let score = add_when (mentions prompt math_indicators) (F.ratio 15 100) score in
      if F.lt (F.of_int (pos 1)) score then F.of_int (pos 1) else score

  unfoldable pub score_prompt : String → RouteLlmClient F → F.Carrier × RouteLlmClient F
  score_prompt prompt c = elim (lookup prompt c.cache) [
    | some score ↦ (score, c)
    | none ↦
        let score = heuristic_score prompt in
        (score, record c { cache = insert prompt score c.cache })
  ]

  unfoldable pub should_use_strong_model : F.Carrier → RouteLlmClient F → Bool
  should_use_strong_model score c = F.le c.threshold score
