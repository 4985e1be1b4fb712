-- ===== src/Router/Decision/Choice.antt =====
-- plugins/intelligentrouter/decision.go: the steps that find the candidates and choose a model.
use argis_extensions.Prelude.{
  ℕ, String, Bool, Option, none, some, List, [], ◌∷◌, ◌<>◌, str_eq, if◌then◌else◌, not, ◌&&◌,
}
use argis_extensions.Prelude.Assoc.{Dict}
use argis_extensions.Prelude.Float.{Float64}
use argis_extensions.Learning.{zero_float}
use argis_extensions.Learning.Optimizer.{ModelScore}
use argis_extensions.Router.ArchRouter.{ArchRouterClient, classify_prompt, get_domain_models}
use argis_extensions.Router.RouteLlm.{RouteLlmClient, score_prompt, should_use_strong_model}
use argis_extensions.Router.Mirt.{MirtClient, score}
use argis_extensions.Router.Candidates.{Providers, prefer_cheaper_models, infer_provider}
use argis_extensions.Router.Decision.{GoLibrary, RoutingDecision}

module _ (F : Float64) (P : Providers) (G : GoLibrary F) where
  abbrev pub new_decision : RoutingDecision F P
  new_decision = record {
    selected_model = "";
    selected_provider = P.unset;
    selected_endpoint_id = "00000000-0000-0000-0000-000000000000";
    task_type = "";
    risk_level = "";
    confidence = F.ratio 5 10;
    alternatives = [];
    fallback_endpoints = [];
    tool_profile = record { allowed_categories = []; preferred = [] };
    context_strategy = "";
    reasoning = "";
    cost_estimate = zero_float F;
    quota_headroom = zero_float F;
  }

  -- Step 2. `elapsed` is the time that the classification takes.
  unfoldable pub domain_step :
      ℕ
      → String
      → String
      → Option (ArchRouterClient F)
      → (List String × String) × Option (ArchRouterClient F)
  domain_step elapsed endpoint prompt none = (([], ""), none)
  domain_step elapsed endpoint prompt (some c) =
      let (answer, after) = classify_prompt F elapsed prompt c in
      if not (str_eq endpoint "")
      then (
        (
          get_domain_models answer.domain,
          "Domain: " <> (answer.domain <> (", Action: " <> answer.action)),
        ),
        some after,
      )
      else (([], ""), some c)

  -- Step 4: the candidates and the confidence.
  unfoldable pub cost_step :
      Bool
      → String
      → List String
      → Option (RouteLlmClient F)
      → (List String × F.Carrier) × Option (RouteLlmClient F)
  cost_step enabled prompt candidates none = ((candidates, F.ratio 5 10), none)
  cost_step enabled prompt candidates (some c) =
      let (points, after) = score_prompt F prompt c in
      if enabled
      then (
        (
          if not (should_use_strong_model F points after)
              then prefer_cheaper_models G.to_lower candidates
              else candidates,
          points,
        ),
        some after,
      )
      else ((candidates, F.ratio 5 10), some c)

  -- Step 5.
  unfoldable pub mirt_step :
      Bool
      → String
      → List String
      → Option (MirtClient F)
      → Option (Dict F.Carrier) × Option (MirtClient F)
  mirt_step enabled prompt candidates none = (none, none)
  mirt_step enabled prompt candidates (some c) =
      let (scores, after) = score F prompt candidates c in
      if enabled then (some scores, some after) else (none, some c)

  -- The loop over the scores, with the best one so far.
  unfoldable pub highest : Dict F.Carrier → String × F.Carrier → String × F.Carrier
  highest [] best = best
  highest ((model, points) ∷ scores) best =
      highest scores (if F.lt best.1 points then (model, points) else best)

  unfoldable pub select_best : List String → Option (Dict F.Carrier) → String × P.ModelProvider
  select_best [] scores = ("gpt-4o-mini", P.openai)
  select_best (c ∷ candidates) none = (c, infer_provider G.to_lower P c)
  select_best (c ∷ candidates) (some scores) =
      let model = (highest (G.visited scores) (c, zero_float F)).0 in
      (model, infer_provider G.to_lower P model)

  unfoldable pub choose_ranked :
      List String
      → Option (Dict F.Carrier)
      → List (ModelScore F)
      → RoutingDecision F P
      → RoutingDecision F P
  choose_ranked candidates scores [] d =
      let (model, provider) = select_best candidates scores in
      record d { selected_model = model; selected_provider = provider }
  choose_ranked candidates scores (best ∷ others) d = record d {
    selected_model = best.model_key;
    selected_provider = infer_provider G.to_lower P best.model_key;
    confidence = best.confidence;
    cost_estimate = best.cost_score;
    reasoning =
        d.reasoning
        <> (" | 3-Pillar: speed="
            <> (G.two_decimals best.speed_score
                <> (" quality="
                    <> (G.two_decimals best.quality_score
                        <> (" cost=" <> G.two_decimals best.cost_score)))));
  }

  -- Step 6, from the preference and the ranking of the candidates.
  unfoldable pub choose :
      String × F.Carrier
      → List String
      → Option (Dict F.Carrier)
      → List (ModelScore F)
      → RoutingDecision F P
      → RoutingDecision F P
  choose (model, confidence) candidates scores ranked d =
      if not (str_eq model "") && F.lt (F.ratio 6 10) confidence
      then record d {
        selected_model = model;
        selected_provider = infer_provider G.to_lower P model;
        confidence = confidence;
        reasoning =
            d.reasoning
            <> (" | Tiered preference: "
                <> (model <> (" (" <> (G.two_decimals confidence <> ")"))));
      }
      else choose_ranked candidates scores ranked d
