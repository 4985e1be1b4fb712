-- ===== src/Router/Decision/Route.antt =====
-- plugins/intelligentrouter/decision.go: the routing of a request, and what is done with it.
use argis_extensions.Prelude.{
  ℕ, String, Bool, Option, none, some, List, [], ◌∷◌, map, snoc, length, ltb, str_eq, if◌then◌else◌,
  not, ◌&&◌,
}
use argis_extensions.Prelude.Int.{ℤ, pos}
use argis_extensions.Prelude.Float.{Float64}
use argis_extensions.Learning.{zero_float}
use argis_extensions.Learning.Profiles.{Observation}
use argis_extensions.Learning.Optimizer.{ModelScore}
use argis_extensions.Learning.Optimizer.Ranked.{plain_request, rank_models}
use argis_extensions.Learning.Optimizer.Frontier.{pareto_frontier}
use argis_extensions.Learning.Tiered.{Context}
use argis_extensions.Learning.Tiered.Prefer.{get_preferred_model}
use argis_extensions.Router.Candidates.{Providers, merge_candidates, get_alternatives}
use argis_extensions.Router.Semantic.{
  Schemas, FeatureSet, classify, get_preferred_models, get_fallback_models,
}
use argis_extensions.Router.Decision.{
  GoLibrary, Requests, RoutingDecision, IntelligentRouter, chat_or_text,
}
use argis_extensions.Router.Decision.Choice.{
  new_decision, domain_step, cost_step, mirt_step, choose,
}

module _ (F : Float64) (P : Providers) (G : GoLibrary F) where
  -- The loop over the frontier, with the alternatives so far.
  unfoldable pub frontier_alternatives : List (ModelScore F) → String → List String → List String
  frontier_alternatives [] selected alts = alts
  frontier_alternatives (s ∷ frontier) selected alts = frontier_alternatives frontier selected (
      if not (str_eq s.model_key selected) && ltb (length alts) 3
      then snoc alts s.model_key
      else alts)

  -- Step 7.
  unfoldable pub alternatives_step :
      List (ModelScore F) → List String → RoutingDecision F P → RoutingDecision F P
  alternatives_step frontier candidates d = record d {
    alternatives =
        if ltb 1 (length frontier)
        then frontier_alternatives frontier d.selected_model []
        else get_alternatives candidates d.selected_model (pos 3);
  }

  module _ (S : Schemas) (R : Requests S P) where
    unfoldable pub extract_prompt : S.Request → String
    extract_prompt req =
        chat_or_text G.trim_space
          (elim (S.chat_input req) [
            | none ↦ none
            | some messages ↦ some (map S.content_str messages)
          ])
          (R.text_input req)

    -- The candidates of a request, before any is preferred.
    abbrev pub candidate_models : ℕ → FeatureSet F → S.Request → IntelligentRouter F P → List String
    candidate_models elapsed features req ir =
        let task_type = classify F features in
        let domain =
          domain_step F P G elapsed ir.config.arch_router_endpoint (extract_prompt req)
            ir.arch_client in
        merge_candidates
          (get_preferred_models F task_type ∷ domain.0.0 ∷ get_fallback_models F task_type ∷ [])

    unfoldable pub route :
        ℕ
        → ℕ
        → Context
        → FeatureSet F
        → S.Request
        → IntelligentRouter F P
        → RoutingDecision F P × IntelligentRouter F P
    route now elapsed ctx features req ir =
        let task_type = classify F features in
        let prompt = extract_prompt req in
        let (domain, arch_client) =
          domain_step F P G elapsed ir.config.arch_router_endpoint prompt ir.arch_client in
        let merged = candidate_models elapsed features req ir in
        let (weighed, route_llm) =
          cost_step F P G ir.config.route_llm_enabled prompt merged ir.route_llm in
        let candidates = weighed.0 in
        let (scores, mirt_client) =
          mirt_step F P G ir.config.mirt_enabled prompt candidates ir.mirt_client in
        let (preference, tiered_learning) =
          get_preferred_model F now ctx task_type candidates ir.tiered_learning in
        let ranked =
          rank_models F G.sort ir.optimizer ir.profile_store
            (plain_request F task_type candidates) in
        let frontier =
          pareto_frontier F G.sort ir.optimizer ir.profile_store candidates task_type in
        let d = record (new_decision F P G) {
          task_type = task_type;
          reasoning = domain.1;
          confidence = weighed.1;
        } in
        (
          alternatives_step frontier candidates
              (choose F P G preference candidates scores ranked d),
          record ir {
            arch_client = arch_client;
            route_llm = route_llm;
            mirt_client = mirt_client;
            tiered_learning = tiered_learning;
          },
        )

    unfoldable pub apply_decision : S.Request → RoutingDecision F P → S.Request
    apply_decision req d = R.set_provider d.selected_provider (R.set_model d.selected_model req)

  -- The observation of `logDecisionOutcome`; `usage` is the Usage of the response's ChatResponse.
  unfoldable pub outcome : RoutingDecision F P → Option (ℤ × ℤ) → Bool → Observation F
  outcome d usage success = record {
    model_key = d.selected_model;
    provider = "";
    task_type = d.task_type;
    latency_ms = zero_float F;
    ttft_ms = zero_float F;
    input_tokens = elim usage [ none ↦ pos 0 | some tokens ↦ tokens.0 ];
    output_tokens = elim usage [ none ↦ pos 0 | some tokens ↦ tokens.1 ];
    cost_usd = d.cost_estimate;
    success = success;
    quality_score = zero_float F;
    user_satisfaction = zero_float F;
  }
