-- ===== src/Router/Decision/Unscored.antt =====
-- plugins/intelligentrouter/decision.go: the MIRT scores in the decision.
use argis_extensions.Prelude.{
  ℕ, ◌≤◌, ◌≡◌, refl, sym, ap, String, Bool, Option, List, ◌∷◌, count, subst,
}
use argis_extensions.Prelude.Assoc.{Dict}
use argis_extensions.Prelude.Float.{Float64}
use argis_extensions.Prelude.Sort.{Sorts}
use argis_extensions.Learning.Tiered.{Context}
use argis_extensions.Learning.Optimizer.{ModelScore}
use argis_extensions.Learning.Optimizer.Ranked.{scores_higher, plain_request}
use argis_extensions.Learning.Optimizer.Frontier.{pareto_frontier}
use argis_extensions.Router.Mirt.{MirtClient}
use argis_extensions.Router.Semantic.{Schemas, FeatureSet, classify}
use argis_extensions.Router.Candidates.{Providers}
use argis_extensions.Router.Decision.{GoLibrary, Requests, RoutingDecision, IntelligentRouter}
use argis_extensions.Router.Decision.Offered.{ranked_first, candidate_exists, cost_step-count}
use argis_extensions.Router.Decision.Route.{
  alternatives_step, candidate_models, extract_prompt, route,
}
use argis_extensions.Router.Decision.Choice.{choose, choose_ranked, cost_step}

module _ (F : Float64) (P : Providers) (G : GoLibrary F) where
  choose-unscored :
      (preference : String × F.Carrier) (candidates : List String) (a b : Option (Dict F.Carrier))
      (ranked others : List (ModelScore F)) (best : ModelScore F) (d : RoutingDecision F P)
      → ranked ≡ best ∷ others
      → choose F P G preference candidates a ranked d
        ≡ choose F P G preference candidates b ranked d
  unfolding choose choose_ranked
  choose-unscored preference candidates a b ranked others best d e = rw e refl

  module _ (S : Schemas) (R : Requests S P) where
    -- The candidates that step 4 hands on.
    abbrev pub weighed : ℕ → FeatureSet F → S.Request → IntelligentRouter F P → List String
    weighed elapsed features req ir =
        (cost_step F P G ir.config.route_llm_enabled (extract_prompt F P G S R req)
          (candidate_models F P G S R elapsed features req ir) ir.route_llm).0.0

    pub weighed_exists :
        (elapsed : ℕ) (features : FeatureSet F) (req : S.Request) (ir : IntelligentRouter F P)
        → (m : String) × (1 ≤ count m (weighed elapsed features req ir))
    weighed_exists elapsed features req ir =
        let (m, h) = candidate_exists F (classify F features) _ in
        (
          m,
          subst (λ n. 1 ≤ n)
              (sym (
                cost_step-count F P G ir.config.route_llm_enabled (extract_prompt F P G S R req) m _
                  ir.route_llm))
              h,
        )

    -- For a sort by the composite score, the decision on a request is the same whatever MIRT client the router
    -- has and whether or not MIRT is enabled.
    pub route-unscored :
        (now elapsed : ℕ) (ctx : Context) (features : FeatureSet F) (req : S.Request)
        (ir : IntelligentRouter F P) (client : Option (MirtClient F)) (enabled : Bool)
        → Sorts (scores_higher F) G.sort
        → (route F P G S R now elapsed ctx features req (record ir {
          mirt_client = client;
          config = record ir.config { mirt_enabled = enabled };
        })).0
          ≡ (route F P G S R now elapsed ctx features req ir).0
    unfolding route
    route-unscored now elapsed ctx features req ir client enabled ok =
        let candidates = weighed elapsed features req ir in
        let (m, h) = weighed_exists elapsed features req ir in
        let (best, others, e) =
          ranked_first F G.sort ir.optimizer ir.profile_store
            (plain_request F (classify F features) candidates) m ok h in
        ap
          (alternatives_step F P G
            (pareto_frontier F G.sort ir.optimizer ir.profile_store candidates
              (classify F features))
            candidates)
          (choose-unscored _ candidates _ _ _ others best _ e)
