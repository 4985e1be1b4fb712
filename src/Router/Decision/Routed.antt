-- ===== src/Router/Decision/Routed.antt =====
-- plugins/intelligentrouter/decision.go: the selected model and its alternatives.
use argis_extensions.Prelude.{
  ℕ, ◌≤◌, ◌≡◌, ◌⊎◌, String, true, Option, List, ◌∷◌, count, min, str_eq, eq_refl, arith,
}
use argis_extensions.Prelude.Assoc.{Dict}
use argis_extensions.Prelude.Float.{Float64}
use argis_extensions.Prelude.Sort.{count_if, Sorts}
use argis_extensions.Learning.{zero_float}
use argis_extensions.Learning.Tiered.{Context}
use argis_extensions.Learning.Tiered.Prefer.{contains}
use argis_extensions.Learning.Tiered.Answers.{preferred_candidate}
use argis_extensions.Learning.Profiles.Keyed.{KeysAgree}
use argis_extensions.Learning.Profiles.Store.{ProfileStore}
use argis_extensions.Learning.Optimizer.{ThreePillarOptimizer, ModelScore}
use argis_extensions.Learning.Optimizer.Ranked.{scores_higher, plain_request, rank_models}
use argis_extensions.Learning.Optimizer.Frontier.{pareto_frontier, undominated}
use argis_extensions.Router.Semantic.{Schemas, FeatureSet, classify}
use argis_extensions.Router.Candidates.{Providers, merge_candidates}
use argis_extensions.Router.Decision.{GoLibrary, Requests, RoutingDecision, IntelligentRouter}
use argis_extensions.Router.Decision.Offered.{count-keys, ranked_key, ranked_first, cost_step-count}
use argis_extensions.Router.Decision.Route.{
  alternatives_step, candidate_models, extract_prompt, route,
}
use argis_extensions.Router.Decision.Choice.{choose}
use argis_extensions.Router.Decision.Unscored.{weighed, weighed_exists}
use argis_extensions.Router.Decision.Steps.{
  AreAlternatives, keys, filter-keys, among_merged, choose-selected, alternatives_step_lem,
}

module _ (F : Float64) (P : Providers) (G : GoLibrary F) where
  decided :
      (lists : List (List String)) (preference : String × F.Carrier) (candidates : List String)
      (scores : Option (Dict F.Carrier)) (ranked front others : List (ModelScore F))
      (best : ModelScore F) (d : RoutingDecision F P)
      → ranked ≡ best ∷ others
      → ((m : String) → count m candidates ≡ count m (merge_candidates lists))
      → (preference ≡ ("", zero_float F)) ⊎ (contains F candidates preference.0 ≡ true)
      → 1 ≤ count best.model_key candidates
      → ((m : String) → count m (keys F P G front) ≤ count m candidates)
      → let after =
          alternatives_step F P G front candidates
            (choose F P G preference candidates scores ranked d) in
        (count after.selected_model (merge_candidates lists) ≡ 1)
        × AreAlternatives
            (λ m. min 1 (count m (merge_candidates lists)))
            after.selected_model
            after.alternatives
  unfolding alternatives_step
  decided lists preference candidates scores ranked front others best d e same preferred known few =
      among_merged lists candidates _ _ same
        (choose-selected F P G preference candidates scores ranked others best d e preferred known)
        (alternatives_step_lem F P G front candidates
          (choose F P G preference candidates scores ranked d) few)

  rank-frontier :
      (o : ThreePillarOptimizer F) (store : ProfileStore F) (candidates : List String)
      (task_type model : String)
      → Sorts (scores_higher F) G.sort
      → KeysAgree F store
      → count model (keys F P G (pareto_frontier F G.sort o store candidates task_type))
        ≤ count model candidates
  unfolding pareto_frontier
  rank-frontier o store candidates task_type model ok agree =
      let req = plain_request F task_type candidates in
      let ranked = rank_models F G.sort o store req in
      omega (
        arith,
        filter-keys F P G (undominated F ranked) ranked model,
        count-keys F model ranked,
        ranked_key F G.sort o store req ok agree model,
      )

  head-count :
      (ranked others : List (ModelScore F)) (best : ModelScore F)
      → ranked ≡ best ∷ others
      → 1 ≤ count_if (λ s. str_eq s.model_key best.model_key) ranked
  head-count ranked others best e = rw e (ground (arith, eq_refl best.model_key))

  module _ (S : Schemas) (R : Requests S P) where
    -- For a sort by the composite score and a store with each profile under its own key, the model that a
    -- request is routed to is one of its candidates: those that the class prefers, those of the
    -- domain, when that is asked for, and those that the class falls back to. Its alternatives are at
    -- most three other candidates, each named once.
    pub route-IsOffered :
        (now elapsed : ℕ) (ctx : Context) (features : FeatureSet F) (req : S.Request)
        (ir : IntelligentRouter F P)
        → Sorts (scores_higher F) G.sort
        → KeysAgree F ir.profile_store
        → (count
              (route F P G S R now elapsed ctx features req ir).0.selected_model
              (candidate_models F P G S R elapsed features req ir)
            ≡ 1)
          × AreAlternatives
              (λ m. min 1 (count m (candidate_models F P G S R elapsed features req ir)))
              (route F P G S R now elapsed ctx features req ir).0.selected_model
              (route F P G S R now elapsed ctx features req ir).0.alternatives
    unfolding route
    route-IsOffered now elapsed ctx features req ir ok agree =
        let candidates = weighed F P G S R elapsed features req ir in
        let task_type = classify F features in
        let (m, h) = weighed_exists F P G S R elapsed features req ir in
        let rank_req = plain_request F task_type candidates in
        let (best, others, e) =
          ranked_first F G.sort ir.optimizer ir.profile_store rank_req m ok h in
        let merged = candidate_models F P G S R elapsed features req ir in
        let best_known : 1 ≤ count best.model_key candidates = omega (
          arith,
          head-count _ others best e,
          ranked_key F G.sort ir.optimizer ir.profile_store rank_req ok agree best.model_key,
        ) in
        decided _ _ candidates _ _ _ others best _ e
          (λ model.
            cost_step-count F P G ir.config.route_llm_enabled (extract_prompt F P G S R req) model
              merged ir.route_llm)
          (preferred_candidate F now ctx task_type candidates ir.tiered_learning) best_known
          (λ m. rank-frontier ir.optimizer ir.profile_store candidates task_type m ok agree)
