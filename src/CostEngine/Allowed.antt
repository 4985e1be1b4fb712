-- ===== src/CostEngine/Allowed.antt =====
-- costengine: when an endpoint may be called, and which columns of the database play no part.
use argis_extensions.Prelude.{
  ℕ, ◌≡◌, refl, ap, ◌∙◌, ◌⊎◌, inl, inr, String, Bool, Option, List, [], ◌∷◌, str_eq, not, ◌&&◌,
  arith,
}
use argis_extensions.Prelude.Float.{Float64}
use argis_extensions.CostEngine.{
  EndpointInfo, CostRequest, CostResult, BatchCostRequest, EngineConfig, ModelEndpoint,
  ProviderAccount, ProviderAccountLimit, Queries,
}
use argis_extensions.CostEngine.Single.{
  check_quota_headroom, deny_when, prefer_when, calculate_single_cost,
}
use argis_extensions.CostEngine.Batch.{
  CostError, build_endpoint_info, with_limits, with_account, with_endpoint, calculate_cost,
  request_for, collect, rank, calculate_batch,
}

module _ (F : Float64) where
  deny_when-allowed :
      (holds : Bool) (reason : String) (r : CostResult F)
      → (deny_when F holds reason r).allowed_for_call ≡ (r.allowed_for_call && not holds)
  unfolding deny_when
  deny_when-allowed holds reason r = ground arith

  prefer_when-allowed :
      (holds : Bool) (r : CostResult F)
      → (prefer_when F holds r).allowed_for_call ≡ r.allowed_for_call
  unfolding prefer_when
  prefer_when-allowed holds r = ground arith

  -- An endpoint may be called just when its headroom is not below the hard threshold, its status is
  -- "active" and, if it is billed as scarce premium, the request asks for premium.
  pub allowed_exactly :
      (config : EngineConfig F) (info : EndpointInfo F) (req : CostRequest)
      → (calculate_single_cost F config info req).allowed_for_call ≡ (
          not (
            F.lt
              (check_quota_headroom F config info req.est_tokens_in req.est_tokens_out).0
              config.hard_quota_threshold)
          && str_eq info.status "active"
          && not (str_eq info.billing_model "scarce_premium" && not req.require_premium))
  unfolding calculate_single_cost
  allowed_exactly config info req =
      rw (prefer_when-allowed, deny_when-allowed, deny_when-allowed, deny_when-allowed)
        (ground arith)

-- A query with its row changed.
abbrev pub on_row : {E A : Type 0} → (A → A) → E ⊎ A → E ⊎ A
on_row change (inl e) = inl e
on_row change (inr row) = inr (change row)

module _ {F : Float64} {E : Type 0} (config : EngineConfig F) (q : Queries F E)
    (active : ProviderAccount F → Option Bool) (cooldown : ModelEndpoint F → Option ℕ) where
  abbrev pub marked_account : ProviderAccount F → ProviderAccount F
  marked_account acc = record acc { is_active = active acc }

  abbrev pub marked_endpoint : ModelEndpoint F → ModelEndpoint F
  marked_endpoint ep = record ep { cooldown_until = cooldown ep }

  -- The database with other accounts active and other endpoints in cooldown.
  abbrev pub marked : Queries F E
  marked = record q {
    get_model_endpoint = λ id. on_row marked_endpoint (q.get_model_endpoint id);
    get_provider_account = λ id. on_row marked_account (q.get_provider_account id);
  }

  same_limits :
      (req : CostRequest) (ep : ModelEndpoint F) (acc : ProviderAccount F)
      (found : E ⊎ List (ProviderAccountLimit F))
      → with_limits F config marked req (marked_endpoint ep) (marked_account acc) found
        ≡ with_limits F config q req ep acc found
  unfolding with_limits build_endpoint_info
  same_limits req ep acc (inl e) = refl
  same_limits req ep acc (inr limits) = refl

  same_account :
      (req : CostRequest) (ep : ModelEndpoint F) (found : E ⊎ ProviderAccount F)
      → with_account F config marked req (marked_endpoint ep) (on_row marked_account found)
        ≡ with_account F config q req ep found
  unfolding with_account
  same_account req ep (inl e) = refl
  same_account req ep (inr acc) = same_limits req ep acc (q.get_account_limits ep.account_id)

  same_endpoint :
      (req : CostRequest) (found : E ⊎ ModelEndpoint F)
      → with_endpoint F config marked req (on_row marked_endpoint found)
        ≡ with_endpoint F config q req found
  unfolding with_endpoint
  same_endpoint req (inl e) = refl
  same_endpoint req (inr ep) = same_account req ep (q.get_provider_account ep.account_id)

  same_cost :
      (req : CostRequest) → calculate_cost F config marked req ≡ calculate_cost F config q req
  unfolding calculate_cost
  same_cost req = same_endpoint req (q.get_model_endpoint req.endpoint_id)

  collected : CostError E ⊎ CostResult F → List (CostResult F) → List (CostResult F)
  collected r others = elim r [ inl failure ↦ others | inr result ↦ result ∷ others ]

  same_collected :
      (req : BatchCostRequest) (ids : List String)
      → collect F config marked req ids ≡ collect F config q req ids
  unfolding collect collected
  same_collected req [] = refl
  same_collected req (id ∷ ids) =
      ap (λ (r : CostError E ⊎ CostResult F). collected r (collect F config marked req ids))
        (same_cost (request_for F config q req id))
      ∙ ap (collected (calculate_cost F config q (request_for F config q req id)))
          (same_collected req ids)

  -- Which accounts are active and which endpoints are in cooldown changes nothing: CalculateCost and
  -- CalculateBatchCost answer the same, errors included, for any other values of these two columns.
  pub activity_ignored :
      (sort : List (CostResult F) → List (CostResult F)) (req : CostRequest)
      (batch : BatchCostRequest)
      → (calculate_cost F config marked req ≡ calculate_cost F config q req)
        × (calculate_batch F sort config marked batch ≡ calculate_batch F sort config q batch)
  unfolding calculate_batch
  activity_ignored sort req batch =
      (same_cost req, ap (rank F sort batch.max_results) (same_collected batch batch.candidates))
