-- ===== src/CostEngine/Batch.antt =====
-- costengine/engine.go: one endpoint by its id, and a batch of them ranked. `sort.Slice` is the
-- parameter `sort`, for the order `goes_before`.
use argis_extensions.Prelude.{
  zero, suc, String, Bool, true, false, List, [], ◌∷◌, length, take, map, filter, get_or, ◌⊎◌, inl,
  inr, if◌then◌else◌, not,
}
use argis_extensions.Prelude.Int.{ℤ, pos, negsuc, ltb_ℤ}
use argis_extensions.Prelude.Float.{Float64}
use argis_extensions.CostEngine.{
  AccountLimit, EndpointInfo, CostRequest, CostResult, BatchCostRequest, BatchCostResult,
  EngineConfig, ModelEndpoint, ProviderAccount, ProviderAccountLimit, Queries,
}
use argis_extensions.CostEngine.Single.{calculate_single_cost}

-- The zero UUID.
abbrev pub nil_id : String
nil_id = "00000000-0000-0000-0000-000000000000"

-- The query that failed, and its error.
pub data CostError (E : Type 0) : Type 0 where
  get_endpoint : E → CostError E
  get_account : E → CostError E
  get_limits : E → CostError E

-- `a != b` on Booleans.
unfoldable pub differ : Bool → Bool → Bool
differ true b = not b
differ false b = b

module _ (F : Float64) where
  unfoldable pub build_limit : ProviderAccountLimit F → AccountLimit F
  build_limit l = record {
    limit_type = l.limit_type;
    window_seconds = l.window_seconds;
    limit_value = get_or (F.of_int (pos 0)) l.limit_value;
    is_hard = get_or false l.is_hard;
    cooldown_seconds = get_or (pos 0) l.cooldown_seconds;
  }

  unfoldable pub build_endpoint_info :
      ModelEndpoint F → ProviderAccount F → List (ProviderAccountLimit F) → EndpointInfo F
  build_endpoint_info ep acc lims = record {
    endpoint_id = ep.id;
    account_id = ep.account_id;
    model_id = ep.model_id;
    model_name = "";
    account_name = acc.name;
    billing_model = acc.billing_model;
    limits = map build_limit lims;
    pricing_basis = get_or "" ep.pricing_basis;
    unit_price_input = get_or (F.of_int (pos 0)) ep.unit_price_input;
    unit_price_output = get_or (F.of_int (pos 0)) ep.unit_price_output;
    latency_estimate_ms = get_or (pos 0) ep.latency_estimate_ms;
    throughput_tps = F.of_int (pos 0);
    priority = get_or (pos 0) ep.priority;
    quality_tier = get_or "" ep.quality_tier;
    status = get_or "" ep.status;
    is_healthy = false;
  }

  unfoldable pub goes_before : CostResult F → CostResult F → Bool
  goes_before a b =
      if differ a.allowed_for_call b.allowed_for_call
      then a.allowed_for_call
      else if differ a.is_preferred b.is_preferred
      then a.is_preferred
      else if not (F.eq a.expected_cost_usd b.expected_cost_usd)
      then F.lt a.expected_cost_usd b.expected_cost_usd
      else ltb_ℤ a.expected_latency_ms b.expected_latency_ms

  module _ {E : Type 0} (config : EngineConfig F) (q : Queries F E) where
    unfoldable pub with_limits :
        CostRequest
        → ModelEndpoint F
        → ProviderAccount F
        → E ⊎ List (ProviderAccountLimit F)
        → CostError E ⊎ CostResult F
    with_limits req ep acc (inl e) = inl (get_limits e)
    with_limits req ep acc (inr lims) =
        inr (calculate_single_cost F config (build_endpoint_info ep acc lims) req)

    unfoldable pub with_account :
        CostRequest → ModelEndpoint F → E ⊎ ProviderAccount F → CostError E ⊎ CostResult F
    unfolding with_limits
    with_account req ep (inl e) = inl (get_account e)
    with_account req ep (inr acc) = with_limits req ep acc (q.get_account_limits ep.account_id)

    unfoldable pub with_endpoint : CostRequest → E ⊎ ModelEndpoint F → CostError E ⊎ CostResult F
    unfolding with_account
    with_endpoint req (inl e) = inl (get_endpoint e)
    with_endpoint req (inr ep) = with_account req ep (q.get_provider_account ep.account_id)

    unfoldable pub calculate_cost : CostRequest → CostError E ⊎ CostResult F
    unfolding with_endpoint
    calculate_cost req = with_endpoint req (q.get_model_endpoint req.endpoint_id)

    abbrev pub request_for : BatchCostRequest → String → CostRequest
    request_for req id = record {
      endpoint_id = id;
      est_tokens_in = req.est_tokens_in;
      est_tokens_out = req.est_tokens_out;
      role = req.role;
      risk_level = req.risk_level;
      task_type = req.task_type;
      require_premium = req.require_premium;
    }

    -- The loop over the candidates, which skips those that fail.
    unfoldable pub collect : BatchCostRequest → List String → List (CostResult F)
    collect req [] = []
    collect req (id ∷ ids) =
        let others = collect req ids in
        elim (calculate_cost (request_for req id)) [
          | inl failure ↦ others
          | inr result ↦ result ∷ others
        ]

  unfoldable pub limit_results : ℤ → List (CostResult F) → List (CostResult F)
  limit_results (pos zero) results = results
  limit_results (pos (suc n)) results =
      if ltb_ℤ (pos (suc n)) (pos (length results)) then take (suc n) results else results
  limit_results (negsuc n) results = results

  abbrev pub is_allowed : CostResult F → Bool
  is_allowed r = r.allowed_for_call

  abbrev pub id_of : CostResult F → String
  id_of r = r.endpoint_id

  -- The response for the results and those of them that are allowed.
  unfoldable pub recommend : List (CostResult F) → List (CostResult F) → BatchCostResult F
  recommend results [] = record {
    results = results;
    recommended_id = nil_id;
    fallback_ids = [];
    all_denied = true;
    deny_reason = "all endpoints denied due to quota or policy";
  }
  recommend results (best ∷ others) = record {
    results = results;
    recommended_id = best.endpoint_id;
    fallback_ids = map id_of (take 2 others);
    all_denied = false;
    deny_reason = "";
  }

  unfoldable pub rank :
      (List (CostResult F) → List (CostResult F)) → ℤ → List (CostResult F) → BatchCostResult F
  rank sort max [] = record {
    results = [];
    recommended_id = nil_id;
    fallback_ids = [];
    all_denied = true;
    deny_reason = "no valid endpoints found";
  }
  rank sort max (r ∷ rs) =
      let results = limit_results max (sort (r ∷ rs)) in
      recommend results (filter is_allowed results)

  unfoldable pub calculate_batch :
      {E : Type 0}
      → (List (CostResult F) → List (CostResult F))
      → EngineConfig F
      → Queries F E
      → BatchCostRequest
      → BatchCostResult F
  calculate_batch sort config q req =
      rank sort req.max_results (collect config q req req.candidates)
