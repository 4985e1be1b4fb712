-- ===== src/CostEngine/Single.antt =====
-- costengine/calculator.go: the cost and the quota of one endpoint. The usage that the source reads
-- is the constant 0, as there.
use argis_extensions.Prelude.{
  String, ◌<>◌, Bool, true, false, List, [], ◌∷◌, str_eq, if◌then◌else◌, not, ◌&&◌, ◌||◌,
}
use argis_extensions.Prelude.Int.{ℤ, pos, add_int64}
use argis_extensions.Prelude.Float.{Float64}
use argis_extensions.CostEngine.{AccountLimit, EndpointInfo, CostRequest, CostResult, EngineConfig}

module _ (F : Float64) where
  abbrev pub default_engine_config : EngineConfig F
  default_engine_config = record {
    default_input_cost = F.ratio 1 1000;
    default_output_cost = F.ratio 2 1000;
    soft_quota_threshold = F.ratio 2 10;
    hard_quota_threshold = F.ratio 5 100;
    scarce_endpoint_multiplier = F.of_int (pos 10);
    prefer_underused_threshold = F.ratio 3 10;
  }

  abbrev pub num : ℤ → F.Carrier
  num n = F.of_int n

  unfoldable pub or_default : F.Carrier → F.Carrier → F.Carrier
  or_default price other = if F.eq price (num (pos 0)) then other else price

  -- Prices for a thousand tokens in and out.
  unfoldable pub per_thousand : F.Carrier → F.Carrier → ℤ → ℤ → F.Carrier
  per_thousand price_in price_out tokens_in tokens_out =
      F.add (F.div (F.mul (num tokens_in) price_in) (num (pos 1000)))
        (F.div (F.mul (num tokens_out) price_out) (num (pos 1000)))

  unfoldable pub calculate_expected_cost : EngineConfig F → EndpointInfo F → ℤ → ℤ → F.Carrier
  calculate_expected_cost config info tokens_in tokens_out =
      let model = info.billing_model in
      let standard =
        per_thousand config.default_input_cost config.default_output_cost tokens_in tokens_out in
      let total = num (add_int64 tokens_in tokens_out) in
      if str_eq model "per_token"
      then per_thousand (or_default info.unit_price_input config.default_input_cost)
          (or_default info.unit_price_output config.default_output_cost) tokens_in tokens_out
      else if str_eq model "per_request"
      then info.unit_price_input
      else if str_eq model "credits"
      then F.div (F.div (F.mul info.unit_price_input total) (num (pos 1000))) (num (pos 100))
      else if str_eq model "subscription_bucket"
      then F.div (F.mul (F.ratio 1 10_000) total) (num (pos 1000))
      else if str_eq model "scarce_premium"
      then F.mul standard config.scarce_endpoint_multiplier
      else standard

  -- What a request uses of a limit.
  unfoldable pub request_usage : String → ℤ → ℤ → F.Carrier
  request_usage limit_type tokens_in tokens_out =
      let total = num (add_int64 tokens_in tokens_out) in
      if str_eq limit_type "tokens_per_min"
        || str_eq limit_type "tokens_per_hour"
        || str_eq limit_type "tokens_per_day"
      then total
      else if str_eq limit_type "requests_per_min" || str_eq limit_type "requests_per_day"
      then num (pos 1)
      else if str_eq limit_type "credits_per_month"
      then F.div total (num (pos 1000))
      else num (pos 0)

  unfoldable pub check_single_limit : EngineConfig F → AccountLimit F → ℤ → ℤ → F.Carrier × String
  check_single_limit config limit tokens_in tokens_out =
      let current_usage = num (pos 0) in
      let predicted = F.add current_usage (request_usage limit.limit_type tokens_in tokens_out) in
      let headroom = F.sub (num (pos 1)) (F.div predicted limit.limit_value) in
      let headroom = if F.lt headroom (num (pos 0)) then num (pos 0) else headroom in
      (
        headroom,
        if F.lt headroom config.hard_quota_threshold
            then limit.limit_type <> " limit exceeded"
            else "",
      )

  -- The loop over the limits, with the least headroom so far and its reason.
  unfoldable pub least_headroom :
      EngineConfig F → ℤ → ℤ → List (AccountLimit F) → F.Carrier × String → F.Carrier × String
  least_headroom config tokens_in tokens_out [] least = least
  least_headroom config tokens_in tokens_out (limit ∷ limits) least =
      let found = check_single_limit config limit tokens_in tokens_out in
      least_headroom config tokens_in tokens_out limits
        (if F.lt found.0 least.0 then found else least)

  unfoldable pub check_quota_headroom : EngineConfig F → EndpointInfo F → ℤ → ℤ → F.Carrier × String
  check_quota_headroom config info tokens_in tokens_out =
      least_headroom config tokens_in tokens_out info.limits (num (pos 1), "")

  -- A check that denies the call for a reason.
  unfoldable pub deny_when : Bool → String → CostResult F → CostResult F
  deny_when holds reason r =
      if holds then record r { allowed_for_call = false; deny_reason = reason } else r

  unfoldable pub prefer_when : Bool → CostResult F → CostResult F
  prefer_when holds r =
      if holds
      then record r { is_preferred = true; preference_reason = "subscription bucket underused" }
      else r

  unfoldable pub calculate_single_cost :
      EngineConfig F → EndpointInfo F → CostRequest → CostResult F
  calculate_single_cost config info req =
      let quota = check_quota_headroom config info req.est_tokens_in req.est_tokens_out in
      let result : CostResult F = record {
        endpoint_id = info.endpoint_id;
        endpoint_info = info;
        expected_cost_usd =
            calculate_expected_cost config info req.est_tokens_in req.est_tokens_out;
        expected_latency_ms = info.latency_estimate_ms;
        quota_headroom = quota.0;
        allowed_for_call = true;
        deny_reason = "";
        is_preferred = false;
        preference_reason = "";
      } in
      let result = deny_when (F.lt quota.0 config.hard_quota_threshold) quota.1 result in
      let result =
        deny_when (not (str_eq info.status "active")) ("endpoint not active: " <> info.status)
          result in
      let result =
        deny_when (str_eq info.billing_model "scarce_premium" && not req.require_premium)
          "scarce_premium endpoint requires explicit request" result in
      prefer_when
        (str_eq info.billing_model "subscription_bucket"
          && F.lt (F.sub (num (pos 1)) config.prefer_underused_threshold) quota.0)
        result
