-- ===== src/CostEngine/Tests.antt =====
-- costengine: a database with two endpoints, one account that is billed per token and one without
-- premium.
use argis_extensions.Prelude.{
  ◌≡◌, String, inl, inr, true, false, none, some, List, [], ◌∷◌, str_eq, if◌then◌else◌,
}
use argis_extensions.Prelude.Int.{pos}
use argis_extensions.Prelude.Float.{micros}
use argis_extensions.Prelude.Sort.Insertion.{insertion_sort}
use argis_extensions.CostEngine.{
  CostRequest, CostResult, BatchCostRequest, ModelEndpoint, ProviderAccount, Queries,
}
use argis_extensions.CostEngine.Single.{default_engine_config}
use argis_extensions.CostEngine.Batch.{goes_before, calculate_cost, calculate_batch}
use argis_extensions.CostEngine.Allowed.{marked, activity_ignored}

abbrev endpoint : String → ModelEndpoint micros
endpoint id = record {
  id = id;
  account_id = "account";
  model_id = "model";
  transport = "http";
  upstream_route = none;
  base_url = none;
  pricing_basis = none;
  unit_price_input = some (if str_eq id "cheap" then 1_000 else 9_000);
  unit_price_output = none;
  latency_estimate_ms = some (pos 200);
  throughput_tps = none;
  priority = none;
  quality_tier = none;
  status = some "active";
  cooldown_until = none;
  created_at = none;
  updated_at = none;
}

abbrev per_token_account : ProviderAccount micros
per_token_account = record {
  id = "account";
  name = "team";
  backend_type = "openai";
  billing_model = "per_token";
  base_currency = none;
  subscription_fee_monthly = none;
  is_active = some false;
  notes = none;
  created_at = none;
  updated_at = none;
}

abbrev database : Queries micros String
database = record {
  get_model_endpoint = λ id. if str_eq id "gone" then inl "no rows" else inr (endpoint id);
  get_provider_account = λ id. inr per_token_account;
  get_account_limits = λ id. inr [];
}

abbrev question : CostRequest
question = record {
  endpoint_id = "cheap";
  est_tokens_in = pos 1000;
  est_tokens_out = pos 500;
  role = "";
  risk_level = "";
  task_type = "";
  require_premium = false;
}

abbrev by_rank : List (CostResult micros) → List (CostResult micros)
by_rank = insertion_sort (goes_before micros)

abbrev batch : BatchCostRequest
batch = record {
  candidates = "dear" ∷ "gone" ∷ "cheap" ∷ [];
  est_tokens_in = pos 1000;
  est_tokens_out = pos 500;
  role = "";
  risk_level = "";
  task_type = "";
  require_premium = false;
  max_results = pos 1;
}

-- The same database with its account active and each endpoint in cooldown for ever.
abbrev reactivated : Queries micros String
reactivated =
    marked (default_engine_config micros) database (λ acc. some true) (λ ep. some 99_999_999_999)

activity_ignored_example :
    (calculate_cost micros (default_engine_config micros) reactivated question
      ≡ calculate_cost micros (default_engine_config micros) database question)
    × (calculate_batch micros by_rank (default_engine_config micros) reactivated batch
        ≡ calculate_batch micros by_rank (default_engine_config micros) database batch)
activity_ignored_example =
    activity_ignored (default_engine_config micros) database (λ acc. some true)
      (λ ep. some 99_999_999_999) by_rank question batch
