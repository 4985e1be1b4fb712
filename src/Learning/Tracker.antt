-- ===== src/Learning/Tracker.antt =====
-- plugins/learning/tracker.go: the measurements of each model and their statistics. The maps hold
-- pointers that only the tracker shares. A UUID is its text, a duration its nanoseconds.
pub mod Window
mod Tests
use argis_extensions.Prelude.{
  ℕ, String, Bool, true, false, Option, none, some, List, [], ◌∷◌, snoc, length, drop,
  if◌then◌else◌, get_or,
}
use argis_extensions.Prelude.Int.{ℤ, pos, inc, ltb_ℤ, leb_ℤ}
use argis_extensions.Prelude.Assoc.{Dict, lookup, insert}
use argis_extensions.Prelude.Float.{Float64}
use argis_extensions.Learning.{zero_float, one_float}

pub record PerformanceMetric (F : Float64) : Type 0 where
  pub id : String
  pub model_id : String
  pub model_name : String
  pub provider : String
  pub task_type : String
  pub latency : ℤ
  pub input_tokens : ℤ
  pub output_tokens : ℤ
  pub cost_estimate : F.Carrier
  pub success : Bool
  pub quality_score : F.Carrier
  pub timestamp : ℕ

pub record PerformanceStats (F : Float64) : Type 0 where
  pub model_id : String
  pub model_name : String
  pub task_type : String
  pub total_requests : ℤ
  pub successful_requests : ℤ
  pub failed_requests : ℤ
  pub success_rate : F.Carrier
  pub avg_latency : ℤ
  pub avg_input_tokens : F.Carrier
  pub avg_output_tokens : F.Carrier
  pub avg_quality_score : F.Carrier
  pub total_cost : F.Carrier
  pub last_updated : ℕ

pub record PerformanceTracker (F : Float64) : Type 0 where
  pub metrics : Dict (List (PerformanceMetric F))
  pub stats : Dict (PerformanceStats F)
  pub max_metrics : ℤ

module _ (F : Float64) where
  unfoldable pub new_performance_tracker : ℤ → PerformanceTracker F
  new_performance_tracker max_metrics = record {
    metrics = [];
    stats = [];
    max_metrics = if leb_ℤ max_metrics (pos 0) then pos 10_000 else max_metrics;
  }

  abbrev pub new_stats : PerformanceMetric F → PerformanceStats F
  new_stats metric = record {
    model_id = metric.model_id;
    model_name = metric.model_name;
    task_type = metric.task_type;
    total_requests = pos 0;
    successful_requests = pos 0;
    failed_requests = pos 0;
    success_rate = zero_float F;
    avg_latency = pos 0;
    avg_input_tokens = zero_float F;
    avg_output_tokens = zero_float F;
    avg_quality_score = zero_float F;
    total_cost = zero_float F;
    last_updated = 0;
  }

  -- (average * (n - 1) + value) / n.
  unfoldable pub running_average : F.Carrier → F.Carrier → F.Carrier → F.Carrier
  running_average average value n = F.div (F.add (F.mul average (F.sub n (one_float F))) value) n

  unfoldable pub add_to_stats : ℕ → PerformanceMetric F → PerformanceStats F → PerformanceStats F
  add_to_stats now metric s =
      let total = inc s.total_requests in
      let successful =
        if metric.success then inc s.successful_requests else s.successful_requests in
      let failed = if metric.success then s.failed_requests else inc s.failed_requests in
      let n = F.of_int total in
      record s {
        total_requests = total;
        successful_requests = successful;
        failed_requests = failed;
        success_rate = F.div (F.of_int successful) n;
        avg_latency =
            F.to_int (running_average (F.of_int s.avg_latency) (F.of_int metric.latency) n);
        avg_input_tokens = running_average s.avg_input_tokens (F.of_int metric.input_tokens) n;
        avg_output_tokens = running_average s.avg_output_tokens (F.of_int metric.output_tokens) n;
        avg_quality_score = running_average s.avg_quality_score metric.quality_score n;
        total_cost = F.add s.total_cost metric.cost_estimate;
        last_updated = now;
      }

  unfoldable pub update_stats :
      ℕ → PerformanceMetric F → Dict (PerformanceStats F) → Dict (PerformanceStats F)
  update_stats now metric stats =
      insert metric.model_id
        (add_to_stats now metric (get_or (new_stats metric) (lookup metric.model_id stats))) stats

  -- The measurements of a model with one more, without the oldest if there are too many.
  unfoldable pub trimmed : ℤ → List (PerformanceMetric F) → List (PerformanceMetric F)
  trimmed max_metrics l = if ltb_ℤ max_metrics (pos (length l)) then drop 1 l else l

  -- `id` is the UUID of the measurement and `now` the time of the call.
  unfoldable pub record_metric :
      String → ℕ → PerformanceMetric F → PerformanceTracker F → PerformanceTracker F
  record_metric id now metric pt =
      let metric = record metric { id = id; timestamp = now } in
      record pt {
        metrics =
            insert metric.model_id
              (trimmed pt.max_metrics (snoc (get_or [] (lookup metric.model_id pt.metrics)) metric))
              pt.metrics;
        stats = update_stats now metric pt.stats;
      }

  unfoldable pub get_stats_of : String → PerformanceTracker F → Option (PerformanceStats F)
  get_stats_of model_id pt = lookup model_id pt.stats

  unfoldable pub clear : PerformanceTracker F → PerformanceTracker F
  clear pt = record pt { metrics = []; stats = [] }
