-- ===== src/Learning/Tracker/Tests.antt =====
-- plugins/learning/tracker.go: three measurements in a window of two.
use argis_extensions.Prelude.{ℕ, ◌≡◌, String, true, List, [], ◌∷◌, arith}
use argis_extensions.Prelude.Int.{pos}
use argis_extensions.Prelude.Float.{micros}
use argis_extensions.Learning.Tracker.{new_performance_tracker}
use argis_extensions.Learning.Tracker.Window.{
  Measured, record_run, stamped_of, last_items, stored, window_kept,
}

abbrev measured : String → String → ℕ → Measured micros
measured id model now = record {
  id = id;
  now = now;
  metric = record {
    id = "";
    model_id = model;
    model_name = "gpt-4";
    provider = "openai";
    task_type = "coding";
    latency = pos 900_000_000;
    input_tokens = pos 400;
    output_tokens = pos 600;
    cost_estimate = 20_000;
    success = true;
    quality_score = 800_000;
    timestamp = 0;
  };
}

abbrev measurements : List (Measured micros)
measurements =
    measured "a" "m" 1 ∷ measured "b" "other" 2 ∷ measured "c" "m" 3 ∷ measured "d" "m" 4 ∷ []

window_kept_example :
    stored micros "m" (record_run micros measurements (new_performance_tracker micros (pos 2)))
    ≡ last_items micros 2 (stamped_of micros "m" measurements)
window_kept_example = window_kept micros measurements "m" 2 (omega arith)
