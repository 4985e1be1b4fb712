-- ===== src/Learning/Tracker/Window.antt =====
-- plugins/learning/tracker.go: what the tracker holds after a run of measurements.
use argis_extensions.Prelude.{
  ℕ, zero, suc, ◌-◌, ◌≤◌, ◌≡◌, refl, sym, ap, ◌∙◌, inl, inr, String, true, false, List, [], ◌∷◌,
  ◌++◌, snoc, length, length-append, length-drop, drop, str_eq, eq_iff, append_nil, append_assoc,
  if◌then◌else◌, get_or, Bool-cases, arith, ltb, ltb→lt,
}
use argis_extensions.Prelude.Int.{pos, ltb_ℤ}
use argis_extensions.Prelude.Assoc.{lookup, lookup-insert}
use argis_extensions.Prelude.Float.{Float64}
use argis_extensions.Learning.Tracker.{
  PerformanceMetric, PerformanceTracker, new_performance_tracker, trimmed, record_metric,
}

-- A measurement with the UUID and the time that recording it draws.
pub record Measured (F : Float64) : Type 0 where
  pub id : String
  pub now : ℕ
  pub metric : PerformanceMetric F

module _ (F : Float64) where
  abbrev pub record_run : List (Measured F) → PerformanceTracker F → PerformanceTracker F
  record_run [] pt = pt
  record_run (r ∷ run) pt = record_run run (record_metric F r.id r.now r.metric pt)

  -- The measurements of a model in a run, as they are kept.
  abbrev pub stamped_of : String → List (Measured F) → List (PerformanceMetric F)
  stamped_of model_id [] = []
  stamped_of model_id (r ∷ run) =
      let rest = stamped_of model_id run in
      if str_eq r.metric.model_id model_id
      then record r.metric { id = r.id; timestamp = r.now } ∷ rest
      else rest

  -- The last so many items of a list.
  abbrev pub last_items : ℕ → List (PerformanceMetric F) → List (PerformanceMetric F)
  last_items n l = drop (length l - n) l

  drop-snoc :
      (k : ℕ) (l : List (PerformanceMetric F)) (m : PerformanceMetric F)
      → k ≤ length l
      → drop k (snoc l m) ≡ snoc (drop k l) m
  drop-snoc zero l m h = refl
  drop-snoc (suc k) [] m h = absurd (omega (arith, h))
  drop-snoc (suc k) (x ∷ l) m h = drop-snoc k l m (omega (arith, h))

  drop-drop : (k : ℕ) (l : List (PerformanceMetric F)) → drop 1 (drop k l) ≡ drop (suc k) l
  drop-drop zero l = refl
  drop-drop (suc k) [] = refl
  drop-drop (suc k) (x ∷ l) = drop-drop k l

  trimmed-last :
      (n : ℕ) (l : List (PerformanceMetric F)) (m : PerformanceMetric F)
      → 1 ≤ n
      → trimmed F (pos n) (snoc (last_items n l) m) ≡ last_items n (snoc l m)
  unfolding trimmed
  trimmed-last n l m h = elim (Bool-cases (ltb (length l) n)) [
    | inl few ↦
        let short = ltb→lt (length l) n few in
        let none_over : length l - n ≡ 0 = omega (arith, short) in
        let none_after : length (snoc l m) - n ≡ 0 =
          omega (arith, short, length-append l (m ∷ [])) in
        let fits : ltb_ℤ (pos n) (pos (length (snoc l m))) ≡ false =
          ground (arith, short, length-append l (m ∷ [])) in
        rw (none_over, none_after, fits) refl
    | inr many ↦
        let k = length l - n in
        let long : n ≤ length l = ground (many, arith) in
        let moved = drop-snoc k l m (omega arith) in
        let over : ltb_ℤ (pos n) (pos (length (snoc (drop k l) m))) ≡ true =
          ground (arith, long, length-append (drop k l) (m ∷ []), length-drop k l) in
        let next : length (snoc l m) - n ≡ suc k = omega (arith, long, length-append l (m ∷ [])) in
        rw (over, next) (ap (drop 1) (sym moved) ∙ drop-drop k (snoc l m))
  ]

  abbrev pub stored : String → PerformanceTracker F → List (PerformanceMetric F)
  stored model_id pt = get_or [] (lookup model_id pt.metrics)

  record_metric-stored :
      (r : Measured F) (model_id : String) (pt : PerformanceTracker F) (n : ℕ)
      (l : List (PerformanceMetric F))
      → pt.max_metrics ≡ pos n
      → 1 ≤ n
      → stored model_id pt ≡ last_items n l
      → stored model_id (record_metric F r.id r.now r.metric pt)
        ≡ last_items n (l ++ stamped_of model_id (r ∷ []))
  unfolding record_metric
  record_metric-stored r model_id pt n l limit some_room h =
      let m = record r.metric { id = r.id; timestamp = r.now } in
      ap (get_or []) (lookup-insert r.metric.model_id model_id _ pt.metrics)
      ∙ elim (Bool-cases (str_eq r.metric.model_id model_id)) [
        | inl e ↦
            let same = (eq_iff r.metric.model_id model_id).0 e in
            rw (e, limit)
              (ap (λ k. trimmed F (pos n) (snoc (stored k pt) m)) same
                ∙ ap (λ known. trimmed F (pos n) (snoc known m)) h
                ∙ trimmed-last n l m some_room)
        | inr e ↦ rw (e, append_nil l) h
      ]

  stamped_of-cons :
      (model_id : String) (r : Measured F) (run : List (Measured F))
      → stamped_of model_id (r ∷ []) ++ stamped_of model_id run ≡ stamped_of model_id (r ∷ run)
  stamped_of-cons model_id r run = elim (Bool-cases (str_eq r.metric.model_id model_id)) [
    | inl e ↦ rw e refl
    | inr e ↦ rw e refl
  ]

  record_run-stored :
      (run : List (Measured F)) (model_id : String) (pt : PerformanceTracker F) (n : ℕ)
      (l : List (PerformanceMetric F))
      → pt.max_metrics ≡ pos n
      → 1 ≤ n
      → stored model_id pt ≡ last_items n l
      → stored model_id (record_run run pt) ≡ last_items n (l ++ stamped_of model_id run)
  unfolding record_metric
  record_run-stored [] model_id pt n l limit some_room h = rw (append_nil l) h
  record_run-stored (r ∷ run) model_id pt n l limit some_room h =
      record_run-stored run model_id (record_metric F r.id r.now r.metric pt) n _ limit some_room
        (record_metric-stored r model_id pt n l limit some_room h)
      ∙ ap (last_items n) (
          append_assoc l (stamped_of model_id (r ∷ [])) (stamped_of model_id run)
          ∙ ap (λ items. l ++ items) (stamped_of-cons model_id r run))

  -- A tracker with room for some measurements holds, after any run of measurements of any models,
  -- the last of those of each model that there is room for, in their order.
  pub window_kept :
      (run : List (Measured F)) (model_id : String) (n : ℕ)
      → 1 ≤ n
      → stored model_id (record_run run (new_performance_tracker F (pos n)))
        ≡ last_items n (stamped_of model_id run)
  unfolding new_performance_tracker lookup
  window_kept run model_id n some_room =
      let start = new_performance_tracker F (pos n) in
      let limit : start.max_metrics ≡ pos n = ground (arith, some_room) in
      record_run-stored run model_id start n [] limit some_room (sym (drop_none (0 - n)))
    where
      drop_none : (k : ℕ) → drop {A = PerformanceMetric F} k [] ≡ []
      drop_none zero = refl
      drop_none (suc k) = refl
