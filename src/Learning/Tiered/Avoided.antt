-- ===== src/Learning/Tiered/Avoided.antt =====
-- plugins/learning/tiered.go: the models that the scopes avoid.
use argis_extensions.Prelude.{ℕ, ◌≡◌, refl, Option, some, List, [], ◌∷◌, arith}
use argis_extensions.Prelude.Float.{Float64}
use argis_extensions.Learning.{EpisodicEvent}
use argis_extensions.Learning.Tiered.{
  ScopedLearning, TieredConfig, TieredLearningSystem, new_scoped_learning,
  new_tiered_learning_system, learn, count_of, update_model_preference, update_task_pref,
}
use argis_extensions.Learning.Tiered.Stores.{record_event_eq}
use argis_extensions.Learning.Tiered.Everywhere.{Call, EachScope, record_all, recorded-EachScope}

module _ (F : Float64) where
  abbrev pub IsUnavoided : ScopedLearning F → Type 0
  IsUnavoided sl = sl.avoid_models ≡ []

  preference-IsUnavoided :
      (sl : ScopedLearning F) (e : EpisodicEvent F)
      → IsUnavoided sl
      → IsUnavoided (update_model_preference F sl e)
  unfolding update_model_preference count_of
  preference-IsUnavoided sl e h = rw h (ground (arith, h))

  task_pref-IsUnavoided :
      (sl : ScopedLearning F) (e : EpisodicEvent F)
      → IsUnavoided sl
      → IsUnavoided (update_task_pref F sl e)
  unfolding update_task_pref
  task_pref-IsUnavoided sl e h = ground (arith, h)

  learn-IsUnavoided :
      (now : ℕ) (e : EpisodicEvent F) (sl : ScopedLearning F)
      → IsUnavoided sl
      → IsUnavoided (learn F now e sl)
  unfolding learn
  learn-IsUnavoided now e sl h = task_pref-IsUnavoided _ e (preference-IsUnavoided _ e h)

  record_all-IsUnavoided :
      (calls : List (Call F)) (t : TieredLearningSystem F)
      → EachScope F IsUnavoided t
      → (after : TieredLearningSystem F) × (record_all F calls t ≡ some after)
        × EachScope F IsUnavoided after
  unfolding record_all new_scoped_learning
  record_all-IsUnavoided [] t h = (t, refl, h)
  record_all-IsUnavoided (call ∷ calls) t h = rw (record_event_eq F call.0 call.1 call.2 call.3 t) (
      record_all-IsUnavoided calls _ (
        recorded-EachScope F IsUnavoided IsUnavoided (λ now scope id. refl) (λ sl g. g)
          learn-IsUnavoided call t h))

  -- Whatever events a new learning system records, failures however many included, it records them
  -- without a panic, and at the end no chain, session, project or user, nor the global scope, has
  -- a model to avoid.
  pub nothing_avoided :
      (now : ℕ) (config : Option TieredConfig) (calls : List (Call F))
      → (after : TieredLearningSystem F) × (record_all F calls
            (new_tiered_learning_system F now config)
          ≡ some after)
        × EachScope F IsUnavoided after
  unfolding new_tiered_learning_system new_scoped_learning
  nothing_avoided now config calls =
      record_all-IsUnavoided calls (new_tiered_learning_system F now config) (tt, tt, tt, tt, refl)
