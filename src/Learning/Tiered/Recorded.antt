-- ===== src/Learning/Tiered/Recorded.antt =====
-- plugins/learning/tiered.go: which scopes an event changes, and how the requests are counted.
use argis_extensions.Prelude.{
  ℕ, suc, ◌+◌, ◌≤◌, ◌<◌, ◌≡◌, refl, subst, ◌∙◌, String, Option, some, List, [], ◌∷◌, arith, length,
  str_eq, if◌then◌else◌, Bool-cases, inl, inr, not, ◌&&◌,
}
use argis_extensions.Prelude.Int.{pos, inc, int_max}
use argis_extensions.Prelude.Assoc.{lookup, lookup-insert}
use argis_extensions.Prelude.Float.{Float64}
use argis_extensions.Learning.{LearningScope, scope_session, EpisodicEvent}
use argis_extensions.Learning.Tiered.{
  ScopedLearning, TieredConfig, TieredLearningSystem, Context, extract_context_value,
  new_scoped_learning, new_tiered_learning_system, learn, update_model_preference, update_task_pref,
}
use argis_extensions.Learning.Tiered.Record.{record_event}
use argis_extensions.Learning.Tiered.Stores.{scope_at, learn_in, stamped, recorded, record_event_eq}
use argis_extensions.Learning.Tiered.Everywhere.{Call, EachScope, record_all, recorded-EachScope}

module _ (F : Float64) where
  -- RecordEvent does not panic. In the map of sessions it changes the entry of the context's
  -- session only, which becomes what that session, or a fresh one, learns from the event; the
  -- other sessions stay. Without a session in the context the map stays as it is.
  pub session_recorded :
      (id : String) (now : ℕ) (ctx : Context) (e : EpisodicEvent F) (t : TieredLearningSystem F)
      (asked : String)
      → (after : TieredLearningSystem F) × (record_event F id now ctx e t ≡ some after)
        × (lookup asked after.sessions ≡ (
            if not (str_eq (extract_context_value ctx "session_id") "")
              && str_eq (extract_context_value ctx "session_id") asked
            then some (
                learn F now (stamped F id now e) (
                  scope_at F now scope_session (extract_context_value ctx "session_id") t.sessions))
            else lookup asked t.sessions))
  unfolding recorded learn_in
  session_recorded id now ctx e t asked = (
    recorded F id now ctx e t,
    record_event_eq F id now ctx e t,
    elim (Bool-cases (str_eq (extract_context_value ctx "session_id") "")) [
      | inl h ↦ rw h refl
      | inr h ↦ rw h (lookup-insert _ asked _ t.sessions)
    ],
  )

  preference-total :
      (sl : ScopedLearning F) (e : EpisodicEvent F)
      → (update_model_preference F sl e).total_requests ≡ sl.total_requests
  unfolding update_model_preference
  preference-total sl e = ground arith

  task_pref-total :
      (sl : ScopedLearning F) (e : EpisodicEvent F)
      → (update_task_pref F sl e).total_requests ≡ sl.total_requests
  unfolding update_task_pref
  task_pref-total sl e = ground arith

  learn-total :
      (now : ℕ) (e : EpisodicEvent F) (sl : ScopedLearning F)
      → (learn F now e sl).total_requests ≡ inc sl.total_requests
  unfolding learn
  learn-total now e sl = task_pref-total _ e ∙ preference-total _ e

  -- A scope that has counted at most so many requests.
  abbrev pub CountsTo : ℕ → ScopedLearning F → Type 0
  CountsTo n sl = (k : ℕ) × (sl.total_requests ≡ pos k) × (k ≤ n)

  learn-CountsTo :
      (n : ℕ)
      → n < int_max
      → (now : ℕ) (e : EpisodicEvent F) (sl : ScopedLearning F) → CountsTo n sl
      → CountsTo (suc n) (learn F now e sl)
  learn-CountsTo n bound now e sl (k, total, le) =
      (suc k, learn-total now e sl ∙ rw total (ground arith), omega (arith, le))

  pub fresh-CountsTo :
      (n now : ℕ) (scope : LearningScope) (id : String)
      → CountsTo n (new_scoped_learning F now scope id)
  unfolding new_scoped_learning
  fresh-CountsTo n now scope id = (0, refl, omega arith)

  run-CountsTo :
      (n m : ℕ) (calls : List (Call F)) (t : TieredLearningSystem F)
      → n + length calls ≡ m
      → m ≤ int_max
      → EachScope F (CountsTo n) t
      → t.global.total_requests ≡ pos n
      → (after : TieredLearningSystem F) × (record_all F calls t ≡ some after)
        × EachScope F (CountsTo m) after
        × (after.global.total_requests ≡ pos m)
        × (after.config ≡ t.config)
  unfolding record_all recorded
  run-CountsTo n m [] t total bound h g =
      subst
        (λ k.
          (after : TieredLearningSystem F) × (some t ≡ some after)
          × EachScope F (CountsTo k) after
          × (after.global.total_requests ≡ pos k)
          × (after.config ≡ t.config))
        (omega (arith, total)) (t, refl, h, g, refl)
  run-CountsTo n m (call ∷ calls) t total bound h g =
      rw (record_event_eq F call.0 call.1 call.2 call.3 t) (
        run-CountsTo (suc n) m calls (recorded F call.0 call.1 call.2 call.3 t)
          (omega (arith, total)) bound
          (recorded-EachScope F (CountsTo n) (CountsTo (suc n)) (fresh-CountsTo n)
            (λ sl c. (c.0, c.1, omega (arith, c.2)))
            (learn-CountsTo n (omega (arith, bound, total))) call t h)
          (learn-total _ _ t.global ∙ rw g (ground (arith, bound, total))))

  -- After a run of events from a new learning system, no longer than the counter's largest value,
  -- the global scope has counted every event, and no other scope more than there were.
  pub requests_counted :
      (now : ℕ) (config : Option TieredConfig) (calls : List (Call F))
      → length calls ≤ int_max
      → (after : TieredLearningSystem F) × (record_all F calls
            (new_tiered_learning_system F now config)
          ≡ some after)
        × EachScope F (CountsTo (length calls)) after
        × (after.global.total_requests ≡ pos (length calls))
        × (after.config ≡ (new_tiered_learning_system F now config).config)
  unfolding new_tiered_learning_system new_scoped_learning
  requests_counted now config calls bound =
      run-CountsTo 0 (length calls) calls (new_tiered_learning_system F now config) (omega arith)
        bound (tt, tt, tt, tt, (0, refl, omega arith)) refl
