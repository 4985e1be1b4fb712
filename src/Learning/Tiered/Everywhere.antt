-- ===== src/Learning/Tiered/Everywhere.antt =====
-- plugins/learning/tiered.go: runs of events, and properties that every scope keeps.
use argis_extensions.Prelude.{
  ℕ, String, Option, some, List, [], ◌∷◌, str_eq, Bool-cases, Option-cases, inl, inr, ◌>>=◌,
}
use argis_extensions.Prelude.Assoc.{Dict, lookup, Values, Values-insert, Values-lookup, Values-map}
use argis_extensions.Prelude.Float.{Float64}
use argis_extensions.Learning.{LearningScope, EpisodicEvent}
use argis_extensions.Learning.Tiered.{
  ScopedLearning, TieredLearningSystem, Context, new_scoped_learning, learn,
}
use argis_extensions.Learning.Tiered.Record.{record_event}
use argis_extensions.Learning.Tiered.Stores.{scope_at, learn_in, recorded}

-- A call of RecordEvent: the identifier drawn, the time, the context and the event.
abbrev pub Call : Float64 → Type 0
Call F = String × ℕ × Context × EpisodicEvent F

module _ (F : Float64) where
  unfoldable pub record_all :
      List (Call F) → TieredLearningSystem F → Option (TieredLearningSystem F)
  record_all [] t = some t
  record_all ((id, now, ctx, event) ∷ calls) t = do
    t ← record_event F id now ctx event t
    record_all calls t

  abbrev pub EachScope : (ScopedLearning F → Type 0) → TieredLearningSystem F → Type 0
  EachScope P t =
      Values P t.prompt_chains
      × Values P t.sessions
      × Values P t.projects
      × Values P t.users
      × P t.global

  module _ (Good Fine : ScopedLearning F → Type 0)
      (fresh : (now : ℕ) (scope : LearningScope) (id : String)
        → Good (new_scoped_learning F now scope id))
      (weaken : (sl : ScopedLearning F) → Good sl → Fine sl)
      (step : (now : ℕ) (e : EpisodicEvent F) (sl : ScopedLearning F)
        → Good sl
        → Fine (learn F now e sl)) where
    scope_at-Good :
        (now : ℕ) (scope : LearningScope) (id : String) (store : Dict (ScopedLearning F))
        → Values Good store
        → Good (scope_at F now scope id store)
    scope_at-Good now scope id store goods = elim (Option-cases (lookup id store)) [
      | inl e ↦ rw (e, scope_at) (fresh now scope id)
      | inr (sl, e) ↦ rw (e, scope_at) (Values-lookup Good id sl store goods e)
    ]

    learn_in-Values :
        (now : ℕ) (scope : LearningScope) (id : String) (e : EpisodicEvent F)
        (store : Dict (ScopedLearning F))
        → Values Good store
        → Values Fine (learn_in F now scope id e store)
    unfolding learn_in
    learn_in-Values now scope id e store goods = elim (Bool-cases (str_eq id "")) [
      | inl h ↦ rw h (Values-map Good Fine weaken store goods)
      | inr h ↦ rw h (
          Values-insert Fine id _ store (step now e _ (scope_at-Good now scope id store goods))
            (Values-map Good Fine weaken store goods))
    ]

    pub recorded-EachScope :
        (call : Call F) (t : TieredLearningSystem F)
        → EachScope Good t
        → EachScope Fine (recorded F call.0 call.1 call.2 call.3 t)
    unfolding recorded
    recorded-EachScope (id, now, ctx, e) t (c, s, p, u, g) = (
      learn_in-Values now _ _ _ t.prompt_chains c,
      learn_in-Values now _ _ _ t.sessions s,
      learn_in-Values now _ _ _ t.projects p,
      learn_in-Values now _ _ _ t.users u,
      step now _ t.global g,
    )
