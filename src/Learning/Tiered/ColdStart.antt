-- ===== src/Learning/Tiered/ColdStart.antt =====
-- plugins/learning/tiered.go: GetPreferredModel on a system that has recorded few events.
use argis_extensions.Prelude.{
  ℕ, ◌<◌, ◌≤◌, ◌≡◌, refl, ◌∙◌, ap, subst, String, Option, none, some, List, [], ◌∷◌, arith, length,
  str_eq, Bool-cases, Option-cases, inl, inr,
}
use argis_extensions.Prelude.Int.{ℤ, pos, int_max, ◌<ℤ◌}
use argis_extensions.Prelude.Assoc.{Dict, lookup, Values, Values-insert, Values-lookup}
use argis_extensions.Prelude.Float.{Float64}
use argis_extensions.Learning.{
  LearningScope, scope_request, scope_prompt_chain, scope_session, scope_project, scope_user,
  scope_global, zero_float,
}
use argis_extensions.Learning.Tiered.{
  ScopedLearning, TieredConfig, TieredLearningSystem, Context, new_scoped_learning,
  new_tiered_learning_system,
}
use argis_extensions.Learning.Tiered.Record.{get_or_create_in, get_or_create_scope}
use argis_extensions.Learning.Tiered.Everywhere.{Call, EachScope, record_all}
use argis_extensions.Learning.Tiered.Recorded.{CountsTo, requests_counted, fresh-CountsTo}
use argis_extensions.Learning.Tiered.Prefer.{choice_in, ask_scopes, get_preferred_model, scopes_of}

module _ (F : Float64) where
  -- A scope with fewer requests than the configured number answers nothing.
  choice_in_cold :
      (m : ℤ) (task_type : String) (candidates : List String) (sl : ScopedLearning F)
      → sl.total_requests <ℤ m
      → choice_in F m task_type candidates sl ≡ none
  unfolding choice_in
  choice_in_cold m task_type candidates sl h = ground (h, arith)

  in-EachScope :
      (P : ScopedLearning F → Type 0) (now : ℕ) (scope : LearningScope) (id : String)
      (store : Dict (ScopedLearning F))
      → P (new_scoped_learning F now scope id)
      → Values P store
      → P (get_or_create_in F now scope id store).0
        × Values P (get_or_create_in F now scope id store).1
  unfolding get_or_create_in
  in-EachScope P now scope id store fresh h = elim (Option-cases (lookup id store)) [
    | inl e ↦ rw (e, get_or_create_in) (fresh, Values-insert P id _ store fresh h)
    | inr (sl, e) ↦ rw (e, get_or_create_in) (Values-lookup P id sl store h e, h)
  ]

  abbrev pub OptionAll : (ScopedLearning F → Type 0) → Option (ScopedLearning F) → Type 0
  OptionAll P none = Unit
  OptionAll P (some sl) = P sl

  get_or_create_scope-EachScope :
      (P : ScopedLearning F → Type 0) (now : ℕ) (scope : LearningScope) (id : String)
      (t : TieredLearningSystem F)
      → P (new_scoped_learning F now scope id)
      → EachScope F P t
      → OptionAll P (get_or_create_scope F now scope id t).0
        × EachScope F P (get_or_create_scope F now scope id t).1
        × ((get_or_create_scope F now scope id t).1.config ≡ t.config)
  unfolding get_or_create_scope
  get_or_create_scope-EachScope P now scope_request id t fresh h = (tt, h, refl)
  get_or_create_scope-EachScope P now scope_prompt_chain id t fresh (c, s, p, u, g) =
      let got = in-EachScope P now scope_prompt_chain id t.prompt_chains fresh c in
      (got.0, (got.1, s, p, u, g), refl)
  get_or_create_scope-EachScope P now scope_session id t fresh (c, s, p, u, g) =
      let got = in-EachScope P now scope_session id t.sessions fresh s in
      (got.0, (c, got.1, p, u, g), refl)
  get_or_create_scope-EachScope P now scope_project id t fresh (c, s, p, u, g) =
      let got = in-EachScope P now scope_project id t.projects fresh p in
      (got.0, (c, s, got.1, u, g), refl)
  get_or_create_scope-EachScope P now scope_user id t fresh (c, s, p, u, g) =
      let got = in-EachScope P now scope_user id t.users fresh u in
      (got.0, (c, s, p, got.1, g), refl)
  get_or_create_scope-EachScope P now scope_global id t fresh (c, s, p, u, g) =
      (g, (c, s, p, u, g), refl)

  ask_scopes_cold :
      (n m now : ℕ) (task_type : String) (candidates : List String)
      (scopes : List (LearningScope × String)) (t : TieredLearningSystem F)
      → n < m
      → t.config.min_samples_for_pref ≡ pos m
      → EachScope F (CountsTo F n) t
      → (ask_scopes F now task_type candidates scopes t).0 ≡ ("", zero_float F)
  unfolding ask_scopes
  ask_scopes_cold n m now task_type candidates [] t lt cfg h = refl
  ask_scopes_cold n m now task_type candidates (s ∷ scopes) t lt cfg h =
      let got = get_or_create_scope F now s.0 s.1 t in
      let kept =
        get_or_create_scope-EachScope (CountsTo F n) now s.0 s.1 t (fresh-CountsTo F n now s.0 s.1)
          h in
      let later =
        ask_scopes_cold n m now task_type candidates scopes got.1 lt
          (ap (λ c. c.min_samples_for_pref) kept.2 ∙ cfg) kept.1 in
      elim (Bool-cases (str_eq s.1 "")) [
        | inl e ↦
            rw (e, ask_scopes) (ask_scopes_cold n m now task_type candidates scopes t lt cfg h)
        | inr e ↦ elim (Option-cases got.0) [
          | inl g ↦ rw (e, g, ask_scopes) later
          | inr (sl, g) ↦
              let counted = subst (OptionAll (CountsTo F n)) g kept.0 in
              rw
                (
                  e,
                  g,
                  choice_in_cold t.config.min_samples_for_pref task_type candidates sl
                      (rw (cfg, counted.1) (omega (arith, lt, counted.2))),
                  ask_scopes,
                )
                later
        ]
      ]

  -- As long as a new learning system has recorded fewer events than MinSamplesForPref, it prefers
  -- no model, for any context, task and candidates.
  pub cold_start :
      (created now m : ℕ) (config : Option TieredConfig) (calls : List (Call F)) (ctx : Context)
      (task_type : String) (candidates : List String)
      → (new_tiered_learning_system F created config).config.min_samples_for_pref ≡ pos m
      → length calls < m
      → m ≤ int_max
      → (after : TieredLearningSystem F) × (record_all F calls
            (new_tiered_learning_system F created config)
          ≡ some after)
        × ((get_preferred_model F now ctx task_type candidates after).0 ≡ ("", zero_float F))
  unfolding get_preferred_model
  cold_start created now m config calls ctx task_type candidates cfg lt bound =
      let run = requests_counted F created config calls (omega (arith, lt, bound)) in
      (
        run.0,
        run.1,
        ask_scopes_cold (length calls) m now task_type candidates (scopes_of F ctx) run.0 lt
            (ap (λ c. c.min_samples_for_pref) run.4 ∙ cfg) run.2,
      )
