-- ===== src/Learning/Tiered/Prefer.antt =====
-- plugins/learning/tiered.go: GetPreferredModel, which asks the scopes from the narrowest up.
use argis_extensions.Prelude.{
  ℕ, String, Bool, true, false, Option, none, some, List, [], ◌∷◌, str_eq, if◌then◌else◌, or_else,
  not, ◌&&◌,
}
use argis_extensions.Prelude.Int.{ℤ, pos, ltb_ℤ}
use argis_extensions.Prelude.Assoc.{Dict, lookup}
use argis_extensions.Prelude.Float.{Float64}
use argis_extensions.Learning.{
  LearningScope, scope_session, scope_project, scope_user, scope_global, zero_float, one_float,
}
use argis_extensions.Learning.Tiered.{
  ScopedLearning, TieredLearningSystem, Context, extract_context_value,
}
use argis_extensions.Learning.Tiered.Record.{get_or_create_scope}

module _ (F : Float64) where
  unfoldable pub contains : List String → String → Bool
  contains [] model = false
  contains (c ∷ candidates) model =
      let rest = contains candidates model in if str_eq c model then true else rest

  -- The confidence of a task's preference: a hundredth of the requests, at most one.
  unfoldable pub sample_confidence : ℤ → F.Carrier
  sample_confidence total =
      let confidence = F.div (F.of_int total) (F.of_int (pos 100)) in
      if F.lt (one_float F) confidence then one_float F else confidence

  unfoldable pub task_choice : String → List String → ScopedLearning F → Option (String × F.Carrier)
  task_choice task_type candidates sl = elim (lookup task_type sl.task_type_prefs) [
    | none ↦ none
    | some preferred ↦
        if contains candidates preferred
        then some (preferred, sample_confidence sl.total_requests)
        else none
  ]

  -- A turn of the loop over the candidates: the best model and its score so far.
  unfoldable pub better : Dict F.Carrier → String → String × F.Carrier → String × F.Carrier
  better prefs c best = elim (lookup c prefs) [
    | none ↦ best
    | some score ↦ if F.lt best.1 score then (c, score) else best
  ]

  unfoldable pub best_model : Dict F.Carrier → List String → String × F.Carrier → String × F.Carrier
  best_model prefs [] best = best
  best_model prefs (c ∷ candidates) best = best_model prefs candidates (better prefs c best)

  -- The candidate that scores best, if it scores above a half.
  unfoldable pub preference_choice : List String → ScopedLearning F → Option (String × F.Carrier)
  preference_choice candidates sl =
      let best = best_model sl.model_preferences candidates ("", zero_float F) in
      if not (str_eq best.0 "") && F.lt (F.ratio 5 10) best.1 then some best else none

  -- What one scope answers; `none` goes on to the next.
  unfoldable pub choice_in :
      ℤ → String → List String → ScopedLearning F → Option (String × F.Carrier)
  choice_in min_samples task_type candidates sl =
      if not (ltb_ℤ sl.total_requests min_samples)
      then or_else (task_choice task_type candidates sl) (preference_choice candidates sl)
      else none

  unfoldable pub ask_scopes :
      ℕ
      → String
      → List String
      → List (LearningScope × String)
      → TieredLearningSystem F
      → (String × F.Carrier) × TieredLearningSystem F
  ask_scopes now task_type candidates [] t = (("", zero_float F), t)
  ask_scopes now task_type candidates (s ∷ scopes) t =
      let got = get_or_create_scope F now s.0 s.1 t in
      elim (str_eq s.1 "") [
        | true ↦ ask_scopes now task_type candidates scopes t
        | false ↦ elim got.0 [
          | none ↦ ask_scopes now task_type candidates scopes got.1
          | some sl ↦ elim (choice_in t.config.min_samples_for_pref task_type candidates sl) [
            | some choice ↦ (choice, got.1)
            | none ↦ ask_scopes now task_type candidates scopes got.1
          ]
        ]
      ]

  abbrev pub scopes_of : Context → List (LearningScope × String)
  scopes_of ctx =
      (scope_session, extract_context_value ctx "session_id")
      ∷ (scope_project, extract_context_value ctx "project_id")
      ∷ (scope_user, extract_context_value ctx "user_id")
      ∷ (scope_global, "global")
      ∷ []

  -- The answer, and the system with the scopes that the question created.
  unfoldable pub get_preferred_model :
      ℕ
      → Context
      → String
      → List String
      → TieredLearningSystem F
      → (String × F.Carrier) × TieredLearningSystem F
  get_preferred_model now ctx task_type candidates t =
      ask_scopes now task_type candidates (scopes_of ctx) t
