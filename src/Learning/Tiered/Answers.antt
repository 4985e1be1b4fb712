-- ===== src/Learning/Tiered/Answers.antt =====
-- plugins/learning/tiered.go: what GetPreferredModel can answer.
use argis_extensions.Prelude.{
  ℕ, ◌≡◌, refl, sym, ◌∙◌, ap, ◌⊎◌, String, Bool, true, some, List, [], ◌∷◌, arith, str_eq, eq_iff,
  Bool-cases, Option-cases, inl, inr, not, ◌&&◌, or_else_cases, guarded_cases, some-injective,
}
use argis_extensions.Prelude.Int.{ℤ}
use argis_extensions.Prelude.Assoc.{Dict, lookup}
use argis_extensions.Prelude.Float.{Float64}
use argis_extensions.Learning.{LearningScope, zero_float}
use argis_extensions.Learning.Tiered.{ScopedLearning, TieredLearningSystem, Context}
use argis_extensions.Learning.Tiered.Record.{get_or_create_scope}
use argis_extensions.Learning.Tiered.Prefer.{
  contains, preference_choice, task_choice, better, best_model, choice_in, ask_scopes,
  get_preferred_model, scopes_of,
}

module _ (F : Float64) where
  contains-cons :
      (c model : String) (candidates : List String)
      → contains F candidates model ≡ true
      → contains F (c ∷ candidates) model ≡ true
  unfolding contains
  contains-cons c model candidates h = ground (h, arith)

  contains-head : (c : String) (candidates : List String) → contains F (c ∷ candidates) c ≡ true
  unfolding contains
  contains-head c candidates = ground (eq_iff c c, arith)

  better_cases :
      (prefs : Dict F.Carrier) (c : String) (best : String × F.Carrier)
      → (better F prefs c best ≡ best) ⊎ ((better F prefs c best).0 ≡ c)
  unfolding better
  better_cases prefs c best = elim (Option-cases (lookup c prefs)) [
    | inl e ↦ inl (rw (e, better) refl)
    | inr (score, e) ↦ elim (Bool-cases (F.lt best.1 score)) [
      | inl h ↦ inr (rw (e, h, better) refl)
      | inr h ↦ inl (rw (e, h, better) refl)
    ]
  ]

  best_model-contains :
      (prefs : Dict F.Carrier) (candidates : List String) (best : String × F.Carrier)
      → ((best_model F prefs candidates best).0 ≡ best.0)
        ⊎ (contains F candidates (best_model F prefs candidates best).0 ≡ true)
  unfolding best_model
  best_model-contains prefs [] best = inl refl
  best_model-contains prefs (c ∷ candidates) best =
      elim (best_model-contains prefs candidates (better F prefs c best)) [
        | inr h ↦ inr (contains-cons c _ candidates h)
        | inl same ↦ elim (better_cases prefs c best) [
          | inl e ↦ inl (same ∙ ap (λ b. b.0) e)
          | inr e ↦ inr (rw (same, e) (contains-head c candidates))
        ]
      ]

  task_choice-contains :
      (task_type : String) (candidates : List String) (sl : ScopedLearning F)
      (r : String × F.Carrier)
      → task_choice F task_type candidates sl ≡ some r
      → contains F candidates r.0 ≡ true
  unfolding task_choice
  task_choice-contains task_type candidates sl r h = ground (h, arith)

  empty_refused :
      (name : String) (guard goal : Bool)
      → name ≡ ""
      → (not (str_eq name "") && guard) ≡ true
      → goal ≡ true
  empty_refused name guard goal e h = ground (e, h, eq_iff name "", arith)

  preference_choice-contains :
      (candidates : List String) (sl : ScopedLearning F) (r : String × F.Carrier)
      → preference_choice F candidates sl ≡ some r
      → contains F candidates r.0 ≡ true
  unfolding preference_choice
  preference_choice-contains candidates sl r h =
      let best = best_model F sl.model_preferences candidates ("", zero_float F) in
      let held = guarded_cases _ (some best) r h in
      let same = some-injective best r held.1 in
      elim (best_model-contains sl.model_preferences candidates ("", zero_float F)) [
        | inl e ↦ empty_refused _ _ _ e held.0
        | inr e ↦ rw (sym same) e
      ]

  choice_in-contains :
      (m : ℤ) (task_type : String) (candidates : List String) (sl : ScopedLearning F)
      (r : String × F.Carrier)
      → choice_in F m task_type candidates sl ≡ some r
      → contains F candidates r.0 ≡ true
  unfolding choice_in
  choice_in-contains m task_type candidates sl r h =
      elim (or_else_cases _ _ r (guarded_cases _ _ r h).1) [
        | inl e ↦ task_choice-contains task_type candidates sl r e
        | inr e ↦ preference_choice-contains candidates sl r e
      ]

  ask_scopes-contains :
      (now : ℕ) (task_type : String) (candidates : List String)
      (scopes : List (LearningScope × String)) (t : TieredLearningSystem F)
      → ((ask_scopes F now task_type candidates scopes t).0 ≡ ("", zero_float F))
        ⊎ (contains F candidates (ask_scopes F now task_type candidates scopes t).0.0 ≡ true)
  unfolding ask_scopes
  ask_scopes-contains now task_type candidates [] t = inl refl
  ask_scopes-contains now task_type candidates (s ∷ scopes) t =
      let got = get_or_create_scope F now s.0 s.1 t in
      let later = ask_scopes-contains now task_type candidates scopes in
      elim (Bool-cases (str_eq s.1 "")) [
        | inl e ↦ rw (e, ask_scopes) (later t)
        | inr e ↦ elim (Option-cases got.0) [
          | inl g ↦ rw (e, g, ask_scopes) (later got.1)
          | inr (sl, g) ↦
              elim (Option-cases
                (choice_in F t.config.min_samples_for_pref task_type candidates sl)) [
                  | inl h ↦ rw (e, g, h, ask_scopes) (later got.1)
                  | inr (r, h) ↦
                      rw (e, g, h, ask_scopes)
                        (inr (choice_in-contains _ task_type candidates sl r h))
                ]
        ]
      ]

  -- GetPreferredModel answers one of the candidates it is given, or the empty model with
  -- confidence 0.
  pub preferred_candidate :
      (now : ℕ) (ctx : Context) (task_type : String) (candidates : List String)
      (t : TieredLearningSystem F)
      → ((get_preferred_model F now ctx task_type candidates t).0 ≡ ("", zero_float F))
        ⊎ (contains F candidates (get_preferred_model F now ctx task_type candidates t).0.0 ≡ true)
  unfolding get_preferred_model
  preferred_candidate now ctx task_type candidates t =
      ask_scopes-contains now task_type candidates (scopes_of F ctx) t
