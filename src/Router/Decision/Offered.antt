-- ===== src/Router/Decision/Offered.antt =====
-- plugins/intelligentrouter/decision.go: the candidates of a request and of the steps behind it.
use argis_extensions.Prelude.{
  eq_refl, count-append, ◌≤◌, ◌≡◌, refl, ap, ◌∙◌, inl, inr, String, Bool, true, false, Option, none,
  some, List, [], ◌∷◌, map, length, count, concat, str_eq, Bool-cases, arith, ltb,
}
use argis_extensions.Prelude.Assoc.{lookup}
use argis_extensions.Prelude.Float.{Float64}
use argis_extensions.Prelude.Sort.{count_if, Sorts}
use argis_extensions.Learning.Profiles.{ModelProfile}
use argis_extensions.Learning.Profiles.Store.{ProfileStore, get}
use argis_extensions.Learning.Optimizer.{
  ThreePillarOptimizer, ModelScore, RankRequest, OptimizationWeights,
}
use argis_extensions.Learning.Optimizer.Ranked.{
  Sort, score_known, weights_for, score_each, scores_higher, rank_models,
}
use argis_extensions.Learning.Optimizer.Scores.{halve_when, penalise, score_model}
use argis_extensions.Learning.Tiered.Prefer.{contains}
use argis_extensions.Learning.Profiles.Keyed.{KeysAgree}
use argis_extensions.Router.RouteLlm.{RouteLlmClient, score_prompt, should_use_strong_model}
use argis_extensions.Router.Candidates.{Providers, merge_candidates}
use argis_extensions.Router.Candidates.Merged.{merged_once}
use argis_extensions.Router.Candidates.Cheaper.{cheap_first}
use argis_extensions.Router.Decision.{GoLibrary}
use argis_extensions.Router.Decision.Choice.{cost_step}
use argis_extensions.Router.Semantic.{get_preferred_models, models_of}

pub merged-offered :
    (lists : List (List String)) (model : String)
    → 1 ≤ count model (merge_candidates lists)
    → 1 ≤ count model (concat lists)
merged-offered lists model h = omega (arith, h, merged_once lists model)

pub offered-merged :
    (lists : List (List String)) (model : String)
    → 1 ≤ count model (concat lists)
    → 1 ≤ count model (merge_candidates lists)
offered-merged lists model h = omega (arith, h, merged_once lists model)

module _ (F : Float64) where
  pub contains-count :
      (models : List String) (model : String) → contains F models model ≡ ltb 0 (count model models)
  unfolding contains
  contains-count [] model = ground arith
  contains-count (m ∷ models) model = ground (arith, contains-count models model)

  -- Every class has a preferred model.
  pub preferred_exists : (task_type : String) → 1 ≤ length (get_preferred_models F task_type)
  unfolding models_of lookup
  preferred_exists task_type = ground arith

  halved-key : (broken : Bool) (s : ModelScore F) → (halve_when F broken s).model_key ≡ s.model_key
  unfolding halve_when
  halved-key true s = refl
  halved-key false s = refl

  score-key :
      (o : ThreePillarOptimizer F) (req : RankRequest F) (w : OptimizationWeights F) (key : String)
      (known : Option (ModelProfile F))
      → ((p : ModelProfile F) → known ≡ some p → p.model_key ≡ key)
      → (score_known F o req w key known).model_key ≡ key
  unfolding score_known penalise score_model
  score-key o req w key none h = refl
  score-key o req w key (some p) h = halved-key _ _ ∙ halved-key _ _ ∙ halved-key _ _ ∙ h p refl

  -- The scores are those of the candidates, in their order.
  pub score_each-keys :
      (o : ThreePillarOptimizer F) (store : ProfileStore F) (req : RankRequest F)
      → KeysAgree F store
      → map (λ s. s.model_key) (score_each F o store req) ≡ req.candidates
  unfolding score_each
  score_each-keys o store req h = keys req.candidates
    where
      keys :
          (models : List String)
          → map
              (λ s. s.model_key)
              (map (λ key. score_known F o req (weights_for F o req) key (get F store key)) models)
            ≡ models
      keys [] = refl
      keys (m ∷ models) =
          rw (score-key o req (weights_for F o req) m (get F store m) (h m))
            (ap (λ l. m ∷ l) (keys models))

  module _ (P : Providers) (G : GoLibrary F) where
    -- Step 4 changes at most the order of the candidates.
    pub cost_step-count :
        (enabled : Bool) (prompt model : String) (candidates : List String)
        (c : Option (RouteLlmClient F))
        → count model (cost_step F P G enabled prompt candidates c).0.0 ≡ count model candidates
    unfolding cost_step
    cost_step-count enabled prompt model candidates none = refl
    cost_step-count false prompt model candidates (some c) = refl
    cost_step-count true prompt model candidates (some c) =
        elim (Bool-cases
          (should_use_strong_model F (score_prompt F prompt c).0 (score_prompt F prompt c).1)) [
            | inl e ↦ rw e refl
            | inr e ↦ rw e ((cheap_first G.to_lower candidates).1 model)
          ]

  pub count-keys :
      (model : String) (scores : List (ModelScore F))
      → count_if (λ s. str_eq s.model_key model) scores
        ≡ count model (map (λ s. s.model_key) scores)
  count-keys model [] = refl
  count-keys model (s ∷ scores) = ground (arith, count-keys model scores)

  -- A model that is ranked is a candidate.
  pub ranked_key :
      (sort : Sort F) (o : ThreePillarOptimizer F) (store : ProfileStore F) (req : RankRequest F)
      → Sorts (scores_higher F) sort
      → KeysAgree F store
      → (model : String)
      → count_if (λ s. str_eq s.model_key model) (rank_models F sort o store req)
        ≡ count model req.candidates
  unfolding rank_models
  ranked_key sort o store req ok agree model =
      ok.permutes (λ s. str_eq s.model_key model) (score_each F o store req)
      ∙ count-keys model (score_each F o store req)
      ∙ ap (count model) (score_each-keys o store req agree)

  ranked_some :
      (sort : Sort F) (models : List String) (scored : String → ModelScore F)
      (ranked : List (ModelScore F)) (model : String)
      → Sorts (scores_higher F) sort
      → 1 ≤ count model models
      → sort (map scored models) ≡ ranked
      → (best : ModelScore F) × (others : List (ModelScore F)) × (ranked ≡ best ∷ others)
  ranked_some sort [] scored ranked model ok some_model e = absurd (omega (arith, some_model))
  ranked_some sort (m ∷ models) scored [] model ok some_model e = absurd (
      omega (arith, ok.permutes (λ s. true) (map scored (m ∷ models)), ap (count_if (λ s. true)) e))
  ranked_some sort (m ∷ models) scored (best ∷ others) model ok some_model e = (best, others, refl)

  -- Where there is a candidate, the ranking has a first model.
  pub ranked_first :
      (sort : Sort F) (o : ThreePillarOptimizer F) (store : ProfileStore F) (req : RankRequest F)
      (model : String)
      → Sorts (scores_higher F) sort
      → 1 ≤ count model req.candidates
      → (best : ModelScore F) × (others : List (ModelScore F)) × (rank_models F sort o store req
          ≡ best ∷ others)
  unfolding rank_models score_each
  ranked_first sort o store req model ok some_model =
      ranked_some sort req.candidates
        (λ key. score_known F o req (weights_for F o req) key (get F store key))
        (sort (score_each F o store req)) model ok some_model refl

  counted_head : (models : List String) → 1 ≤ length models → (m : String) × (1 ≤ count m models)
  counted_head [] h = absurd (omega (arith, h))
  counted_head (m ∷ models) h = (m, ground (arith, eq_refl m))

  -- The merged lists hold a model, since every class has a preferred one.
  pub candidate_exists :
      (task_type : String) (lists : List (List String))
      → (m : String) × (1 ≤ count m (merge_candidates (get_preferred_models F task_type ∷ lists)))
  candidate_exists task_type lists =
      let preferred = get_preferred_models F task_type in
      let (m, h) = counted_head preferred (preferred_exists task_type) in
      (
        m,
        offered-merged (preferred ∷ lists) m
            (omega (arith, h, count-append m preferred (concat lists))),
      )
