-- ===== src/Learning/Tiered.antt =====
-- plugins/learning/tiered.go: what each scope has learned, and the model that the scopes prefer.
-- The maps hold pointers that no two of them share, so a scope is a value of its map. The
-- embeddings of events, which only a search reads, are left out.
pub mod Record
pub mod Stores
pub mod Everywhere
pub mod Avoided
pub mod Recorded
pub mod Prefer
pub mod Answers
pub mod ColdStart
use argis_extensions.Prelude.{
  ℕ, String, Bool, true, false, Option, none, some, List, [], ◌∷◌, snoc, str_eq, if◌then◌else◌, not,
  ◌&&◌, ◌||◌, ltb, suc,
}
use argis_extensions.Prelude.Int.{ℤ, pos, inc, ltb_ℤ}
use argis_extensions.Prelude.Assoc.{Dict, lookup, insert}
use argis_extensions.Prelude.Float.{Float64}
use argis_extensions.Learning.{
  LearningScope, scope_request, scope_prompt_chain, scope_session, scope_project, scope_user,
  scope_global, EpisodicEvent, EmotionalState, BehaviorPattern, zero_float, one_float, ema,
}

pub record ScopedLearning (F : Float64) : Type 0 where
  pub scope_id : String
  pub scope : LearningScope
  pub created_at : ℕ
  pub updated_at : ℕ
  pub total_requests : ℤ
  pub success_rate : F.Carrier
  pub avg_latency_ms : F.Carrier
  pub total_cost_usd : F.Carrier
  pub avg_quality_score : F.Carrier
  pub model_preferences : Dict F.Carrier
  pub task_type_prefs : Dict String
  pub avoid_models : List String
  pub emotional_history : List (EmotionalState F)
  pub frustration_trend : F.Carrier
  pub behavior_patterns : List (BehaviorPattern F)

pub record TieredConfig : Type 0 where
  pub request_cache_ttl : ℤ
  pub prompt_chain_ttl : ℤ
  pub session_ttl : ℤ
  pub aggregation_interval : ℤ
  pub min_samples_for_pref : ℤ
  pub enable_embeddings : Bool
  pub voyage_api_key : String

abbrev pub default_tiered_config : TieredConfig
default_tiered_config = record {
  request_cache_ttl = pos 300_000_000_000;
  prompt_chain_ttl = pos 1_800_000_000_000;
  session_ttl = pos 86_400_000_000_000;
  aggregation_interval = pos 300_000_000_000;
  min_samples_for_pref = pos 10;
  enable_embeddings = false;
  voyage_api_key = "";
}

pub record TieredLearningSystem (F : Float64) : Type 0 where
  pub request_cache : Dict (EpisodicEvent F)
  pub prompt_chains : Dict (ScopedLearning F)
  pub sessions : Dict (ScopedLearning F)
  pub projects : Dict (ScopedLearning F)
  pub users : Dict (ScopedLearning F)
  pub global : ScopedLearning F
  pub config : TieredConfig

-- A value of a `context.Context`: a string, or something else.
pub data ContextValue : Type 0 where
  string_value : String → ContextValue
  other_value : ContextValue

abbrev pub Context : Type 0
Context = String → Option ContextValue

unfoldable pub extract_context_value : Context → String → String
extract_context_value ctx key = elim (ctx key) [
  | some (string_value s) ↦ s
  | some other_value ↦ ""
  | none ↦ ""
]

module _ (F : Float64) where
  unfoldable pub new_scoped_learning : ℕ → LearningScope → String → ScopedLearning F
  new_scoped_learning now scope scope_id = record {
    scope_id = scope_id;
    scope = scope;
    created_at = now;
    updated_at = now;
    total_requests = pos 0;
    success_rate = zero_float F;
    avg_latency_ms = zero_float F;
    total_cost_usd = zero_float F;
    avg_quality_score = zero_float F;
    model_preferences = [];
    task_type_prefs = [];
    avoid_models = [];
    emotional_history = [];
    frustration_trend = zero_float F;
    behavior_patterns = [];
  }

  unfoldable pub new_tiered_learning_system : ℕ → Option TieredConfig → TieredLearningSystem F
  new_tiered_learning_system now config = record {
    request_cache = [];
    prompt_chains = [];
    sessions = [];
    projects = [];
    users = [];
    global = new_scoped_learning now scope_global "global";
    config = elim config [ none ↦ default_tiered_config | some c ↦ c ];
  }

  -- Go's `m[key]` on a map to numbers and on a map to strings.
  abbrev pub number_at : String → Dict F.Carrier → F.Carrier
  number_at key d = elim (lookup key d) [ none ↦ zero_float F | some x ↦ x ]

  unfoldable pub count_of : String → List String → ℕ
  count_of model [] = 0
  count_of model (m ∷ ms) =
      let rest = count_of model ms in if str_eq m model then suc rest else rest

  unfoldable pub event_score : EpisodicEvent F → F.Carrier
  event_score event =
      let base = F.ratio 5 10 in
      let score = if event.success then F.add base (F.ratio 2 10) else base in
      if F.lt (zero_float F) event.quality_score
      then F.add score (F.mul (F.ratio 3 10) event.quality_score)
      else score

  unfoldable pub update_model_preference : ScopedLearning F → EpisodicEvent F → ScopedLearning F
  update_model_preference sl event =
      let current = number_at event.model sl.model_preferences in
      let updated = ema F current (event_score event) (F.ratio 1 10) in
      let sl = record sl { model_preferences = insert event.model updated sl.model_preferences } in
      if not event.success
        && ltb 2 (count_of event.model sl.avoid_models)
        && F.lt updated (F.ratio 3 10)
      then record sl { avoid_models = snoc sl.avoid_models event.model }
      else sl

  abbrev pub string_at : String → Dict String → String
  string_at key d = elim (lookup key d) [ none ↦ "" | some m ↦ m ]

  -- `existing, ok := d[key]; !ok || model != existing`.
  unfoldable pub is_other : String → Option String → Bool
  is_other model none = true
  is_other model (some existing) = not (str_eq model existing)

  unfoldable pub update_task_pref : ScopedLearning F → EpisodicEvent F → ScopedLearning F
  update_task_pref sl event =
      if not (str_eq event.task_type "")
        && event.success
        && F.lt (F.ratio 7 10) event.quality_score
        && is_other event.model (lookup event.task_type sl.task_type_prefs)
        && F.lt (number_at (string_at event.task_type sl.task_type_prefs) sl.model_preferences)
            (number_at event.model sl.model_preferences)
      then record sl { task_type_prefs = insert event.task_type event.model sl.task_type_prefs }
      else sl

  -- The body of `updateScope` on the scope that `getOrCreateScope` answers.
  unfoldable pub learn : ℕ → EpisodicEvent F → ScopedLearning F → ScopedLearning F
  learn now event sl =
      let alpha = F.ratio 1 10 in
      let outcome = if event.success then one_float F else zero_float F in
      let quality =
        if F.lt (zero_float F) event.quality_score
        then ema F sl.avg_quality_score event.quality_score alpha
        else sl.avg_quality_score in
      let sl = record sl {
        total_requests = inc sl.total_requests;
        updated_at = now;
        success_rate = ema F sl.success_rate outcome alpha;
        avg_latency_ms = ema F sl.avg_latency_ms event.latency_ms alpha;
        avg_quality_score = quality;
        total_cost_usd = F.add sl.total_cost_usd event.cost_usd;
      } in
      update_task_pref (update_model_preference sl event) event
