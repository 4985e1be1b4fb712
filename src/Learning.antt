-- ===== src/Learning.antt =====
-- plugins/learning: the events that a scope learns from, and the moving average of
-- model_profile.go. Instants are natural numbers.
pub mod Tiered
pub mod Profiles
pub mod Optimizer
pub mod Tracker
pub mod Patterns
mod Tests
use argis_extensions.Prelude.{ℕ, String, Bool, List, if◌then◌else◌}
use argis_extensions.Prelude.Int.{ℤ, pos}
use argis_extensions.Prelude.Float.{Float64}

pub data LearningScope : Type 0 where
  scope_request : LearningScope
  scope_prompt_chain : LearningScope
  scope_session : LearningScope
  scope_project : LearningScope
  scope_user : LearningScope
  scope_global : LearningScope

pub record EpisodicEvent (F : Float64) : Type 0 where
  pub id : String
  pub scope : LearningScope
  pub scope_id : String
  pub timestamp : ℕ
  pub task_type : String
  pub complexity : F.Carrier
  pub model : String
  pub provider : String
  pub success : Bool
  pub latency_ms : F.Carrier
  pub cost_usd : F.Carrier
  pub quality_score : F.Carrier
  pub emotional_state : String
  pub toxicity_score : F.Carrier
  pub frustration_level : F.Carrier
  pub patterns : List String

pub record EmotionalState (F : Float64) : Type 0 where
  pub timestamp : ℕ
  pub dominant_emotion : String
  pub toxicity_score : F.Carrier
  pub frustration : F.Carrier

pub record BehaviorPattern (F : Float64) : Type 0 where
  pub pattern : String
  pub confidence : F.Carrier
  pub first_seen : ℕ
  pub last_seen : ℕ
  pub occurrences : ℤ

module _ (F : Float64) where
  abbrev pub zero_float : F.Carrier
  zero_float = F.of_int (pos 0)

  abbrev pub one_float : F.Carrier
  one_float = F.of_int (pos 1)

  unfoldable pub ema : F.Carrier → F.Carrier → F.Carrier → F.Carrier
  ema current new_value alpha =
      if F.eq current zero_float
      then new_value
      else F.add (F.mul alpha new_value) (F.mul (F.sub one_float alpha) current)
