-- ===== src/Learning/Patterns.antt =====
-- plugins/learning/patterns.go: patterns of tasks detected in the tracker's statistics, and rules made
-- of them. The Metadata of a pattern is written and never read, and is left out; the order in which
-- a range visits a map is that of the entries. UUIDs are given by the place they are drawn at, and the time to live is not negative.
pub mod Rules
mod Tests
use argis_extensions.Prelude.{
  ℕ, ◌+◌, String, Bool, true, false, Option, none, some, List, [], ◌∷◌, snoc, length, map, filter,
  str_eq, if◌then◌else◌, ◌&&◌, not, get_or, ltb,
}
use argis_extensions.Prelude.Int.{ℤ, pos}
use argis_extensions.Prelude.Assoc.{Dict, lookup, insert}
use argis_extensions.Prelude.Float.{Float64}
use argis_extensions.Learning.{zero_float}
use argis_extensions.Learning.Tracker.{PerformanceStats}

pub record Pattern (F : Float64) : Type 0 where
  pub id : String
  pub task_type : String
  pub preferred_models : List String
  pub confidence : F.Carrier
  pub frequency : ℕ
  pub success_rate : F.Carrier
  pub avg_quality : F.Carrier

pub record GeneratedRule (F : Float64) : Type 0 where
  pub id : String
  pub task_type : String
  pub preferred_models : List String
  pub fallback_models : List String
  pub confidence : F.Carrier
  pub success_rate : F.Carrier
  pub generated_at : ℕ
  pub valid_until : ℕ
  pub source : String

pub record RuleGenerator (F : Float64) : Type 0 where
  pub rules : Dict (GeneratedRule F)
  pub min_confidence : F.Carrier
  pub rule_ttl : ℕ

module _ (F : Float64) where
  -- The entries of the map of stats, in groups by their task type.
  unfoldable pub group_by_task :
      List (PerformanceStats F)
      → Dict (List (PerformanceStats F))
      → Dict (List (PerformanceStats F))
  group_by_task [] groups = groups
  group_by_task (s ∷ stats) groups = group_by_task stats (
      if str_eq s.task_type ""
      then groups
      else insert s.task_type (snoc (get_or [] (lookup s.task_type groups)) s) groups)

  unfoldable pub is_good : PerformanceStats F → Bool
  is_good s = F.lt (F.ratio 8 10) s.success_rate && F.lt (F.ratio 7 10) s.avg_quality_score

  unfoldable pub total_of :
      (PerformanceStats F → F.Carrier) → List (PerformanceStats F) → F.Carrier → F.Carrier
  total_of field [] total = total
  total_of field (s ∷ stats) total = total_of field stats (F.add total (field s))

  unfoldable pub pattern_of : String → String → ℕ → List (PerformanceStats F) → Option (Pattern F)
  pattern_of id task_type frequency [] = none
  pattern_of id task_type frequency (best ∷ others) =
      let count = F.of_int (pos (length (best ∷ others))) in
      let success = F.div (total_of (λ s. s.success_rate) (best ∷ others) (zero_float F)) count in
      let quality =
        F.div (total_of (λ s. s.avg_quality_score) (best ∷ others) (zero_float F)) count in
      some (record {
        id = id;
        task_type = task_type;
        preferred_models = map (λ s. s.model_name) (best ∷ others);
        confidence = F.div (F.add success quality) (F.of_int (pos 2));
        frequency = frequency;
        success_rate = success;
        avg_quality = quality;
      })

  unfoldable pub detect_task_pattern :
      String → String → List (PerformanceStats F) → Option (Pattern F)
  detect_task_pattern id task_type stats =
      pattern_of id task_type (length stats) (filter is_good stats)

  -- The loop over the groups, with the patterns of the detector. `ids` gives the UUID of a task's
  -- pattern.
  unfoldable pub detect_groups :
      (String → String)
      → Dict (List (PerformanceStats F))
      → Dict (Pattern F)
      → List (Pattern F) × Dict (Pattern F)
  detect_groups ids [] patterns = ([], patterns)
  detect_groups ids ((task_type, stats) ∷ groups) patterns =
      elim (detect_task_pattern (ids task_type) task_type stats) [
        | none ↦ detect_groups ids groups patterns
        | some p ↦
            let (found, after) = detect_groups ids groups (insert task_type p patterns) in
            (p ∷ found, after)
      ]

  unfoldable pub detect_patterns :
      (String → String)
      → List (PerformanceStats F)
      → Dict (Pattern F)
      → List (Pattern F) × Dict (Pattern F)
  detect_patterns ids stats patterns = detect_groups ids (group_by_task stats []) patterns

  unfoldable pub new_rule_generator : F.Carrier → ℕ → RuleGenerator F
  new_rule_generator min_confidence rule_ttl = record {
    rules = [];
    min_confidence = min_confidence;
    rule_ttl = if ltb 0 rule_ttl then rule_ttl else 86_400_000_000_000;
  }

  -- `now` is the reading of the clock for GeneratedAt, `now'` the one for ValidUntil.
  unfoldable pub rule_from : (String → String) → ℕ → ℕ → ℕ → Pattern F → GeneratedRule F
  rule_from ids now now' ttl p = record {
    id = ids p.task_type;
    task_type = p.task_type;
    preferred_models = p.preferred_models;
    fallback_models = [];
    confidence = p.confidence;
    success_rate = p.success_rate;
    generated_at = now;
    valid_until = now' + ttl;
    source = "pattern_detection";
  }

  -- The loop over the patterns. `clock` gives the readings of the clock by their number, and `n` of
  -- them have been taken before.
  unfoldable pub generate_from :
      (String → String)
      → (ℕ → ℕ)
      → ℕ
      → List (Pattern F)
      → RuleGenerator F
      → List (GeneratedRule F) × RuleGenerator F
  generate_from ids clock n [] rg = ([], rg)
  generate_from ids clock n (p ∷ patterns) rg =
      let rule = rule_from ids (clock n) (clock (n + 1)) rg.rule_ttl p in
      let made =
        generate_from ids clock (n + 2) patterns
          (record rg { rules = insert p.task_type rule rg.rules }) in
      let skipped = generate_from ids clock n patterns rg in
      if F.le rg.min_confidence p.confidence then (rule ∷ made.0, made.1) else skipped

  -- The patterns of the detector are those of its map.
  unfoldable pub generate_rules :
      (String → String)
      → (ℕ → ℕ)
      → Dict (Pattern F)
      → RuleGenerator F
      → List (GeneratedRule F) × RuleGenerator F
  generate_rules ids clock patterns rg =
      generate_from ids clock 0 (map (λ entry. entry.1) patterns) rg

  unfoldable pub unexpired : ℕ → Option (GeneratedRule F) → Option (GeneratedRule F)
  unexpired now none = none
  unexpired now (some rule) = if ltb rule.valid_until now then none else some rule

  unfoldable pub get_generated_rule : ℕ → String → RuleGenerator F → Option (GeneratedRule F)
  get_generated_rule now task_type rg = unexpired now (lookup task_type rg.rules)

  unfoldable pub clear_rules : RuleGenerator F → RuleGenerator F
  clear_rules rg = record rg { rules = [] }
