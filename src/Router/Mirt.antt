-- ===== src/Router/Mirt.antt =====
-- plugins/intelligentrouter/mirt.go: models scored by the difficulty of a prompt. A `[25]float64` is
-- a function of its index, of which the code reads the first 25.
pub mod Scored
use argis_extensions.Prelude.{
  ℕ, zero, suc, ◌/◌, String, Bool, Option, none, some, List, [], ◌∷◌, if◌then◌else◌, ◌==◌, get_or,
}
use argis_extensions.Prelude.Int.{pos}
use argis_extensions.Prelude.Assoc.{Dict, lookup, insert}
use argis_extensions.Prelude.Float.{Float64}
use argis_extensions.Router.{contains_string}
use Prim.Native.String.{len}

abbrev pub Vector25 : Float64 → Type 0
Vector25 F = ℕ → F.Carrier

pub record FeatureExtractor (F : Float64) : Type 0 where
  pub cache : Dict (Vector25 F)

pub record MirtClient (F : Float64) : Type 0 where
  pub model_abilities : Dict (Vector25 F)
  pub feature_extractor : FeatureExtractor F

unfoldable pub count_words : String → ℕ
count_words s = len s / 5

unfoldable pub count_sentences : String → ℕ
count_sentences s = len s / 50

module _ (F : Float64) where
  abbrev pub new_feature_extractor : FeatureExtractor F
  new_feature_extractor = record { cache = [] }

  abbrev pub new_mirt_client : MirtClient F
  new_mirt_client = record { model_abilities = []; feature_extractor = new_feature_extractor }

  unfoldable pub bool_to_float : Bool → F.Carrier
  bool_to_float b = if b then F.of_int (pos 1) else F.of_int (pos 0)

  unfoldable pub compute_features : String → Vector25 F
  compute_features query i =
      if i == 0
      then F.div (F.of_int (pos (len query))) (F.of_int (pos 10_000))
      else if i == 1
      then F.div (F.of_int (pos (count_words query))) (F.of_int (pos 500))
      else if i == 2
      then F.div (F.of_int (pos (count_sentences query))) (F.of_int (pos 50))
      else if i == 5
      then bool_to_float (contains_string query "```")
      else if i == 6
      then bool_to_float (contains_string query "function")
      else if i == 7
      then bool_to_float (contains_string query "explain")
      else if i == 10
      then bool_to_float (contains_string query "math")
      else if i == 11
      then bool_to_float (contains_string query "code")
      else if i == 12
      then bool_to_float (contains_string query "write")
      else F.of_int (pos 0)

  unfoldable pub found_or_computed :
      String → FeatureExtractor F → Option (Vector25 F) → Vector25 F × FeatureExtractor F
  found_or_computed query fe (some cached) = (cached, fe)
  found_or_computed query fe none =
      let features = compute_features query in
      (features, record fe { cache = insert query features fe.cache })

  unfoldable pub extract_difficulty : String → FeatureExtractor F → Vector25 F × FeatureExtractor F
  extract_difficulty query fe = found_or_computed query fe (lookup query fe.cache)

  -- The loop that sums, over the first so many indices.
  unfoldable pub sum_up_to : ℕ → Vector25 F → Vector25 F → F.Carrier
  sum_up_to zero ability difficulty = F.of_int (pos 0)
  sum_up_to (suc i) ability difficulty =
      F.add (sum_up_to i ability difficulty) (F.sub (ability i) (difficulty i))

  unfoldable pub irt_score : Vector25 F → Vector25 F → F.Carrier
  irt_score ability difficulty =
      let sum = sum_up_to 25 ability difficulty in
      let one = F.of_int (pos 1) in
      F.div one (F.add one (F.exp (F.div (F.sub (F.of_int (pos 0)) sum) (F.of_int (pos 25)))))

  abbrev pub default_ability : Vector25 F
  default_ability i = F.ratio 5 10

  -- The loop over the candidates, with the scores so far.
  unfoldable pub score_candidates :
      Dict (Vector25 F) → Vector25 F → List String → Dict F.Carrier → Dict F.Carrier
  score_candidates abilities difficulty [] scores = scores
  score_candidates abilities difficulty (model ∷ candidates) scores =
      let ability = get_or default_ability (lookup model abilities) in
      score_candidates abilities difficulty candidates
        (insert model (irt_score ability difficulty) scores)

  unfoldable pub score : String → List String → MirtClient F → Dict F.Carrier × MirtClient F
  score query candidates m =
      let (difficulty, fe) = extract_difficulty query m.feature_extractor in
      (
        score_candidates m.model_abilities difficulty candidates [],
        record m { feature_extractor = fe },
      )

  unfoldable pub load_abilities : Dict (Vector25 F) → MirtClient F → MirtClient F
  load_abilities abilities m = record m { model_abilities = abilities }
