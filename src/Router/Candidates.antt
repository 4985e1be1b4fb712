-- ===== src/Router/Candidates.antt =====
-- plugins/intelligentrouter/decision.go: the lists of candidate models, and the provider of a model.
-- `strings.ToLower` is the parameter `to_lower`, the SDK's providers the parameters in `Providers`, of which
-- `unset` is the empty text.
pub mod Merged
pub mod Cheaper
pub mod Alternatives
use argis_extensions.Prelude.{
  ℕ, suc, String, Bool, true, false, Option, none, some, List, [], ◌∷◌, ◌++◌, snoc, length, str_eq,
  if◌then◌else◌, not, ◌||◌,
}
use argis_extensions.Prelude.Int.{ℤ, pos, leb_ℤ}
use argis_extensions.Prelude.Assoc.{Dict, lookup, insert}
use argis_extensions.Router.{has_part}

-- The models seen so far, and the result so far.
pub record Merge : Type 0 where
  pub seen : Dict Bool
  pub result : List String

unfoldable pub is_seen : String → Dict Bool → Bool
is_seen model seen = elim (lookup model seen) [ some b ↦ b | none ↦ false ]

unfoldable pub merge_model : String → Merge → Merge
merge_model model m =
    if not (is_seen model m.seen)
    then record { seen = insert model true m.seen; result = snoc m.result model }
    else m

unfoldable pub merge_list : List String → Merge → Merge
merge_list [] m = m
merge_list (model ∷ models) m = merge_list models (merge_model model m)

unfoldable pub merge_lists : List (List String) → Merge → Merge
merge_lists [] m = m
merge_lists (list ∷ lists) m = merge_lists lists (merge_list list m)

unfoldable pub merge_candidates : List (List String) → List String
merge_candidates lists = (merge_lists lists (record { seen = []; result = [] })).result

-- The loop of `getAlternatives`, with the alternatives found so far.
unfoldable pub alternatives_from : List String → String → ℤ → List String → List String
alternatives_from [] selected max alts = alts
alternatives_from (m ∷ candidates) selected max alts =
    let rest = alternatives_from candidates selected max in
    if not (str_eq m selected)
    then (if leb_ℤ max (pos (length (snoc alts m))) then snoc alts m else rest (snoc alts m))
    else rest alts

unfoldable pub get_alternatives : List String → String → ℤ → List String
get_alternatives candidates selected max = alternatives_from candidates selected max []

pub record Providers : Type 1 where
  pub ModelProvider : Type 0
  pub unset : ModelProvider
  pub anthropic : ModelProvider
  pub openai : ModelProvider
  pub gemini : ModelProvider
  pub mistral : ModelProvider
  pub bedrock : ModelProvider

module _ (to_lower : String → String) where
  unfoldable pub is_cheap : String → Bool
  is_cheap m =
      has_part (to_lower m) "mini"
      || has_part (to_lower m) "haiku"
      || has_part (to_lower m) "flash"
      || has_part (to_lower m) "3.5"

  unfoldable pub split_cheap : List String → List String × List String → List String × List String
  split_cheap [] lists = lists
  split_cheap (m ∷ candidates) (cheap, expensive) =
      split_cheap candidates
        (if is_cheap m then (snoc cheap m, expensive) else (cheap, snoc expensive m))

  unfoldable pub prefer_cheaper_models : List String → List String
  prefer_cheaper_models candidates =
      let lists = split_cheap candidates ([], []) in lists.0 ++ lists.1

  unfoldable pub infer_provider : (P : Providers) → String → P.ModelProvider
  infer_provider P model =
      let lower = to_lower model in
      if has_part lower "claude"
      then P.anthropic
      else if has_part lower "gpt" || has_part lower "o1"
      then P.openai
      else if has_part lower "gemini"
      then P.gemini
      else if has_part lower "mistral"
      then P.mistral
      else if has_part lower "llama"
      then P.bedrock
      else P.openai
