-- ===== src/Router/Candidates/Merged.antt =====
-- plugins/intelligentrouter/decision.go: what mergeCandidates keeps.
use argis_extensions.Prelude.{
  ◌+◌, ◌≤◌, ◌≡◌, refl, ◌∙◌, min, String, true, List, [], ◌∷◌, snoc, count, count-append, concat,
  arith, str_eq, eq_iff, if◌then◌else◌, ltb,
}
use argis_extensions.Prelude.Assoc.{lookup, insert, lookup-insert}
use argis_extensions.Router.Candidates.{
  Merge, is_seen, merge_model, merge_list, merge_lists, merge_candidates,
}

-- Every model of the result is marked as seen, no other is, and each is there once.
abbrev pub IsMerged : Merge → Type 0
IsMerged m =
    (asked : String)
    → (is_seen asked m.seen ≡ ltb 0 (count asked m.result)) × (count asked m.result ≤ 1)

is_seen-insert :
    (model asked : String) (m : Merge)
    → is_seen asked (insert model true m.seen)
      ≡ (if str_eq model asked then true else is_seen asked m.seen)
unfolding is_seen
is_seen-insert model asked m = rw (is_seen, lookup-insert model asked true m.seen) (ground arith)

count-snoc :
    (asked model : String) (xs : List String)
    → count asked (snoc xs model) ≡ count asked xs + (if str_eq model asked then 1 else 0)
count-snoc asked model xs = count-append asked xs (model ∷ [])

merge_model-count :
    (model asked : String) (m : Merge)
    → IsMerged m
    → count asked (merge_model model m).result
      ≡ min 1 (count asked m.result + (if str_eq model asked then 1 else 0))
unfolding merge_model
merge_model-count model asked m h =
    ground (arith, h asked, h model, eq_iff model asked, count-snoc asked model m.result)

merge_model-IsMerged : (model : String) (m : Merge) → IsMerged m → IsMerged (merge_model model m)
unfolding merge_model
merge_model-IsMerged model m h asked = ground (
  arith,
  h asked,
  h model,
  eq_iff model asked,
  count-snoc asked model m.result,
  is_seen-insert model asked m,
)

merge_list-IsMerged :
    (models : List String) (m : Merge) → IsMerged m → IsMerged (merge_list models m)
unfolding merge_list
merge_list-IsMerged [] m h = h
merge_list-IsMerged (model ∷ models) m h =
    merge_list-IsMerged models (merge_model model m) (merge_model-IsMerged model m h)

merge_list-count :
    (models : List String) (asked : String) (m : Merge)
    → IsMerged m
    → count asked (merge_list models m).result ≡ min 1 (count asked m.result + count asked models)
unfolding merge_list
merge_list-count [] asked m h = omega (arith, (h asked).1)
merge_list-count (model ∷ models) asked m h = ground (
  arith,
  merge_model-count model asked m h,
  merge_list-count models asked (merge_model model m) (merge_model-IsMerged model m h),
)

merge_lists-count :
    (lists : List (List String)) (asked : String) (m : Merge)
    → IsMerged m
    → count asked (merge_lists lists m).result
      ≡ min 1 (count asked m.result + count asked (concat lists))
unfolding merge_lists
merge_lists-count [] asked m h = omega (arith, (h asked).1)
merge_lists-count (list ∷ lists) asked m h = omega (
  arith,
  merge_list-count list asked m h,
  count-append asked list (concat lists),
  merge_lists-count lists asked (merge_list list m) (merge_list-IsMerged list m h),
)

-- Each model of the lists is a candidate once, however often they name it, and no other is.
pub merged_once :
    (lists : List (List String)) (asked : String)
    → count asked (merge_candidates lists) ≡ min 1 (count asked (concat lists))
unfolding merge_candidates is_seen lookup
merged_once lists asked =
    merge_lists-count lists asked (record { seen = []; result = [] }) (λ s. (refl, omega arith))
    ∙ omega arith
