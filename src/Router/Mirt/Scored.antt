-- ===== src/Router/Mirt/Scored.antt =====
-- plugins/intelligentrouter/mirt.go: the scores against the abilities that are loaded.
use argis_extensions.Prelude.{
  ◌≡◌, refl, sym, ap, ◌∙◌, inl, inr, String, Option, none, some, List, [], ◌∷◌, if◌then◌else◌,
  str_eq, eq_iff, get_or, Bool-cases, arith,
}
use argis_extensions.Prelude.Assoc.{Dict, lookup, insert, lookup-insert, insert_found}
use argis_extensions.Prelude.Float.{Float64}
use argis_extensions.Learning.Tiered.Prefer.{contains}
use argis_extensions.Router.Mirt.{
  Vector25, FeatureExtractor, MirtClient, new_mirt_client, compute_features, extract_difficulty,
  found_or_computed, irt_score, default_ability, score_candidates, score, load_abilities,
}

module _ (F : Float64) where
  abbrev pub ability_of : Dict (Vector25 F) → String → Vector25 F
  ability_of abilities model = get_or (default_ability F) (lookup model abilities)

  -- A client that has scored some queries.
  abbrev pub score_all : List (String × List String) → MirtClient F → MirtClient F
  score_all [] m = m
  score_all (q ∷ queries) m = score_all queries (score F q.0 q.1 m).1

  -- The cache holds the features of its queries.
  abbrev pub IsCached : FeatureExtractor F → Type 0
  IsCached fe =
      (query : String) (v : Vector25 F)
      → lookup query fe.cache ≡ some v
      → v ≡ compute_features F query

  -- What an extraction answers, and that the cache stays right.
  extracted :
      (query : String) (fe : FeatureExtractor F) (known : Option (Vector25 F))
      → IsCached fe
      → lookup query fe.cache ≡ known
      → ((found_or_computed F query fe known).0 ≡ compute_features F query)
        × IsCached (found_or_computed F query fe known).1
  unfolding found_or_computed
  extracted query fe (some v) h e = (h query v e, h)
  extracted query fe none h e = (refl, later)
    where
      later : IsCached (record fe { cache = insert query (compute_features F query) fe.cache })
      later asked v found =
          elim (insert_found query asked (compute_features F query) v fe.cache found) [
            | inl (same, value) ↦ sym value ∙ ap (compute_features F) same
            | inr old ↦ h asked v old
          ]

  score_all-keeps :
      (queries : List (String × List String)) (m : MirtClient F)
      → IsCached m.feature_extractor
      → IsCached (score_all queries m).feature_extractor
        × ((score_all queries m).model_abilities ≡ m.model_abilities)
  unfolding score extract_difficulty
  score_all-keeps [] m h = (h, refl)
  score_all-keeps (q ∷ queries) m h =
      score_all-keeps queries (score F q.0 q.1 m).1
        (extracted q.0 m.feature_extractor (lookup q.0 m.feature_extractor.cache) h refl).1

  score_candidates-lookup :
      (abilities : Dict (Vector25 F)) (difficulty : Vector25 F) (candidates : List String)
      (scores : Dict F.Carrier) (model : String)
      → lookup model (score_candidates F abilities difficulty candidates scores) ≡ (
          if contains F candidates model
          then some (irt_score F (ability_of abilities model) difficulty)
          else lookup model scores)
  unfolding score_candidates contains
  score_candidates-lookup abilities difficulty [] scores model = refl
  score_candidates-lookup abilities difficulty (c ∷ candidates) scores model =
      score_candidates-lookup abilities difficulty candidates _ model
      ∙ elim (Bool-cases (str_eq c model)) [
        | inl e ↦
            rw
              (e, lookup-insert c model (irt_score F (ability_of abilities c) difficulty) scores, e)
              (rw ((eq_iff c model).0 e) (ground arith))
        | inr e ↦
            rw
              (e, lookup-insert c model (irt_score F (ability_of abilities c) difficulty) scores, e)
              refl
      ]

  -- Whatever a client has scored before, it scores exactly the candidates, each by the abilities
  -- loaded for it, or by 0.5 in each dimension where there are none, and by the features of the
  -- query: its cache never shows.
  pub scored_exactly :
      (abilities : Dict (Vector25 F)) (before : List (String × List String)) (query : String)
      (candidates : List String) (model : String)
      → lookup model
          (score F query candidates
            (score_all before (load_abilities F abilities (new_mirt_client F)))).0
        ≡ (if contains F candidates model
            then some (irt_score F (ability_of abilities model) (compute_features F query))
            else none)
  unfolding score extract_difficulty load_abilities lookup
  scored_exactly abilities before query candidates model =
      let start = load_abilities F abilities (new_mirt_client F) in
      let (cached, loaded) = score_all-keeps before start (λ q v e. ground (e, arith)) in
      let fe = (score_all before start).feature_extractor in
      let difficulty = (extracted query fe (lookup query fe.cache) cached refl).0 in
      ap (λ l. lookup model (score_candidates F l (extract_difficulty F query fe).0 candidates []))
        loaded
      ∙ ap (λ d. lookup model (score_candidates F abilities d candidates [])) difficulty
      ∙ score_candidates-lookup abilities (compute_features F query) candidates [] model
