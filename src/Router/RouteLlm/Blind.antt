-- ===== src/Router/RouteLlm/Blind.antt =====
-- plugins/intelligentrouter/routellm.go: what the score of a prompt depends on.
use argis_extensions.Prelude.{
  ◌<◌, ◌≡◌, refl, ◌∙◌, sym, subst, String, true, some, List, [], ◌∷◌, arith, Option-cases, inl, inr,
  ltb,
}
use argis_extensions.Prelude.Assoc.{lookup, insert_found}
use argis_extensions.Prelude.Float.{Float64}
use argis_extensions.Router.{contains_string, mentions}
use argis_extensions.Router.RouteLlm.{
  RouteLlmClient, code_indicators, math_indicators, new_route_llm_client, heuristic_score,
  score_prompt,
}
use Prim.Native.String.{len}

module _ (F : Float64) where
  -- The client after a run of questions.
  unfoldable pub score_all : List String → RouteLlmClient F → RouteLlmClient F
  score_all [] c = c
  score_all (prompt ∷ earlier) c = score_all earlier (score_prompt F prompt c).1

  abbrev pub IsHonest : RouteLlmClient F → Type 0
  IsHonest c =
      (prompt : String) (score : F.Carrier)
      → lookup prompt c.cache ≡ some score
      → score ≡ heuristic_score F prompt

  score_prompt_lem :
      (prompt : String) (c : RouteLlmClient F)
      → IsHonest c
      → (score_prompt F prompt c).0 ≡ heuristic_score F prompt
  unfolding score_prompt
  score_prompt_lem prompt c h = elim (Option-cases (lookup prompt c.cache)) [
    | inl e ↦ rw (e, score_prompt) refl
    | inr (score, e) ↦ rw (e, score_prompt) (h prompt score e)
  ]

  score_prompt-IsHonest :
      (prompt : String) (c : RouteLlmClient F) → IsHonest c → IsHonest (score_prompt F prompt c).1
  unfolding score_prompt
  score_prompt-IsHonest prompt c h = elim (Option-cases (lookup prompt c.cache)) [
    | inr (score, e) ↦ rw (e, score_prompt) h
    | inl e ↦
        rw (e, score_prompt)
          (λ asked score found. elim (insert_found prompt asked _ score c.cache found) [
            | inl (same, value) ↦
                sym value ∙ subst (λ x. heuristic_score F prompt ≡ heuristic_score F x) same refl
            | inr earlier ↦ h asked score earlier
          ])
  ]

  score_all-IsHonest :
      (earlier : List String) (c : RouteLlmClient F) → IsHonest c → IsHonest (score_all earlier c)
  unfolding score_all
  score_all-IsHonest [] c h = h
  score_all-IsHonest (prompt ∷ earlier) c h =
      score_all-IsHonest earlier _ (score_prompt-IsHonest prompt c h)

  code_mentioned : (p : String) → 0 < len p → mentions p code_indicators ≡ true
  unfolding mentions contains_string
  code_mentioned p h = ground (h, arith)

  math_mentioned : (p : String) → 0 < len p → mentions p math_indicators ≡ true
  unfolding mentions contains_string
  math_mentioned p h = ground (h, arith)

  heuristic_blind :
      (p q : String)
      → 0 < len p
      → 0 < len q
      → ltb 2000 (len p) ≡ ltb 2000 (len q)
      → heuristic_score F p ≡ heuristic_score F q
  unfolding heuristic_score
  heuristic_blind p q hp hq same =
      rw (same, code_mentioned p hp, code_mentioned q hq, math_mentioned p hp, math_mentioned q hq)
        refl

  -- Two prompts that are not empty, and are both longer than 2000 bytes or both not, get the same
  -- score from a client made by the same settings, whatever they say and whatever the client has
  -- scored before.
  pub scores_blind :
      (router : String) (threshold : F.Carrier) (earlier : List String) (p q : String)
      → 0 < len p
      → 0 < len q
      → ltb 2000 (len p) ≡ ltb 2000 (len q)
      → (score_prompt F p (score_all earlier (new_route_llm_client F router threshold))).0
        ≡ (score_prompt F q (score_all earlier (new_route_llm_client F router threshold))).0
  unfolding new_route_llm_client lookup
  scores_blind router threshold earlier p q hp hq same =
      let c = score_all earlier (new_route_llm_client F router threshold) in
      let honest =
        score_all-IsHonest earlier (new_route_llm_client F router threshold)
          (λ x a found. ground (found, arith)) in
      score_prompt_lem p c honest
      ∙ heuristic_blind p q hp hq same
      ∙ sym (score_prompt_lem q c honest)
