-- ===== src/Router/ArchRouter/Blind.antt =====
-- plugins/intelligentrouter/arch_router.go: what the classification says of a prompt.
use argis_extensions.Prelude.{
  ℕ, ◌<◌, ◌≡◌, refl, ◌∙◌, subst, String, some, List, [], ◌∷◌, arith, Option-cases, inl, inr,
}
use argis_extensions.Prelude.Assoc.{lookup, insert_found}
use argis_extensions.Prelude.Float.{Float64}
use argis_extensions.Router.{contains_string, mentions}
use argis_extensions.Router.ArchRouter.{
  ArchRouterClassification, ArchRouterClient, action_of, new_arch_router_client, heuristic_classify,
  classify_prompt,
}
use Prim.Native.String.{len}

module _ (F : Float64) where
  -- The client after a run of classifications, each with its latency.
  unfoldable pub classify_all : List (ℕ × String) → ArchRouterClient F → ArchRouterClient F
  classify_all [] c = c
  classify_all ((elapsed, prompt) ∷ earlier) c =
      classify_all earlier (classify_prompt F elapsed prompt c).1

  abbrev pub Agrees : String → ArchRouterClassification F → Type 0
  Agrees prompt a =
      (a.domain ≡ (heuristic_classify F prompt).domain)
      × (a.action ≡ (heuristic_classify F prompt).action)

  abbrev pub IsHonest : ArchRouterClient F → Type 0
  IsHonest c =
      (prompt : String) (a : ArchRouterClassification F)
      → lookup prompt c.cache ≡ some a
      → Agrees prompt a

  classify_prompt-Agrees :
      (elapsed : ℕ) (prompt : String) (c : ArchRouterClient F)
      → IsHonest c
      → Agrees prompt (classify_prompt F elapsed prompt c).0
  unfolding classify_prompt
  classify_prompt-Agrees elapsed prompt c h = elim (Option-cases (lookup prompt c.cache)) [
    | inl e ↦ rw (e, classify_prompt) (refl, refl)
    | inr (a, e) ↦ rw (e, classify_prompt) (h prompt a e)
  ]

  classify_prompt-IsHonest :
      (elapsed : ℕ) (prompt : String) (c : ArchRouterClient F)
      → IsHonest c
      → IsHonest (classify_prompt F elapsed prompt c).1
  unfolding classify_prompt
  classify_prompt-IsHonest elapsed prompt c h asked a found =
      elim (insert_found prompt asked _ a c.cache found) [
        | inl (e, same) ↦
            subst (λ x. Agrees asked x) same
              (subst (λ x. Agrees x (classify_prompt F elapsed prompt c).0) e
                (classify_prompt-Agrees elapsed prompt c h))
        | inr e ↦ h asked a e
      ]

  classify_all-IsHonest :
      (earlier : List (ℕ × String)) (c : ArchRouterClient F)
      → IsHonest c
      → IsHonest (classify_all earlier c)
  unfolding classify_all
  classify_all-IsHonest [] c h = h
  classify_all-IsHonest ((elapsed, prompt) ∷ earlier) c h =
      classify_all-IsHonest earlier _ (classify_prompt-IsHonest elapsed prompt c h)

  heuristic_blind :
      (prompt : String)
      → 0 < len prompt
      → ((heuristic_classify F prompt).domain ≡ "programming")
        × ((heuristic_classify F prompt).action ≡ "code-generation")
  unfolding heuristic_classify mentions action_of contains_string
  heuristic_blind prompt h = ground (h, arith)

  -- Whatever a new client has classified before, each prompt that is not empty is classified as
  -- code generation in the domain of programming.
  pub all_programming :
      (endpoint model : String) (earlier : List (ℕ × String)) (elapsed : ℕ) (prompt : String)
      → 0 < len prompt
      → ((classify_prompt F elapsed prompt
            (classify_all earlier (new_arch_router_client F endpoint model))).0.domain
          ≡ "programming")
        × ((classify_prompt F elapsed prompt
              (classify_all earlier (new_arch_router_client F endpoint model))).0.action
            ≡ "code-generation")
  unfolding new_arch_router_client lookup
  all_programming endpoint model earlier elapsed prompt h =
      let c = new_arch_router_client F endpoint model in
      let honest = classify_all-IsHonest earlier c (λ p a found. ground (found, arith)) in
      let agrees = classify_prompt-Agrees elapsed prompt _ honest in
      let blind = heuristic_blind prompt h in (agrees.0 ∙ blind.0, agrees.1 ∙ blind.1)
