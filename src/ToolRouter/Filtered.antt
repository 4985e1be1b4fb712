-- ===== src/ToolRouter/Filtered.antt =====
-- plugins/toolrouter/routing.go: which tools applyProfile and filterTools leave, and in what order.
use argis_extensions.Prelude.{
  ℕ, suc, ◌≤◌, ◌≡◌, refl, ◌∙◌, ap, String, Bool, true, Option, some, List, [], ◌∷◌, ◌++◌, snoc,
  length, length-take, take, filter, count, append_assoc, append_nil, arith, str_eq, if◌then◌else◌,
  not, ◌&&◌, ltb, Bool-cases, inl, inr,
}
use argis_extensions.Prelude.Int.{pos, ltb_ℤ}
use argis_extensions.Prelude.Float.{Float64}
use argis_extensions.Prelude.Assoc.{Dict, lookup, insert, lookup-insert}
use argis_extensions.ToolRouter.{
  ToolSchemas, ToolProfile, ToolRouterConfig, priority_from, is_some, separate, apply_profile,
  choose_profile, limit, filter_tools,
}

is_some-insert :
    (name asked : String) (i : ℕ) (priority : Dict ℕ)
    → is_some (lookup asked (insert name i priority))
      ≡ (if str_eq name asked then true else is_some (lookup asked priority))
unfolding is_some
is_some-insert name asked i priority =
    rw (lookup-insert name asked i priority)
      (elim (Bool-cases (str_eq name asked)) [ inl e ↦ rw e refl | inr e ↦ rw e refl ])

-- The map of priorities has just the names.
priority_from-count :
    (i : ℕ) (names : List String) (asked : String) (priority : Dict ℕ)
    → is_some (lookup asked (priority_from i names priority))
      ≡ (if ltb 0 (count asked names) then true else is_some (lookup asked priority))
unfolding priority_from
priority_from-count i [] asked priority = refl
priority_from-count i (name ∷ names) asked priority = ground (
  arith,
  priority_from-count (suc i) names asked (insert name i priority),
  is_some-insert name asked i priority,
)

known :
    (names : List String) (asked : String)
    → is_some (lookup asked (priority_from 0 names [])) ≡ ltb 0 (count asked names)
unfolding lookup is_some
known names asked = priority_from-count 0 names asked [] ∙ ground arith

module _ (S : ToolSchemas) where
  abbrev pub is_named : S.Tool → Bool
  is_named tool = not (str_eq (S.function_name tool) "")

  abbrev pub is_in : List String → S.Tool → Bool
  is_in names tool = ltb 0 (count (S.function_name tool) names)

  -- The named tools that the names include, and those that they do not.
  abbrev pub chosen : List String → S.Tool → Bool
  chosen names tool = is_named tool && is_in names tool

  abbrev pub left_over : Bool → List String → S.Tool → Bool
  left_over fallback names tool = is_named tool && not (is_in names tool) && fallback

  separate_lem :
      (fallback : Bool) (names : List String) (priority : Dict ℕ)
      → ((asked : String) → is_some (lookup asked priority) ≡ ltb 0 (count asked names))
      → (tools prioritized other : List S.Tool)
      → separate S fallback priority tools (prioritized, other) ≡ (
        prioritized ++ filter (chosen names) tools,
        other ++ filter (left_over fallback names) tools,
      )
  unfolding separate
  separate_lem fallback names priority h [] prioritized other =
      rw (append_nil prioritized, append_nil other) refl
  separate_lem fallback names priority h (tool ∷ tools) prioritized other =
      let later = separate_lem fallback names priority h tools in
      let listed = h (S.function_name tool) in
      elim (Bool-cases (str_eq (S.function_name tool) "")) [
        | inl e ↦ rw e (later prioritized other)
        | inr e ↦ elim (Bool-cases (ltb 0 (count (S.function_name tool) names))) [
          | inl k ↦
              rw (listed, e, k, later (snoc prioritized tool) other)
                (ap (λ l. (l, other ++ filter (left_over fallback names) tools))
                  (append_assoc prioritized (tool ∷ []) _))
          | inr k ↦ elim (Bool-cases fallback) [
            | inl f ↦
                rw (listed, e, k, f, later prioritized (snoc other tool))
                  (ap (λ l. (prioritized ++ filter (chosen names) tools, l))
                    (append_assoc other (tool ∷ []) _))
            | inr f ↦ rw (listed, e, k, f) (later prioritized other)
          ]
        ]
      ]

  -- A profile that prefers some tools puts the tools that it prefers first and, if all tools are the
  -- fallback, the others after them, both in the order given; tools without a name are dropped.
  pub preferred_first :
      {F : Float64} (config : ToolRouterConfig F) (tools : List S.Tool) (name : String)
      (names categories : List String)
      → apply_profile S config tools
          (record { preferred = name ∷ names; allowed_categories = categories })
        ≡ filter (chosen (name ∷ names)) tools
          ++ filter (left_over config.fallback_to_all_tools (name ∷ names)) tools
  unfolding apply_profile lookup is_some
  preferred_first config tools name names categories =
      rw
        (separate_lem config.fallback_to_all_tools (name ∷ names)
          (priority_from 0 (name ∷ names) []) (known (name ∷ names)) tools [] [])
        refl

  limit-length :
      (n : ℕ) (tools : List S.Tool)
      → (kept : List S.Tool) × (limit S (pos n) tools ≡ some kept) × (length kept ≤ n)
  unfolding limit
  limit-length n tools = elim (Bool-cases (ltb_ℤ (pos n) (pos (length tools)))) [
    | inl e ↦ (take n tools, rw e refl, omega (arith, length-take n tools))
    | inr e ↦ (tools, rw e refl, ground (arith, e))
  ]

  -- For a limit that is not negative filterTools does not panic, and leaves no more tools than it,
  -- whatever the profile, the answer of the model and the messages.
  pub limited :
      {F : Float64} (config : ToolRouterConfig F) (n : ℕ) (slm : Option (String → Option String))
      (profile : ToolProfile) (messages : List S.Message) (tools : List S.Tool)
      → config.max_tools_per_request ≡ pos n
      → (kept : List S.Tool) × (filter_tools S config slm profile messages tools ≡ some kept)
        × (length kept ≤ n)
  unfolding filter_tools apply_profile
  limited config n slm profile messages [] e = ([], refl, omega arith)
  limited config n slm profile messages (tool ∷ tools) e = rw e (
      limit-length n (
        apply_profile S config (tool ∷ tools)
          (choose_profile S slm profile (tool ∷ tools) messages)))
