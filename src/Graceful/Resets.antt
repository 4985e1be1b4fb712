-- ===== src/Graceful/Resets.antt =====
-- infra/graceful/graceful.go: which breakers the map reaches.
use argis_extensions.Prelude.{
  ℕ, suc, ◌≡◌, refl, sym, ap, ◌∙◌, inl, inr, String, Bool, true, false, Option, none, some, List,
  [], ◌∷◌, str_eq, if◌then◌else◌, Bool-cases, arith,
}
use argis_extensions.Prelude.Assoc.{Dict, lookup, lookup-insert}
use argis_extensions.CircuitBreaker.{reset}
use argis_extensions.CircuitBreaker.Wrapper.{PluginWrapper}
use argis_extensions.Graceful.{
  PluginManager, breakers_from, reset_at, reset_found, reset_circuit_breaker,
}

abbrev next : Option ℕ → Option ℕ
next none = none
next (some k) = some (suc k)

module _ {Req Resp Short BErr E : Type 0} where
  -- A plugin of this name stands in the list.
  abbrev pub has_name : String → List (PluginWrapper Req Resp Short BErr E) → Bool
  has_name name [] = false
  has_name name (pw ∷ wrapped) =
      let rest = has_name name wrapped in if str_eq pw.plugin.get_name name then true else rest

  -- The reset of the last plugin of a name.
  abbrev pub reset_last :
      ℕ
      → String
      → List (PluginWrapper Req Resp Short BErr E)
      → List (PluginWrapper Req Resp Short BErr E)
  reset_last now name [] = []
  reset_last now name (pw ∷ wrapped) =
      let rest = reset_last now name wrapped in
      if has_name name wrapped
      then pw ∷ rest
      else if str_eq pw.plugin.get_name name
      then record pw { circuit_breaker = reset now pw.circuit_breaker } ∷ wrapped
      else pw ∷ wrapped

  -- The position, from i on, of the last plugin of a name.
  abbrev pub last_position :
      ℕ → String → List (PluginWrapper Req Resp Short BErr E) → Option ℕ → Option ℕ
  last_position i name [] found = found
  last_position i name (pw ∷ wrapped) found =
      last_position (suc i) name wrapped (if str_eq pw.plugin.get_name name then some i else found)

  breakers_from-lookup :
      (i : ℕ) (name : String) (wrapped : List (PluginWrapper Req Resp Short BErr E)) (d : Dict ℕ)
      → lookup name (breakers_from i wrapped d) ≡ last_position i name wrapped (lookup name d)
  unfolding breakers_from
  breakers_from-lookup i name [] d = refl
  breakers_from-lookup i name (pw ∷ wrapped) d =
      breakers_from-lookup (suc i) name wrapped _
      ∙ ap (last_position (suc i) name wrapped) (lookup-insert pw.plugin.get_name name i d)

  last_position-from :
      (name : String) (wrapped : List (PluginWrapper Req Resp Short BErr E)) (i : ℕ)
      (found : Option ℕ)
      → has_name name wrapped ≡ false
      → last_position i name wrapped found ≡ found
  last_position-from name [] i found h = refl
  last_position-from name (pw ∷ wrapped) i found h =
      elim (Bool-cases (str_eq pw.plugin.get_name name)) [
        | inl e ↦ ground (arith, e, h)
        | inr e ↦ rw e (last_position-from name wrapped (suc i) found (ground (arith, e, h)))
      ]

  last_position-next :
      (name : String) (wrapped : List (PluginWrapper Req Resp Short BErr E)) (i : ℕ)
      (found : Option ℕ)
      → last_position (suc i) name wrapped (next found) ≡ next (last_position i name wrapped found)
  last_position-next name [] i found = refl
  last_position-next name (pw ∷ wrapped) i found =
      elim (Bool-cases (str_eq pw.plugin.get_name name)) [
        | inl e ↦ rw e (last_position-next name wrapped (suc i) (some i))
        | inr e ↦ rw e (last_position-next name wrapped (suc i) found)
      ]

  last_position-some :
      (name : String) (wrapped : List (PluginWrapper Req Resp Short BErr E)) (i : ℕ)
      (found : Option ℕ)
      → has_name name wrapped ≡ true
      → (k : ℕ) × ((other : Option ℕ) → last_position i name wrapped other ≡ some k)
  last_position-some name [] i found h = ground (h, arith)
  last_position-some name (pw ∷ wrapped) i found h = elim (Bool-cases (has_name name wrapped)) [
    | inl r ↦
        let (k, same) = last_position-some name wrapped (suc i) found r in
        (k, λ other. same (if str_eq pw.plugin.get_name name then some i else other))
    | inr r ↦
        let here : str_eq pw.plugin.get_name name ≡ true = ground (arith, h, r) in
        (i, λ other. last_position-from name wrapped (suc i) _ r ∙ rw here refl)
  ]

  shifted :
      (name : String) (wrapped : List (PluginWrapper Req Resp Short BErr E)) (k : ℕ)
      (found : Option ℕ)
      → has_name name wrapped ≡ true
      → ((other : Option ℕ) → last_position 0 name wrapped other ≡ some k)
      → last_position 1 name wrapped found ≡ some (suc k)
  shifted name wrapped k found r same =
      let (j, later) = last_position-some name wrapped 1 found r in
      later found ∙ sym (later none) ∙ last_position-next name wrapped 0 none ∙ ap next (same none)

  here :
      (now : ℕ) (name : String) (pw : PluginWrapper Req Resp Short BErr E)
      (wrapped : List (PluginWrapper Req Resp Short BErr E))
      → reset_found now (if str_eq pw.plugin.get_name name then some 0 else none) (pw ∷ wrapped) ≡ (
          if str_eq pw.plugin.get_name name
          then record pw { circuit_breaker = reset now pw.circuit_breaker } ∷ wrapped
          else pw ∷ wrapped)
  unfolding reset_at reset_found
  here now name pw wrapped = elim (Bool-cases (str_eq pw.plugin.get_name name)) [
    | inl e ↦ rw e refl
    | inr e ↦ rw e refl
  ]

  last_reset :
      (now : ℕ) (name : String) (wrapped : List (PluginWrapper Req Resp Short BErr E))
      → reset_found now (last_position 0 name wrapped none) wrapped ≡ reset_last now name wrapped
  unfolding reset_at reset_found
  last_reset now name [] = refl
  last_reset now name (pw ∷ wrapped) = elim (Bool-cases (has_name name wrapped)) [
    | inl r ↦
        let (k, same) = last_position-some name wrapped 0 none r in
        ap (λ o. reset_found now o (pw ∷ wrapped))
          (shifted name wrapped k (if str_eq pw.plugin.get_name name then some 0 else none) r same)
        ∙ rw r (
            ap (λ l. pw ∷ l)
              (ap (λ o. reset_found now o wrapped) (sym (same none)) ∙ last_reset now name wrapped))
    | inr r ↦
        ap (λ o. reset_found now o (pw ∷ wrapped)) (last_position-from name wrapped 1 _ r)
        ∙ rw r (here now name pw wrapped)
  ]

  -- When the map is the one that NewPluginManager fills, resetting the breaker of a name resets that
  -- of the last plugin of this name and no other, and nothing when there is none: of plugins that
  -- share a name, the breakers of all but the last stay as they are.
  pub reset_last_named :
      (now : ℕ) (name : String) (pm : PluginManager Req Resp Short BErr E)
      → pm.circuit_breakers ≡ breakers_from 0 pm.wrapped_plugins []
      → (reset_circuit_breaker now name pm).wrapped_plugins ≡ reset_last now name pm.wrapped_plugins
  unfolding reset_circuit_breaker lookup
  reset_last_named now name pm h =
      ap (λ o. reset_found now o pm.wrapped_plugins)
        (ap (lookup name) h ∙ breakers_from-lookup 0 name pm.wrapped_plugins [])
      ∙ last_reset now name pm.wrapped_plugins
