-- ===== src/ContextFolding/Fits.antt =====
-- plugins/contextfolding: which messages truncateToFit keeps, and for which budget.
use argis_extensions.Prelude.{
  ℕ, ◌+◌, ◌*◌, ◌≤◌, ◌<◌, ◌≡◌, refl, sym, ap, ◌∙◌, subst, ◌⊎◌, inl, inr, String, false, Option, some,
  List, [], ◌∷◌, ◌++◌, snoc, length, length-append, append_assoc, append_nil, reverse_onto,
  reverse_twice, reverse_onto_append, arith, leb, not, ◌&&◌, Bool-cases,
}
use argis_extensions.Prelude.Int.{pos, minus_ℤ}
use argis_extensions.Prelude.Float.{Float64}
use argis_extensions.ContextFolding.{
  Chats, FoldingConfig, raw_only, get_strategy, estimate_tokens, total_tokens, calculate_budget,
  is_empty, fit_from, truncate_to_fit, fold_context, pre_hook_fold,
}

module _ (C : Chats) where
  total-append :
      (xs ys : List C.Message) → total_tokens C (xs ++ ys) ≡ total_tokens C xs + total_tokens C ys
  unfolding total_tokens
  total-append [] ys = omega arith
  total-append (x ∷ xs) ys = omega (arith, total-append xs ys)

  -- Within the budget, or a single message.
  abbrev pub IsFitting : ℕ → List C.Message → Type 0
  IsFitting budget kept = (total_tokens C kept ≤ budget) ⊎ (length kept ≡ 1)

  -- Some message was kept, unless there was none.
  abbrev pub IsSome : List C.Message → List C.Message → Type 0
  IsSome messages kept = (messages ≡ []) ⊎ (1 ≤ length kept)

  -- Nothing was dropped, or the last message dropped does not fit with those kept.
  abbrev pub IsFull : ℕ → List C.Message → List C.Message → Type 0
  IsFull budget dropped kept =
      (dropped ≡ [])
      ⊎ ((older : List C.Message) × (last : C.Message) × (dropped ≡ snoc older last)
          × (budget < total_tokens C (last ∷ kept)))

  one_more :
      (budget used : ℕ) (msg : C.Message) (kept : List C.Message)
      → used ≡ total_tokens C kept
      → (not (leb (used + estimate_tokens C msg) budget) && not (is_empty C kept)) ≡ false
      → IsFitting budget (msg ∷ kept)
  unfolding total_tokens
  one_more budget used msg [] e g = inr refl
  one_more budget used msg (k ∷ kept) e g = inl (ground (arith, e, g))

  fit_from_lem :
      (budget : ℕ) (older : List C.Message) (used : ℕ) (kept : List C.Message)
      → used ≡ total_tokens C kept
      → IsFitting budget kept
      → (dropped : List C.Message) × (reverse_onto older kept
          ≡ dropped ++ fit_from C budget older used kept)
        × IsFitting budget (fit_from C budget older used kept)
        × IsFull budget dropped (fit_from C budget older used kept)
  unfolding fit_from total_tokens
  fit_from_lem budget [] used kept e f = ([], refl, f, inl refl)
  fit_from_lem budget (msg ∷ older) used kept e f =
      elim (Bool-cases (not (leb (used + estimate_tokens C msg) budget) && not (is_empty C kept))) [
        | inl stop ↦ rw stop (
          snoc (reverse_onto older []) msg,
          reverse_onto_append older (msg ∷ kept)
              ∙ sym (append_assoc (reverse_onto older []) (msg ∷ []) kept),
          f,
          inr (reverse_onto older [], msg, refl, ground (arith, stop, e)),
        )
        | inr go ↦ rw go (
            fit_from_lem budget older (used + estimate_tokens C msg) (msg ∷ kept) (omega (arith, e))
              (one_more budget used msg kept e go))
      ]

  fit_from-length :
      (budget : ℕ) (older : List C.Message) (used : ℕ) (kept : List C.Message)
      → length kept ≤ length (fit_from C budget older used kept)
  unfolding fit_from
  fit_from-length budget [] used kept = omega arith
  fit_from-length budget (msg ∷ older) used kept =
      elim (Bool-cases (not (leb (used + estimate_tokens C msg) budget) && not (is_empty C kept))) [
        | inl stop ↦ rw stop (omega arith)
        | inr go ↦ rw go (
            omega (arith, fit_from-length budget older (used + estimate_tokens C msg) (msg ∷ kept)))
      ]

  some_fitted :
      (budget : ℕ) (latest : List C.Message)
      → (latest ≡ []) ⊎ (1 ≤ length (fit_from C budget latest 0 []))
  unfolding fit_from
  some_fitted budget [] = inl refl
  some_fitted budget (msg ∷ older) =
      inr (rw and_false (fit_from-length budget older (0 + estimate_tokens C msg) (msg ∷ [])))
    where
      and_false : (not (leb (0 + estimate_tokens C msg) budget) && not (is_empty C [])) ≡ false
      and_false = ground arith

  IsSome-truncated :
      (messages : List C.Message) (budget : ℕ) → IsSome messages (truncate_to_fit C messages budget)
  unfolding truncate_to_fit
  IsSome-truncated messages budget = elim (some_fitted budget (reverse_onto messages [])) [
    | inl none_left ↦ inl (
        sym (append_nil messages)
        ∙ sym (reverse_twice messages [] [])
        ∙ ap (λ l. reverse_onto l []) none_left)
    | inr kept ↦ inr kept
  ]

  -- truncateToFit keeps the last messages of the conversation, within the budget or the last message
  -- alone, at least one message if there is one, and as many as fit: the last message that it drops
  -- does not fit with those it keeps.
  pub truncated_suffix :
      (messages : List C.Message) (budget : ℕ)
      → (dropped : List C.Message) × (messages ≡ dropped ++ truncate_to_fit C messages budget)
        × IsFitting budget (truncate_to_fit C messages budget)
        × IsSome messages (truncate_to_fit C messages budget)
        × IsFull budget dropped (truncate_to_fit C messages budget)
  unfolding truncate_to_fit total_tokens
  truncated_suffix messages budget =
      let run = fit_from_lem budget (reverse_onto messages []) 0 [] refl (inl (omega arith)) in
      (
        run.0,
        sym (append_nil messages) ∙ sym (reverse_twice messages [] []) ∙ run.1,
        run.2,
        IsSome-truncated messages budget,
        run.3,
      )

  budget_lem :
      {F : Float64} (config : FoldingConfig F) (room : ℕ) (messages : List C.Message)
      → minus_ℤ
          (minus_ℤ config.max_context_tokens config.reserve_output_tokens)
          config.system_prompt_tokens
        ≡ pos room
      → total_tokens C messages ≤ room
      → calculate_budget C config messages + total_tokens C messages ≡ room
  unfolding calculate_budget
  budget_lem config room messages e le = rw e (ground (arith, le))

  shorter :
      (budget : ℕ) (messages dropped kept : List C.Message)
      → budget < total_tokens C messages
      → 1 < length messages
      → messages ≡ dropped ++ kept
      → IsFitting budget kept
      → length kept < length messages
  shorter budget messages [] kept lt two e f = elim (subst (λ l. IsFitting budget l) (sym e) f) [
    | inl h ↦ omega (arith, h, lt)
    | inr h ↦ omega (arith, h, two)
  ]
  shorter budget messages (d ∷ dropped) kept lt two e f =
      omega (arith, ap length e, length-append dropped kept)

  -- Under the strategy raw_only, a conversation of at least two messages that fits in the room
  -- which the reserves leave, but takes more than half of it, still loses messages: its own tokens
  -- are taken off the budget that it must then fit.
  pub fitting_truncated :
      {F : Float64} (slm : Option (String → String → Option String)) (config : FoldingConfig F)
      (room : ℕ) (messages : List C.Message)
      → minus_ℤ
          (minus_ℤ config.max_context_tokens config.reserve_output_tokens)
          config.system_prompt_tokens
        ≡ pos room
      → total_tokens C messages ≤ room
      → room < 2 * total_tokens C messages
      → 1 < length messages
      → length (pre_hook_fold C slm config (some raw_only) messages) < length messages
  unfolding pre_hook_fold fold_context get_strategy
  fitting_truncated slm config room [] e le lt two = omega (arith, two)
  fitting_truncated slm config room (m ∷ messages) e le lt two =
      let budget = calculate_budget C config (m ∷ messages) in
      let cut = truncated_suffix (m ∷ messages) budget in
      shorter budget (m ∷ messages) cut.0 (truncate_to_fit C (m ∷ messages) budget)
        (omega (arith, budget_lem config room (m ∷ messages) e le, lt)) two cut.1 cut.2
