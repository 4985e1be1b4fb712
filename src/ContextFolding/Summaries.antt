-- ===== src/ContextFolding/Summaries.antt =====
-- plugins/contextfolding: what summarizeOld keeps of a conversation.
use argis_extensions.Prelude.{
  ℕ, ◌-◌, ◌<◌, ◌≡◌, refl, sym, ◌⊎◌, inl, inr, String, ◌<>◌, false, Option, none, some, List, [],
  ◌∷◌, ◌++◌, length, length-drop, take, drop, take-drop, arith, leb, Option-cases,
}
use argis_extensions.Prelude.Float.{Float64}
use argis_extensions.ContextFolding.{
  Chats, default_folding_config, get_strategy, summary_of, summarize_old, adaptive_fold,
  fold_context, pre_hook_fold, messages_to_text,
}

module _ (C : Chats) where
  -- No summary, or one system message.
  abbrev pub IsSummary : List C.Message → Type 0
  IsSummary summary = (summary ≡ []) ⊎ ((text : String) × (summary ≡ C.system_message text ∷ []))

  summary_of-IsSummary :
      (slm : Option (String → String → Option String)) (old : List C.Message) (wanted : String)
      → IsSummary (summary_of C slm old wanted)
  unfolding summary_of
  summary_of-IsSummary none old wanted = inl refl
  summary_of-IsSummary (some summarize) old wanted =
      elim (Option-cases (summarize (messages_to_text C old) wanted)) [
        | inl e ↦ inl (rw (e, summary_of) refl)
        | inr (s, e) ↦ inr ("[Previous conversation summary]\n" <> s, rw (e, summary_of) refl)
      ]

  long_lem : (n : ℕ) → 3 < n → leb n 3 ≡ false
  long_lem n h = ground (arith, h)

  -- Of more than three messages summarizeOld keeps the last three as they are, behind at most one
  -- system message that stands for the others.
  pub summarized_recent :
      (slm : Option (String → String → Option String)) (messages : List C.Message) (wanted : String)
      → 3 < length messages
      → (old recent summary : List C.Message) × (messages ≡ old ++ recent)
        × (length recent ≡ 3)
        × IsSummary summary
        × (summarize_old C slm messages wanted ≡ summary ++ recent)
  unfolding summarize_old
  summarized_recent slm messages wanted long = (
    take (length messages - 3) messages,
    drop (length messages - 3) messages,
    summary_of C slm (take (length messages - 3) messages) wanted,
    sym (take-drop (length messages - 3) messages),
    omega (arith, length-drop (length messages - 3) messages, long),
    summary_of-IsSummary slm (take (length messages - 3) messages) wanted,
    rw (long_lem (length messages) long) refl,
  )

  -- With the default configuration and no summarizer, which is what New makes, a conversation of
  -- more than three messages is cut to its last three and nothing stands for the others.
  pub default_drops :
      (F : Float64) (messages : List C.Message)
      → 3 < length messages
      → (pre_hook_fold C none (default_folding_config F) none messages
          ≡ drop (length messages - 3) messages)
        × (length (drop (length messages - 3) messages) ≡ 3)
  unfolding pre_hook_fold fold_context get_strategy adaptive_fold summarize_old summary_of
  default_drops F [] long = (refl, omega (arith, long))
  default_drops F (m ∷ messages) long = (
    rw (long_lem (length (m ∷ messages)) long) refl,
    omega (arith, length-drop (length (m ∷ messages) - 3) (m ∷ messages), long),
  )
