-- ===== src/Learning/Profiles/Keyed.antt =====
-- plugins/learning/model_profile.go: profiles stand under their own keys.
use argis_extensions.Prelude.{
  ◌≡◌, refl, sym, ap, ◌∙◌, inl, inr, String, Option, none, some, List, [], ◌∷◌, get_or,
}
use argis_extensions.Prelude.Assoc.{lookup, insert_found}
use argis_extensions.Prelude.Float.{Float64}
use argis_extensions.Learning.Profiles.{ModelProfile, new_profile}
use argis_extensions.Learning.Profiles.Store.{
  ProfileStore, observe, compute_derived_metrics, record_observation,
}
use argis_extensions.Learning.Profiles.Replayed.{Recording, record_each, recorded_store}

module _ (F : Float64) where
  -- A profile stands under its own key.
  abbrev pub KeysAgree : ProfileStore F → Type 0
  KeysAgree store =
      (key : String) (p : ModelProfile F) → lookup key store ≡ some p → p.model_key ≡ key

  -- Recording an observation keeps every profile under its own key.
  pub recorded-KeysAgree :
      (r : Recording F) (store : ProfileStore F)
      → KeysAgree store
      → KeysAgree (record_observation F r.id r.now r.observation store)
  unfolding observe compute_derived_metrics
  recorded-KeysAgree r store h key p e =
      let after = ap (lookup key) (sym (recorded_store F r store)) ∙ e in
      elim (insert_found _ key _ p store after) [
        | inl (same, value) ↦
            ap (λ q. q.model_key) (sym value)
            ∙ kept (lookup r.observation.model_key store) (h r.observation.model_key)
            ∙ same
        | inr old ↦ h key p old
      ]
    where
      kept :
          (known : Option (ModelProfile F))
          → ((q : ModelProfile F) → known ≡ some q → q.model_key ≡ r.observation.model_key)
          → (get_or
              (new_profile F r.id r.now r.observation.model_key r.observation.provider)
              known).model_key
            ≡ r.observation.model_key
      kept none good = refl
      kept (some q) good = good q refl

  -- In a store that only recordings fill, each profile stands under its own model key.
  pub recorded_keys :
      (recordings : List (Recording F)) (store : ProfileStore F)
      → KeysAgree store
      → KeysAgree (record_each F recordings store)
  recorded_keys [] store h = h
  recorded_keys (r ∷ rs) store h =
      recorded_keys rs (record_observation F r.id r.now r.observation store)
        (recorded-KeysAgree r store h)
