-- ===== src/Learning/Profiles/Replayed.antt =====
-- plugins/learning/model_profile.go: the profile of a model against the observations of that model.
use argis_extensions.Prelude.{
  ℕ, ◌≡◌, refl, ap, ◌∙◌, inl, inr, String, Bool, Option, none, some, List, [], ◌∷◌, str_eq, eq_iff,
  filter, get_or, if◌then◌else◌, Bool-cases,
}
use argis_extensions.Prelude.Assoc.{lookup, lookup-insert, insert-insert, insert}
use argis_extensions.Prelude.Float.{Float64}
use argis_extensions.Learning.Profiles.{ModelProfile, Observation, new_profile}
use argis_extensions.Learning.Profiles.Store.{
  ProfileStore, observe, get, get_or_create, found_or_new, record_observation,
}

-- An observation with the UUID and the instant that recording it draws.
pub record Recording (F : Float64) : Type 0 where
  pub id : String
  pub now : ℕ
  pub observation : Observation F

module _ (F : Float64) where
  -- A run of `RecordObservation`.
  abbrev pub record_each : List (Recording F) → ProfileStore F → ProfileStore F
  record_each [] store = store
  record_each (r ∷ rs) store = record_each rs (record_observation F r.id r.now r.observation store)

  -- The recordings of one model.
  abbrev pub is_of : String → Recording F → Bool
  is_of model_key r = str_eq r.observation.model_key model_key

  -- What one recording makes of the model's profile, when there is one.
  abbrev pub step : Recording F → Option (ModelProfile F) → ModelProfile F
  step r profile =
      observe F r.now r.observation
        (get_or (new_profile F r.id r.now r.observation.model_key r.observation.provider) profile)

  abbrev pub replay : List (Recording F) → Option (ModelProfile F) → Option (ModelProfile F)
  replay [] profile = profile
  replay (r ∷ rs) profile = replay rs (some (step r profile))

  created :
      (r : Recording F) (store : ProfileStore F) (known : Option (ModelProfile F))
      → let key = r.observation.model_key in
        let got = found_or_new F r.id r.now key r.observation.provider store known in
        (got.0 ≡ get_or (new_profile F r.id r.now key r.observation.provider) known)
        × ((v : ModelProfile F) → insert key v got.1 ≡ insert key v store)
  unfolding found_or_new
  created r store none = (refl, λ v. insert-insert r.observation.model_key v _ store)
  created r store (some p) = (refl, λ v. refl)

  -- What recording does to the store.
  pub recorded_store :
      (r : Recording F) (store : ProfileStore F)
      → record_observation F r.id r.now r.observation store
        ≡ insert r.observation.model_key (step r (lookup r.observation.model_key store)) store
  unfolding record_observation get_or_create
  recorded_store r store =
      let made = created r store (lookup r.observation.model_key store) in
      made.1 _
      ∙ ap (λ p. insert r.observation.model_key (observe F r.now r.observation p) store) made.0

  recorded :
      (r : Recording F) (model_key : String) (store : ProfileStore F)
      → lookup model_key (record_observation F r.id r.now r.observation store) ≡ (
          if is_of model_key r
          then some (step r (lookup r.observation.model_key store))
          else lookup model_key store)
  recorded r model_key store =
      ap (lookup model_key) (recorded_store r store)
      ∙ lookup-insert r.observation.model_key model_key _ store

  -- The profile that the store holds for a model after a run of observations of any models is the
  -- one that the observations of this model alone make of the profile it held before: no observation
  -- of another model, wherever it comes in the run, changes it.
  pub profile_replayed :
      (recordings : List (Recording F)) (model_key : String) (store : ProfileStore F)
      → get F (record_each recordings store) model_key
        ≡ replay (filter (is_of model_key) recordings) (get F store model_key)
  profile_replayed [] model_key store = refl
  profile_replayed (r ∷ rs) model_key store =
      profile_replayed rs model_key (record_observation F r.id r.now r.observation store)
      ∙ elim (Bool-cases (is_of model_key r)) [
        | inl e ↦
            let same = (eq_iff r.observation.model_key model_key).0 e in
            rw e (
              ap (replay (filter (is_of model_key) rs)) (
                recorded r model_key store
                ∙ rw e (ap (λ key. some (step r (lookup key store))) same)))
        | inr e ↦
            rw e
              (ap (replay (filter (is_of model_key) rs)) (recorded r model_key store ∙ rw e refl))
      ]
