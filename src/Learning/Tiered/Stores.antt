-- ===== src/Learning/Tiered/Stores.antt =====
-- plugins/learning/tiered.go: RecordEvent as one update of each map of scopes, and the properties
-- of scopes that it keeps.
use argis_extensions.Prelude.{
  ℕ, ◌≡◌, refl, String, none, some, str_eq, if◌then◌else◌, Bool-cases, Option-cases, inl, inr,
}
use argis_extensions.Prelude.Assoc.{Dict, lookup, insert, insert-insert}
use argis_extensions.Prelude.Float.{Float64}
use argis_extensions.Learning.{
  LearningScope, scope_prompt_chain, scope_session, scope_project, scope_user, EpisodicEvent,
}
use argis_extensions.Learning.Tiered.{
  ScopedLearning, TieredLearningSystem, Context, extract_context_value, new_scoped_learning, learn,
}
use argis_extensions.Learning.Tiered.Record.{
  get_or_create_in, get_or_create_scope, put_scope, update_scope, update_if_named, record_event,
}

module _ (F : Float64) where
  -- The scope of an id, or the fresh one that stands for it.
  abbrev pub scope_at : ℕ → LearningScope → String → Dict (ScopedLearning F) → ScopedLearning F
  scope_at now scope id store = elim (lookup id store) [
    | some sl ↦ sl
    | none ↦ new_scoped_learning F now scope id
  ]

  -- One map of scopes after an event.
  unfoldable pub learn_in :
      ℕ
      → LearningScope
      → String
      → EpisodicEvent F
      → Dict (ScopedLearning F)
      → Dict (ScopedLearning F)
  learn_in now scope id event store =
      if str_eq id ""
      then store
      else insert id (learn F now event (scope_at now scope id store)) store

  put-get :
      (now : ℕ) (scope : LearningScope) (id : String) (store : Dict (ScopedLearning F))
      (event : EpisodicEvent F)
      → insert id
          (learn F now event (get_or_create_in F now scope id store).0)
          (get_or_create_in F now scope id store).1
        ≡ insert id (learn F now event (scope_at now scope id store)) store
  unfolding get_or_create_in
  put-get now scope id store event = elim (Option-cases (lookup id store)) [
    | inl e ↦ rw (e, get_or_create_in, scope_at) (insert-insert id _ _ store)
    | inr (sl, e) ↦ rw (e, get_or_create_in, scope_at) refl
  ]

  chain_eq :
      (now : ℕ) (id : String) (event : EpisodicEvent F) (t : TieredLearningSystem F)
      → update_if_named F now scope_prompt_chain id event t
        ≡ some
            (record t { prompt_chains = learn_in now scope_prompt_chain id event t.prompt_chains })
  unfolding update_if_named update_scope get_or_create_scope put_scope learn_in
  chain_eq now id event t = elim (Bool-cases (str_eq id "")) [
    | inl e ↦ rw e refl
    | inr e ↦ rw (e, put-get now scope_prompt_chain id t.prompt_chains event) refl
  ]

  session_eq :
      (now : ℕ) (id : String) (event : EpisodicEvent F) (t : TieredLearningSystem F)
      → update_if_named F now scope_session id event t
        ≡ some (record t { sessions = learn_in now scope_session id event t.sessions })
  unfolding update_if_named update_scope get_or_create_scope put_scope learn_in
  session_eq now id event t = elim (Bool-cases (str_eq id "")) [
    | inl e ↦ rw e refl
    | inr e ↦ rw (e, put-get now scope_session id t.sessions event) refl
  ]

  project_eq :
      (now : ℕ) (id : String) (event : EpisodicEvent F) (t : TieredLearningSystem F)
      → update_if_named F now scope_project id event t
        ≡ some (record t { projects = learn_in now scope_project id event t.projects })
  unfolding update_if_named update_scope get_or_create_scope put_scope learn_in
  project_eq now id event t = elim (Bool-cases (str_eq id "")) [
    | inl e ↦ rw e refl
    | inr e ↦ rw (e, put-get now scope_project id t.projects event) refl
  ]

  user_eq :
      (now : ℕ) (id : String) (event : EpisodicEvent F) (t : TieredLearningSystem F)
      → update_if_named F now scope_user id event t
        ≡ some (record t { users = learn_in now scope_user id event t.users })
  unfolding update_if_named update_scope get_or_create_scope put_scope learn_in
  user_eq now id event t = elim (Bool-cases (str_eq id "")) [
    | inl e ↦ rw e refl
    | inr e ↦ rw (e, put-get now scope_user id t.users event) refl
  ]

  -- The event as it is stored, with its identifier and the time of the call.
  abbrev pub stamped : String → ℕ → EpisodicEvent F → EpisodicEvent F
  stamped id now event = record event { id = id; timestamp = now }

  -- The system after an event, with each map updated once.
  unfoldable pub recorded :
      String → ℕ → Context → EpisodicEvent F → TieredLearningSystem F → TieredLearningSystem F
  recorded id now ctx e t = record t {
    request_cache = insert id (stamped id now e) t.request_cache;
    prompt_chains = learn_in now scope_prompt_chain e.scope_id (stamped id now e) t.prompt_chains;
    sessions =
        learn_in now scope_session (extract_context_value ctx "session_id") (stamped id now e)
          t.sessions;
    projects =
        learn_in now scope_project (extract_context_value ctx "project_id") (stamped id now e)
          t.projects;
    users =
        learn_in now scope_user (extract_context_value ctx "user_id") (stamped id now e) t.users;
    global = learn F now (stamped id now e) t.global;
  }

  pub record_event_eq :
      (id : String) (now : ℕ) (ctx : Context) (e : EpisodicEvent F) (t : TieredLearningSystem F)
      → record_event F id now ctx e t ≡ some (recorded id now ctx e t)
  unfolding record_event recorded update_scope get_or_create_scope put_scope
  record_event_eq id now ctx e t =
      rw
        (
          chain_eq now e.scope_id (stamped id now e)
              (record t { request_cache = insert id (stamped id now e) t.request_cache }),
          session_eq now _ (stamped id now e) _,
          project_eq now _ (stamped id now e) _,
          user_eq now _ (stamped id now e) _,
        )
        refl
