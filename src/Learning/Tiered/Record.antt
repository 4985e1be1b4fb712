-- ===== src/Learning/Tiered/Record.antt =====
-- plugins/learning/tiered.go: an event recorded in every scope that it names.
use argis_extensions.Prelude.{ℕ, String, Option, none, some, str_eq, if◌then◌else◌, ◌>>=◌}
use argis_extensions.Prelude.Assoc.{Dict, lookup, insert}
use argis_extensions.Prelude.Float.{Float64}
use argis_extensions.Learning.{
  LearningScope, scope_request, scope_prompt_chain, scope_session, scope_project, scope_user,
  scope_global, EpisodicEvent,
}
use argis_extensions.Learning.Tiered.{
  ScopedLearning, TieredLearningSystem, Context, extract_context_value, new_scoped_learning, learn,
}

module _ (F : Float64) where
  -- The scope of an id in one of the maps, and the map with that scope in it.
  unfoldable pub get_or_create_in :
      ℕ
      → LearningScope
      → String
      → Dict (ScopedLearning F)
      → ScopedLearning F × Dict (ScopedLearning F)
  get_or_create_in now scope id store = elim (lookup id store) [
    | some sl ↦ (sl, store)
    | none ↦
        (new_scoped_learning F now scope id, insert id (new_scoped_learning F now scope id) store)
  ]

  unfoldable pub get_or_create_scope :
      ℕ
      → LearningScope
      → String
      → TieredLearningSystem F
      → Option (ScopedLearning F) × TieredLearningSystem F
  get_or_create_scope now scope_prompt_chain id t =
      let got = get_or_create_in now scope_prompt_chain id t.prompt_chains in
      (some got.0, record t { prompt_chains = got.1 })
  get_or_create_scope now scope_session id t =
      let got = get_or_create_in now scope_session id t.sessions in
      (some got.0, record t { sessions = got.1 })
  get_or_create_scope now scope_project id t =
      let got = get_or_create_in now scope_project id t.projects in
      (some got.0, record t { projects = got.1 })
  get_or_create_scope now scope_user id t =
      let got = get_or_create_in now scope_user id t.users in
      (some got.0, record t { users = got.1 })
  get_or_create_scope now scope_global id t = (some t.global, t)
  get_or_create_scope now scope_request id t = (none, t)

  -- What the writes through the pointer to a scope do to the system.
  unfoldable pub put_scope :
      LearningScope → String → ScopedLearning F → TieredLearningSystem F → TieredLearningSystem F
  put_scope scope_prompt_chain id sl t = record t { prompt_chains = insert id sl t.prompt_chains }
  put_scope scope_session id sl t = record t { sessions = insert id sl t.sessions }
  put_scope scope_project id sl t = record t { projects = insert id sl t.projects }
  put_scope scope_user id sl t = record t { users = insert id sl t.users }
  put_scope scope_global id sl t = record t { global = sl }
  put_scope scope_request id sl t = t

  -- `none` is the panic on a scope that `getOrCreateScope` does not know.
  unfoldable pub update_scope :
      ℕ
      → LearningScope
      → String
      → EpisodicEvent F
      → TieredLearningSystem F
      → Option (TieredLearningSystem F)
  update_scope now scope id event t =
      let got = get_or_create_scope now scope id t in
      elim got.0 [ none ↦ none | some sl ↦ some (put_scope scope id (learn F now event sl) got.1) ]

  -- `if id != "" { t.updateScope(scope, id, event) }`.
  unfoldable pub update_if_named :
      ℕ
      → LearningScope
      → String
      → EpisodicEvent F
      → TieredLearningSystem F
      → Option (TieredLearningSystem F)
  update_if_named now scope id event t =
      if str_eq id "" then some t else update_scope now scope id event t

  -- `id` is the `uuid.New()` of the event, and `now` the time of the call.
  unfoldable pub record_event :
      String
      → ℕ
      → Context
      → EpisodicEvent F
      → TieredLearningSystem F
      → Option (TieredLearningSystem F)
  record_event id now ctx event t =
      let event = record event { id = id; timestamp = now } in
      let t = record t { request_cache = insert id event t.request_cache } in
      do
        t ← update_if_named now scope_prompt_chain event.scope_id event t
        t ← update_if_named now scope_session (extract_context_value ctx "session_id") event t
        t ← update_if_named now scope_project (extract_context_value ctx "project_id") event t
        t ← update_if_named now scope_user (extract_context_value ctx "user_id") event t
        update_scope now scope_global "global" event t
