-- ===== src/Config/Fields/Reach.antt =====
-- config/validation.go: the error paths that `ValidateField` can be asked about.
use argis_extensions.Prelude.{
  ◌≡◌, refl, ◌∙◌, String, Bool, true, false, List, [], ◌∷◌, All, All-append, if◌then◌else◌, arith,
  Bool-cases, inl, inr,
}
use argis_extensions.Prelude.Float.{Float64}
use argis_extensions.Config.{
  ServerConfig, RouteLlmConfig, ArchRouterConfig, MirtConfig, AgentApiConfig, LoggingConfig, Config,
}
use argis_extensions.Config.Validation.{
  ValidationError, add_if, validate, validate_server, validate_routing, validate_route_llm,
  validate_arch_router, validate_mirt, validate_agents, validate_logging, one_of,
}
use argis_extensions.Config.Fields.{
  Kind, value, invalid, config, server, routing, agents, logging, plain, split, field_by_name,
  navigate, not_found, validate_field, report, errors_under,
}

-- `strings.Title` at the words that error paths are made of: it capitalises the first letter of a
-- word, and an underscore ends no word.
pub record IsTitle (title : String → String) : Type 0 where
  pub server_word : title "server" ≡ "Server"
  pub port_word : title "port" ≡ "Port"
  pub host_word : title "host" ≡ "Host"
  pub read_timeout_word : title "read_timeout" ≡ "Read_timeout"
  pub write_timeout_word : title "write_timeout" ≡ "Write_timeout"
  pub max_request_size_mb_word : title "max_request_size_mb" ≡ "Max_request_size_mb"
  pub routing_word : title "routing" ≡ "Routing"
  pub routellm_word : title "routellm" ≡ "Routellm"
  pub arch_router_word : title "arch_router" ≡ "Arch_router"
  pub mirt_word : title "mirt" ≡ "Mirt"
  pub agents_word : title "agents" ≡ "Agents"
  pub agentapi_word : title "agentapi" ≡ "Agentapi"
  pub logging_word : title "logging" ≡ "Logging"
  pub level_word : title "level" ≡ "Level"
  pub format_word : title "format" ≡ "Format"
  pub output_word : title "output" ≡ "Output"

-- The paths of errors that `ValidateField` finds a field for.
abbrev pub reachable_fields : List String
reachable_fields =
    "server.port" ∷ "server.host" ∷ "logging.level" ∷ "logging.format" ∷ "logging.output" ∷ []

All-map {ℓ κ μ} :
    {A : Type ℓ} {P : A → Type κ} {Q : A → Type μ}
    → ((a : A) → P a → Q a)
    → (xs : List A) → All P xs
    → All Q xs
All-map f [] h = tt
All-map f (x ∷ xs) h = (f x h.0, All-map f xs h.1)

module _ (title : String → String) where
  abbrev pub Reaches : ValidationError → Type 0
  Reaches e =
      navigate title (split e.field) config
      ≡ (if one_of reachable_fields e.field then value plain else invalid)

  step_value :
      (p q : String) (ps : List String) (k k' : Kind)
      → title p ≡ q
      → field_by_name k q ≡ value k'
      → navigate title (p ∷ ps) k ≡ navigate title ps k'
  unfolding navigate
  step_value p q ps k k' t f = ground arith

  step_invalid :
      (p q : String) (ps : List String) (k : Kind)
      → title p ≡ q
      → field_by_name k q ≡ invalid
      → navigate title (p ∷ ps) k ≡ invalid
  unfolding navigate
  step_invalid p q ps k t f = ground arith

  hit :
      (p q x y : String) (k : Kind)
      → title p ≡ q
      → field_by_name config q ≡ value k
      → title x ≡ y
      → field_by_name k y ≡ value plain
      → navigate title (p ∷ x ∷ []) config ≡ value plain
  unfolding navigate
  hit p q x y k t f t' f' = step_value p q (x ∷ []) config k t f ∙ step_value x y [] k plain t' f'

  miss :
      (p q x y : String) (ps : List String) (k : Kind)
      → title p ≡ q
      → field_by_name config q ≡ value k
      → title x ≡ y
      → field_by_name k y ≡ invalid
      → navigate title (p ∷ x ∷ ps) config ≡ invalid
  miss p q x y ps k t f t' f' = step_value p q (x ∷ ps) config k t f ∙ step_invalid x y ps k t' f'

  -- Shut, so that the lemmas below find their arguments.
  Reported : List ValidationError → Type 0
  Reported = All Reaches

  Reported-nil : Reported []
  unfolding Reported
  Reported-nil = tt

  Reported-add :
      (bad : Bool) (f m : String) (errors : List ValidationError)
      → Reaches (record { field = f; message = m })
      → Reported errors
      → Reported (add_if bad f m errors)
  unfolding Reported add_if
  Reported-add true f m errors p h = All-append Reaches errors _ h (p, tt)
  Reported-add false f m errors p h = h

  Reported-if :
      (b : Bool) (xs ys : List ValidationError)
      → Reported xs
      → Reported ys
      → Reported (if b then xs else ys)
  Reported-if true xs ys h k = h
  Reported-if false xs ys h k = k

  module _ (w : IsTitle title) where
    server_reach : (c : ServerConfig) → Reported (validate_server c)
    unfolding validate_server split field_by_name
    server_reach c =
        (Reported-add _ _ _ _
          (miss "server" "Server" "max_request_size_mb" "Max_request_size_mb" [] server
            w.server_word refl w.max_request_size_mb_word refl)
          (Reported-add _ _ _ _
            (miss "server" "Server" "write_timeout" "Write_timeout" [] server w.server_word refl
              w.write_timeout_word refl)
            (Reported-add _ _ _ _
              (miss "server" "Server" "read_timeout" "Read_timeout" [] server w.server_word refl
                w.read_timeout_word refl)
              (Reported-add _ _ _ _
                (hit "server" "Server" "host" "Host" server w.server_word refl w.host_word refl)
                (Reported-add _ _ _ _
                  (hit "server" "Server" "port" "Port" server w.server_word refl w.port_word refl)
                  Reported-nil)))))

    route_llm_reach :
        (F : Float64) (c : RouteLlmConfig F) (es : List ValidationError)
        → Reported es
        → Reported (validate_route_llm F c es)
    unfolding validate_route_llm split field_by_name
    route_llm_reach F c es h =
        Reported-if c.enabled _ _
          (Reported-add _ _ _ _
            (miss "routing" "Routing" "routellm" "Routellm" ("timeout_ms" ∷ []) routing
              w.routing_word refl w.routellm_word refl)
            (Reported-add _ _ _ _
              (miss "routing" "Routing" "routellm" "Routellm" ("threshold" ∷ []) routing
                w.routing_word refl w.routellm_word refl)
              (Reported-add _ _ _ _
                (miss "routing" "Routing" "routellm" "Routellm" ("endpoint" ∷ []) routing
                  w.routing_word refl w.routellm_word refl)
                h)))
          h

    arch_router_reach :
        (c : ArchRouterConfig) (es : List ValidationError)
        → Reported es
        → Reported (validate_arch_router c es)
    unfolding validate_arch_router split field_by_name
    arch_router_reach c es h =
        Reported-if c.enabled _ _
          (Reported-add _ _ _ _
            (miss "routing" "Routing" "arch_router" "Arch_router" ("timeout_ms" ∷ []) routing
              w.routing_word refl w.arch_router_word refl)
            (Reported-add _ _ _ _
              (miss "routing" "Routing" "arch_router" "Arch_router" ("endpoint" ∷ []) routing
                w.routing_word refl w.arch_router_word refl)
              h))
          h

    mirt_reach :
        (F : Float64) (c : MirtConfig F) (es : List ValidationError)
        → Reported es
        → Reported (validate_mirt F c es)
    unfolding validate_mirt split field_by_name
    mirt_reach F c es h =
        Reported-if c.enabled _ _
          (Reported-add _ _ _ _
            (miss "routing" "Routing" "mirt" "Mirt" ("min_score" ∷ []) routing w.routing_word refl
              w.mirt_word refl)
            (Reported-add _ _ _ _
              (miss "routing" "Routing" "mirt" "Mirt" ("dimensions" ∷ []) routing w.routing_word
                refl w.mirt_word refl)
              h))
          h

    agents_reach : (c : AgentApiConfig) → Reported (validate_agents c)
    unfolding validate_agents split field_by_name
    agents_reach c =
        Reported-if c.enabled _ _
          (Reported-add _ _ _ _
            (miss "agents" "Agents" "agentapi" "Agentapi" ("default_agent" ∷ []) agents
              w.agents_word refl w.agentapi_word refl)
            (Reported-add _ _ _ _
              (miss "agents" "Agents" "agentapi" "Agentapi" ("timeout" ∷ []) agents w.agents_word
                refl w.agentapi_word refl)
              (Reported-add _ _ _ _
                (miss "agents" "Agents" "agentapi" "Agentapi" ("port" ∷ []) agents w.agents_word
                  refl w.agentapi_word refl)
                (Reported-add _ _ _ _
                  (miss "agents" "Agents" "agentapi" "Agentapi" ("base_url" ∷ []) agents
                    w.agents_word refl w.agentapi_word refl)
                  Reported-nil))))
          Reported-nil

    logging_reach :
        (to_lower : String → String) (c : LoggingConfig) → Reported (validate_logging to_lower c)
    unfolding validate_logging split field_by_name
    logging_reach to_lower c =
        (Reported-add _ _ _ _
          (hit "logging" "Logging" "output" "Output" logging w.logging_word refl w.output_word refl)
          (Reported-add _ _ _ _
            (hit "logging" "Logging" "format" "Format" logging w.logging_word refl w.format_word
              refl)
            (Reported-add _ _ _ _
              (hit "logging" "Logging" "level" "Level" logging w.logging_word refl w.level_word
                refl)
              Reported-nil)))

    validate_reach :
        (F : Float64) (to_lower : String → String) (c : Config F)
        → All Reaches (validate F to_lower c)
    unfolding validate Reported
    validate_reach F to_lower c =
        All-append Reaches (validate_server c.server) _ (server_reach c.server) (
          All-append Reaches (validate_routing F c.routing) _ routing_reach (
            All-append Reaches (validate_agents c.agentapi) _ (agents_reach c.agentapi)
              (logging_reach to_lower c.logging)))
      where
        routing_reach : Reported (validate_routing F c.routing)
        routing_reach = mirt_reach F c.routing.mirt _ (
            arch_router_reach c.routing.arch_router _
              (route_llm_reach F c.routing.route_llm [] Reported-nil))

    reached :
        (F : Float64) (to_lower : String → String) (c : Config F) (e : ValidationError)
        → Reaches e
        → validate_field F to_lower title c e.field ≡ (
            if one_of reachable_fields e.field
            then report (errors_under e.field (validate F to_lower c))
            else not_found e.field)
    unfolding validate_field
    reached F to_lower c e r = elim (Bool-cases (one_of reachable_fields e.field)) [
      | inl y ↦ rw (r, y, validate_field)
      | inr n ↦ rw (r, n, validate_field)
    ]

    -- `ValidateField`, asked for the path of an error that `Validate` reports: for server.port,
    -- server.host and the three logging settings it returns the errors whose path begins with it;
    -- for any other, such as server.read_timeout or routing.mirt.dimensions, it answers that there
    -- is no such field.
    pub validate_field_reach :
        (F : Float64) (to_lower : String → String) (c : Config F)
        → All
            (λ e. validate_field F to_lower title c e.field ≡ (
              if one_of reachable_fields e.field
              then report (errors_under e.field (validate F to_lower c))
              else not_found e.field))
            (validate F to_lower c)
    validate_field_reach F to_lower c =
        All-map (reached F to_lower c) (validate F to_lower c) (validate_reach F to_lower c)
