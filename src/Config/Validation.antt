-- ===== src/Config/Validation.antt =====
-- config/validation.go: `Validate`. `strings.ToLower`, whose table of Unicode is not in these
-- files, is the parameter `to_lower`.
pub mod Exact
pub mod Defaults
use argis_extensions.Prelude.{
  String, Bool, true, false, ◌||◌, not, Option, none, some, List, [], ◌∷◌, ◌++◌, if◌then◌else◌,
  snoc, str_eq,
}
use argis_extensions.Prelude.Int.{ℤ, pos, ltb_ℤ, leb_ℤ}
use argis_extensions.Prelude.Float.{Float64}
use argis_extensions.Config.{
  ServerConfig, RouteLlmConfig, ArchRouterConfig, MirtConfig, RoutingConfig, AgentApiConfig,
  LoggingConfig, Config,
}

pub record ValidationError : Type 0 where
  pub field : String
  pub message : String

-- `if bad { errors = append(errors, &ValidationError{field, message}) }`.
unfoldable pub add_if : Bool → String → String → List ValidationError → List ValidationError
add_if bad field message errors =
    if bad then snoc errors (record { field = field; message = message }) else errors

abbrev pub bad_port : ℤ → Bool
bad_port p = ltb_ℤ p (pos 1) || ltb_ℤ (pos 65535) p

unfoldable pub validate_server : ServerConfig → List ValidationError
validate_server c =
    let e1 = add_if (bad_port c.port) "server.port" "port must be between 1 and 65535" [] in
    let e2 = add_if (str_eq c.host "") "server.host" "host cannot be empty" e1 in
    let e3 =
      add_if (leb_ℤ c.read_timeout (pos 0)) "server.read_timeout" "read_timeout must be positive"
        e2 in
    let e4 =
      add_if (leb_ℤ c.write_timeout (pos 0)) "server.write_timeout" "write_timeout must be positive"
        e3 in
    add_if (leb_ℤ c.max_request_size (pos 0)) "server.max_request_size_mb"
      "max_request_size_mb must be positive" e4

module _ (F : Float64) where
  abbrev pub out_of_unit : F.Carrier → Bool
  out_of_unit x = F.lt x (F.of_int (pos 0)) || F.lt (F.of_int (pos 1)) x

  unfoldable pub validate_route_llm : RouteLlmConfig F → List ValidationError → List ValidationError
  validate_route_llm c errors =
      let e1 =
        add_if (str_eq c.endpoint "") "routing.routellm.endpoint"
          "endpoint is required when routellm is enabled" errors in
      let e2 =
        add_if (out_of_unit c.threshold) "routing.routellm.threshold"
          "threshold must be between 0 and 1" e1 in
      let e3 =
        add_if (leb_ℤ c.timeout (pos 0)) "routing.routellm.timeout_ms" "timeout_ms must be positive"
          e2 in
      if c.enabled then e3 else errors

  unfoldable pub validate_mirt : MirtConfig F → List ValidationError → List ValidationError
  validate_mirt c errors =
      let e1 =
        add_if (ltb_ℤ c.dimensions (pos 1)) "routing.mirt.dimensions"
          "dimensions must be at least 1" errors in
      let e2 =
        add_if (out_of_unit c.min_score) "routing.mirt.min_score"
          "min_score must be between 0 and 1" e1 in
      if c.enabled then e2 else errors

unfoldable pub validate_arch_router : ArchRouterConfig → List ValidationError → List ValidationError
validate_arch_router c errors =
    let e1 =
      add_if (str_eq c.endpoint "") "routing.arch_router.endpoint"
        "endpoint is required when arch_router is enabled" errors in
    let e2 =
      add_if (leb_ℤ c.timeout (pos 0)) "routing.arch_router.timeout_ms"
        "timeout_ms must be positive" e1 in
    if c.enabled then e2 else errors

unfoldable pub validate_routing : (F : Float64) → RoutingConfig F → List ValidationError
unfolding validate_route_llm validate_arch_router validate_mirt
validate_routing F c =
    let e1 = validate_route_llm F c.route_llm [] in
    let e2 = validate_arch_router c.arch_router e1 in validate_mirt F c.mirt e2

unfoldable pub validate_agents : AgentApiConfig → List ValidationError
validate_agents c =
    let e1 =
      add_if (str_eq c.base_url "") "agents.agentapi.base_url"
        "base_url is required when agentapi is enabled" [] in
    let e2 =
      add_if (bad_port c.port) "agents.agentapi.port" "port must be between 1 and 65535" e1 in
    let e3 =
      add_if (leb_ℤ c.timeout (pos 0)) "agents.agentapi.timeout" "timeout must be positive" e2 in
    let e4 =
      add_if (str_eq c.default_agent "") "agents.agentapi.default_agent"
        "default_agent is required when agentapi is enabled" e3 in
    if c.enabled then e4 else []

-- Membership in a literal `map[string]bool`.
abbrev pub one_of : List String → String → Bool
one_of [] s = false
one_of (k ∷ ks) s = str_eq k s || one_of ks s

abbrev pub valid_levels : List String
valid_levels = "debug" ∷ "info" ∷ "warn" ∷ "error" ∷ []

abbrev pub valid_formats : List String
valid_formats = "json" ∷ "text" ∷ "color" ∷ []

abbrev pub valid_outputs : List String
valid_outputs = "stdout" ∷ "stderr" ∷ "file" ∷ []

unfoldable pub validate_logging : (String → String) → LoggingConfig → List ValidationError
validate_logging to_lower c =
    let e1 =
      add_if (not (one_of valid_levels (to_lower c.level))) "logging.level"
        "level must be one of: debug, info, warn, error" [] in
    let e2 =
      add_if (not (one_of valid_formats (to_lower c.format))) "logging.format"
        "format must be one of: json, text, color" e1 in
    add_if (not (one_of valid_outputs (to_lower c.output))) "logging.output"
      "output must be one of: stdout, stderr, file" e2

-- `Validate`: nil, that is no errors, or all of them.
unfoldable pub validate : (F : Float64) → (String → String) → Config F → List ValidationError
unfolding validate_server validate_routing validate_agents validate_logging
validate F to_lower c =
    validate_server c.server
    ++ (validate_routing F c.routing
        ++ (validate_agents c.agentapi ++ validate_logging to_lower c.logging))
