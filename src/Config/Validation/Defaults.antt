-- ===== src/Config/Validation/Defaults.antt =====
-- config/config.go, config/validation.go: which of the defaults pass validation.
use argis_extensions.Prelude.{◌≡◌, refl, ◌↔◌, String, Bool, true, false, ◌||◌, [], arith}
use mathlib.Core.List.{append-nil}
use argis_extensions.Prelude.Int.{pos}
use argis_extensions.Prelude.Float.{Float64}
use argis_extensions.Config.{Config, default_config, set_defaults}
use argis_extensions.Config.Validation.{
  add_if, validate, validate_server, validate_routing, validate_agents, validate_logging,
}
use argis_extensions.Config.Validation.Exact.{IsUnit}

-- The three literals of the defaults lie between 0 and 1.
pub record LiteralsInUnit (F : Float64) : Type 0 where
  pub half : IsUnit F (F.ratio 1 2)
  pub three_tenths : IsUnit F (F.ratio 3 10)
  pub zero' : IsUnit F (F.of_int (pos 0))

-- `strings.ToLower` leaves the words of the defaults as they are.
pub record KeepsDefaults (to_lower : String → String) : Type 0 where
  pub info : to_lower "info" ≡ "info"
  pub json : to_lower "json" ≡ "json"
  pub stdout : to_lower "stdout" ≡ "stdout"

-- The configuration with RouteLLM, Arch-Router and the agent API switched on or off.
abbrev pub switch : {F : Float64} → Bool → Bool → Bool → Config F → Config F
switch r a g c = record c {
  routing = record (c.routing) {
    route_llm = record (c.routing.route_llm) { enabled = r };
    arch_router = record (c.routing.arch_router) { enabled = a };
  };
  agentapi = record (c.agentapi) { enabled = g };
}

module _ (F : Float64) (to_lower : String → String) (l : LiteralsInUnit F)
    (k : KeepsDefaults to_lower) where
  server_valid : validate_server (default_config F).server ≡ []
  unfolding default_config validate_server add_if
  server_valid = refl

  logging_valid : validate_logging to_lower (default_config F).logging ≡ []
  unfolding default_config validate_logging add_if
  logging_valid = rw (k.info, k.json, k.stdout)

  agents_valid :
      (g : Bool) → validate_agents (record ((default_config F).agentapi) { enabled = g }) ≡ []
  unfolding default_config validate_agents add_if
  agents_valid true = refl
  agents_valid false = refl

  routing_valid :
      (r a : Bool) → validate_routing F (switch r a false (default_config F)).routing ≡ []
  unfolding default_config validate_routing add_if
  routing_valid r a = ground (arith, l.half, l.three_tenths)

  -- `DefaultConfig` is valid, and stays so with RouteLLM, Arch-Router and the agent API switched
  -- on or off in any combination.
  pub default_config_valid :
      (r a g : Bool) → validate F to_lower (switch r a g (default_config F)) ≡ []
  unfolding validate
  default_config_valid r a g = rw (server_valid, routing_valid r a, agents_valid g, logging_valid)

  loaded_routing :
      (r a : Bool)
      → (validate_routing F (switch r a false (set_defaults F)).routing ≡ []) ↔ (r || a ≡ false)
  unfolding set_defaults validate_routing add_if
  loaded_routing r a = ground (arith, l.half, l.zero')

  loaded_agents :
      (g : Bool) → validate_agents (record ((set_defaults F).agentapi) { enabled = g }) ≡ []
  unfolding set_defaults validate_agents add_if
  loaded_agents true = refl
  loaded_agents false = refl

  loaded_server : validate_server (set_defaults F).server ≡ []
  unfolding set_defaults validate_server add_if
  loaded_server = refl

  loaded_logging : validate_logging to_lower (set_defaults F).logging ≡ []
  unfolding set_defaults validate_logging add_if
  loaded_logging = rw (k.info, k.json, k.stdout)

  only_routing :
      (r a g : Bool)
      → validate F to_lower (switch r a g (set_defaults F))
        ≡ validate_routing F (switch r a false (set_defaults F)).routing
  unfolding validate
  only_routing r a g = rw (loaded_server, loaded_agents g, loaded_logging) (append-nil _)

  -- What a load makes of the defaults of `setDefaults` alone is valid just when both RouteLLM and
  -- Arch-Router are off: switching either on, with no timeout set by the file, is refused.
  pub set_defaults_valid_iff :
      (r a g : Bool) → (validate F to_lower (switch r a g (set_defaults F)) ≡ []) ↔ (r || a ≡ false)
  set_defaults_valid_iff r a g = rw (only_routing r a g) (loaded_routing r a)
