-- ===== src/Config/Validation/Exact.antt =====
-- config/validation.go: a configuration is accepted exactly when it is well formed.
use argis_extensions.Prelude.{
  String, ◌≡◌, ◌≢◌, refl, ◌↔◌, ◌⊎◌, Bool, true, false, ◌++◌, [], ◌∷◌, List, not, arith, eq_iff,
  Bool-cases, inl, inr, ◌∙◌,
}
use argis_extensions.Prelude.Int.{ℤ, pos, ◌≤ℤ◌, ◌<ℤ◌}
use argis_extensions.Prelude.Float.{Float64}
use argis_extensions.Config.{
  ServerConfig, RouteLlmConfig, ArchRouterConfig, MirtConfig, RoutingConfig, AgentApiConfig,
  LoggingConfig, Config,
}
use argis_extensions.Config.Validation.{
  ValidationError, validate, validate_server, validate_routing, validate_route_llm,
  validate_arch_router, validate_mirt, validate_agents, validate_logging, valid_levels,
  valid_formats, valid_outputs, one_of, add_if,
}

abbrev pub IsPort : ℤ → Type 0
IsPort p = (pos 1 ≤ℤ p) × (p ≤ℤ pos 65535)

pub record IsServer (c : ServerConfig) : Type 0 where
  pub port : IsPort c.port
  pub host : c.host ≢ ""
  pub read_timeout : pos 0 <ℤ c.read_timeout
  pub write_timeout : pos 0 <ℤ c.write_timeout
  pub max_request_size : pos 0 <ℤ c.max_request_size

-- Neither below 0 nor above 1. (NaN is neither.)
abbrev pub IsUnit : (F : Float64) → F.Carrier → Type 0
IsUnit F x = (F.lt x (F.of_int (pos 0)) ≡ false) × (F.lt (F.of_int (pos 1)) x ≡ false)

pub record IsRouting (F : Float64) (c : RoutingConfig F) : Type 0 where
  pub route_llm :
      c.route_llm.enabled ≡ true
      → (c.route_llm.endpoint ≢ "")
        × IsUnit F c.route_llm.threshold
        × (pos 0 <ℤ c.route_llm.timeout)
  pub arch_router :
      c.arch_router.enabled ≡ true
      → (c.arch_router.endpoint ≢ "") × (pos 0 <ℤ c.arch_router.timeout)
  pub mirt : c.mirt.enabled ≡ true → (pos 1 ≤ℤ c.mirt.dimensions) × IsUnit F c.mirt.min_score

pub record IsAgentApi (c : AgentApiConfig) : Type 0 where
  pub usable :
      c.enabled ≡ true
      → (c.base_url ≢ "") × IsPort c.port × (pos 0 <ℤ c.timeout) × (c.default_agent ≢ "")

abbrev pub OneOf : List String → String → Type 0
OneOf [] s = ⊥
OneOf (k ∷ ks) s = (k ≡ s) ⊎ OneOf ks s

pub record IsLogging (to_lower : String → String) (c : LoggingConfig) : Type 0 where
  pub level : OneOf valid_levels (to_lower c.level)
  pub format : OneOf valid_formats (to_lower c.format)
  pub output : OneOf valid_outputs (to_lower c.output)

IsServer-sound : (c : ServerConfig) → validate_server c ≡ [] → IsServer c
unfolding validate_server add_if
IsServer-sound c h = ground (arith, eq_iff c.host "")

server_complete : (c : ServerConfig) → IsServer c → validate_server c ≡ []
unfolding validate_server add_if
server_complete c h = ground (arith, eq_iff c.host "")

agents_sound : (c : AgentApiConfig) → validate_agents c ≡ [] → IsAgentApi c
unfolding validate_agents add_if
agents_sound c h = ground (arith, eq_iff c.base_url "", eq_iff c.default_agent "")

agents_complete : (c : AgentApiConfig) → IsAgentApi c → validate_agents c ≡ []
unfolding validate_agents add_if
agents_complete c h = elim (Bool-cases c.enabled) [
  | inr off ↦ rw off
  | inl on ↦ ground (arith, h.usable on, eq_iff c.base_url "", eq_iff c.default_agent "")
]

-- A part of the routing check adds nothing exactly when its part is well formed.
route_llm_sound :
    (F : Float64) (c : RouteLlmConfig F) (errors : List ValidationError)
    → validate_route_llm F c errors ≡ []
    → (errors ≡ [])
      × (c.enabled ≡ true → (c.endpoint ≢ "") × IsUnit F c.threshold × (pos 0 <ℤ c.timeout))
unfolding validate_route_llm add_if
route_llm_sound F c [] h = ground (arith, eq_iff c.endpoint "")
route_llm_sound F c (x ∷ xs) h = ground (arith, eq_iff c.endpoint "")

route_llm_complete :
    (F : Float64) (c : RouteLlmConfig F) (errors : List ValidationError)
    → (c.enabled ≡ true → (c.endpoint ≢ "") × IsUnit F c.threshold × (pos 0 <ℤ c.timeout))
    → validate_route_llm F c errors ≡ errors
unfolding validate_route_llm add_if
route_llm_complete F c errors h = elim (Bool-cases c.enabled) [
  | inr off ↦ rw off
  | inl on ↦ ground (arith, h on, eq_iff c.endpoint "")
]

arch_router_sound :
    (c : ArchRouterConfig) (errors : List ValidationError)
    → validate_arch_router c errors ≡ []
    → (errors ≡ []) × (c.enabled ≡ true → (c.endpoint ≢ "") × (pos 0 <ℤ c.timeout))
unfolding validate_arch_router add_if
arch_router_sound c [] h = ground (arith, eq_iff c.endpoint "")
arch_router_sound c (x ∷ xs) h = ground (arith, eq_iff c.endpoint "")

arch_router_complete :
    (c : ArchRouterConfig) (errors : List ValidationError)
    → (c.enabled ≡ true → (c.endpoint ≢ "") × (pos 0 <ℤ c.timeout))
    → validate_arch_router c errors ≡ errors
unfolding validate_arch_router add_if
arch_router_complete c errors h = elim (Bool-cases c.enabled) [
  | inr off ↦ rw off
  | inl on ↦ ground (arith, h on, eq_iff c.endpoint "")
]

mirt_sound :
    (F : Float64) (c : MirtConfig F) (errors : List ValidationError)
    → validate_mirt F c errors ≡ []
    → (errors ≡ []) × (c.enabled ≡ true → (pos 1 ≤ℤ c.dimensions) × IsUnit F c.min_score)
unfolding validate_mirt add_if
mirt_sound F c [] h = ground arith
mirt_sound F c (x ∷ xs) h = ground arith

mirt_complete :
    (F : Float64) (c : MirtConfig F) (errors : List ValidationError)
    → (c.enabled ≡ true → (pos 1 ≤ℤ c.dimensions) × IsUnit F c.min_score)
    → validate_mirt F c errors ≡ errors
unfolding validate_mirt add_if
mirt_complete F c errors h = elim (Bool-cases c.enabled) [
  | inr off ↦ rw off
  | inl on ↦ ground (arith, h on)
]

IsRouting-iff : (F : Float64) (c : RoutingConfig F) → (validate_routing F c ≡ []) ↔ IsRouting F c
unfolding validate_routing
IsRouting-iff F c = (sound, complete)
  where
    sound : validate_routing F c ≡ [] → IsRouting F c
    sound h =
        let r1 = validate_route_llm F c.route_llm [] in
        let (e2, m) = mirt_sound F c.mirt (validate_arch_router c.arch_router r1) h in
        let (e1, a) = arch_router_sound c.arch_router r1 e2 in
        let (e0, r) = route_llm_sound F c.route_llm [] e1 in
        record { route_llm = r; arch_router = a; mirt = m }

    complete : IsRouting F c → validate_routing F c ≡ []
    complete h =
        let r1 = validate_route_llm F c.route_llm [] in
        mirt_complete F c.mirt (validate_arch_router c.arch_router r1) h.mirt
        ∙ (arch_router_complete c.arch_router r1 h.arch_router
            ∙ route_llm_complete F c.route_llm [] h.route_llm)

one_of_iff : (ks : List String) (s : String) → (one_of ks s ≡ true) ↔ OneOf ks s
one_of_iff [] s = ground arith
one_of_iff (k ∷ ks) s = ground (arith, eq_iff k s, one_of_iff ks s)

three_checks :
    (a b c : Bool) (f g h m n o : String)
    → add_if (not c) h o (add_if (not b) g n (add_if (not a) f m [])) ≡ []
    → (a ≡ true) × (b ≡ true) × (c ≡ true)
unfolding add_if
three_checks true true true f g h m n o e = (refl, refl, refl)
three_checks true true false f g h m n o e = cc
three_checks true false true f g h m n o e = cc
three_checks true false false f g h m n o e = cc
three_checks false true true f g h m n o e = cc
three_checks false true false f g h m n o e = cc
three_checks false false c f g h m n o e = ground arith

IsLogging-iff :
    (to_lower : String → String) (c : LoggingConfig)
    → (validate_logging to_lower c ≡ []) ↔ IsLogging to_lower c
unfolding validate_logging add_if
IsLogging-iff to_lower c = (sound, complete)
  where
    sound : validate_logging to_lower c ≡ [] → IsLogging to_lower c
    sound h =
        let (l, f, o) =
          three_checks (one_of valid_levels (to_lower c.level))
            (one_of valid_formats (to_lower c.format)) (one_of valid_outputs (to_lower c.output)) _
            _ _ _ _ _ h in
        record {
          level = (one_of_iff valid_levels (to_lower c.level)).0 l;
          format = (one_of_iff valid_formats (to_lower c.format)).0 f;
          output = (one_of_iff valid_outputs (to_lower c.output)).0 o;
        }

    complete : IsLogging to_lower c → validate_logging to_lower c ≡ []
    complete h = rw (
      (one_of_iff valid_levels (to_lower c.level)).1 h.level,
      (one_of_iff valid_formats (to_lower c.format)).1 h.format,
      (one_of_iff valid_outputs (to_lower c.output)).1 h.output,
    )

append-eq-nil {ℓ} : {A : Type ℓ} (xs ys : List A) → xs ++ ys ≡ [] → (xs ≡ []) × (ys ≡ [])
append-eq-nil [] ys h = (refl, h)
append-eq-nil (x ∷ xs) ys h = cc

pub record IsWellFormed (F : Float64) (to_lower : String → String) (c : Config F) : Type 0 where
  pub server : IsServer c.server
  pub routing : IsRouting F c.routing
  pub agents : IsAgentApi c.agentapi
  pub logging : IsLogging to_lower c.logging

-- `Validate` reports nothing exactly when every rule holds: those of the server and of logging
-- always, those of a router or of the agent API when it is enabled.
pub validate_iff :
    (F : Float64) (to_lower : String → String) (c : Config F)
    → (validate F to_lower c ≡ []) ↔ IsWellFormed F to_lower c
unfolding validate
validate_iff F to_lower c = (sound, complete)
  where
    sound : validate F to_lower c ≡ [] → IsWellFormed F to_lower c
    sound h =
        let (s, h1) = append-eq-nil (validate_server c.server) _ h in
        let (r, h2) = append-eq-nil (validate_routing F c.routing) _ h1 in
        let (a, l) = append-eq-nil (validate_agents c.agentapi) _ h2 in
        record {
          server = IsServer-sound c.server s;
          routing = (IsRouting-iff F c.routing).0 r;
          agents = agents_sound c.agentapi a;
          logging = (IsLogging-iff to_lower c.logging).0 l;
        }

    complete : IsWellFormed F to_lower c → validate F to_lower c ≡ []
    complete h = rw (
      server_complete c.server h.server,
      (IsRouting-iff F c.routing).1 h.routing,
      agents_complete c.agentapi h.agents,
      (IsLogging-iff to_lower c.logging).1 h.logging,
    )
