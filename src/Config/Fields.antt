-- ===== src/Config/Fields.antt =====
-- config/validation.go: `ValidateField`, with reflection on the configuration's types as a table of
-- their fields.
--
-- `strings.Title` is the parameter `title`, with its values at the words of the error paths as a
-- hypothesis.
pub mod Reach
use argis_extensions.Prelude.{
  ℕ, ◌≡◌, String, Bool, true, false, Option, none, some, List, [], ◌∷◌, if◌then◌else◌, str_eq, ◌==◌,
  not,
}
use argis_extensions.Prelude.Float.{Float64}
use argis_extensions.Config.{Config}
use argis_extensions.Config.Validation.{ValidationError, validate, one_of}
use Prim.Native.Char.{Char, code}
use text.Mathlib.Text.{starts_with}

-- The parts that the dots before the end of a text separate, with what stands before it.
split_from : String → String → List String
split_from acc String.[] = acc ∷ []
split_from acc (String.◌∷◌ c s) =
    let next = split_from "" s in
    let more = split_from (Prim.Native.String.◌++◌ acc (String.◌∷◌ c String.[])) s in
    if code c == b'.' then acc ∷ next else more

-- `strings.Split(path, ".")`.
unfoldable pub split : String → List String
unfolding split_from
split path = split_from "" path

-- The types that `FieldByName` is asked on; all that are no structs are `plain`.
pub data Kind : Type 0 where
  config server routing route_llm arch_router mirt semantic agents agent_api oauth logging plugins
        plain :
      Kind

pub data Found : Type 0 where
  invalid panics : Found
  value : Kind → Found

abbrev find_field : List (String × Kind) → String → Found
find_field [] name = invalid
find_field ((f, k) ∷ fs) name = if str_eq f name then value k else find_field fs name

-- The fields of each struct of config.go.
unfoldable pub field_by_name : Kind → String → Found
field_by_name config = find_field (
    ("Server", server)
    ∷ ("Routing", routing)
    ∷ ("Agents", agents)
    ∷ ("OAuth", oauth)
    ∷ ("Logging", logging)
    ∷ ("Plugins", plugins)
    ∷ [])
field_by_name server = find_field (
    ("Host", plain)
    ∷ ("Port", plain)
    ∷ ("ReadTimeout", plain)
    ∷ ("WriteTimeout", plain)
    ∷ ("MaxRequestSize", plain)
    ∷ ("AllowedOrigins", plain)
    ∷ ("AllowedHosts", plain)
    ∷ [])
field_by_name routing = find_field (
    ("RouteLLM", route_llm)
    ∷ ("ArchRouter", arch_router)
    ∷ ("MIRT", mirt)
    ∷ ("Semantic", semantic)
    ∷ [])
field_by_name route_llm = find_field (
    ("Enabled", plain)
    ∷ ("Endpoint", plain)
    ∷ ("Model", plain)
    ∷ ("Timeout", plain)
    ∷ ("Threshold", plain)
    ∷ [])
field_by_name arch_router =
    find_field (("Enabled", plain) ∷ ("Endpoint", plain) ∷ ("Timeout", plain) ∷ [])
field_by_name mirt =
    find_field (("Enabled", plain) ∷ ("Dimensions", plain) ∷ ("MinScore", plain) ∷ [])
field_by_name semantic = find_field (("Enabled", plain) ∷ [])
field_by_name agents = find_field (("AgentAPI", agent_api) ∷ [])
field_by_name agent_api = find_field (
    ("Enabled", plain)
    ∷ ("BaseURL", plain)
    ∷ ("Port", plain)
    ∷ ("Timeout", plain)
    ∷ ("PollInterval", plain)
    ∷ ("MaxWaitTime", plain)
    ∷ ("TerminalWidth", plain)
    ∷ ("TerminalHeight", plain)
    ∷ ("DefaultAgent", plain)
    ∷ [])
field_by_name oauth =
    find_field (("Enabled", plain) ∷ ("AuthDir", plain) ∷ ("Providers", plain) ∷ [])
field_by_name logging = find_field (("Level", plain) ∷ ("Format", plain) ∷ ("Output", plain) ∷ [])
field_by_name plugins =
    find_field (("IntelligentRouter", plain) ∷ ("Learning", plain) ∷ ("SmartFallback", plain) ∷ [])
-- `FieldByName` on a value that is no struct panics.
field_by_name plain = λ name. panics

-- The loop of `ValidateField` over the parts.
unfoldable pub navigate : (String → String) → List String → Kind → Found
unfolding field_by_name
navigate title [] k = value k
navigate title (p ∷ ps) k = elim (field_by_name k (title p)) [
  | invalid ↦ invalid
  | panics ↦ panics
  | value k' ↦ navigate title ps k'
]

pub data FieldResult : Type 0 where
  nil_error panicked : FieldResult
  not_found : String → FieldResult
  field_errors : List ValidationError → FieldResult

unfoldable pub errors_under : String → List ValidationError → List ValidationError
errors_under path [] = []
errors_under path (e ∷ es) =
    let rest = errors_under path es in if starts_with e.field path then e ∷ rest else rest

abbrev pub report : List ValidationError → FieldResult
report [] = nil_error
report (e ∷ es) = field_errors (e ∷ es)

unfoldable pub validate_field :
    (F : Float64) → (String → String) → (String → String) → Config F → String → FieldResult
unfolding split navigate errors_under
validate_field F to_lower title c path = elim (navigate title (split path) config) [
  | invalid ↦ not_found path
  | panics ↦ panicked
  | value k ↦ report (errors_under path (validate F to_lower c))
]
