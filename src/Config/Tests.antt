-- ===== src/Config/Tests.antt =====
-- config: runs on concrete inputs.
use argis_extensions.Prelude.{
  ℕ, ◌≡◌, ◌↔◌, refl, String, true, false, ◌||◌, none, some, List, [], ◌∷◌, map, str_eq, arith, All,
  if◌then◌else◌,
}
use argis_extensions.Prelude.Int.{pos}
use argis_extensions.Prelude.Float.{micros}
use argis_extensions.Config.{Config, default_config, set_defaults}
use argis_extensions.Config.Validation.{validate, add_if, one_of}
use argis_extensions.Config.Validation.Exact.{IsWellFormed, validate_iff}
use argis_extensions.Config.Validation.Defaults.{
  LiteralsInUnit, KeepsDefaults, switch, set_defaults_valid_iff,
}
use argis_extensions.Config.Fields.{field_by_name, not_found, report, errors_under, validate_field}
use argis_extensions.Config.Fields.Reach.{IsTitle, reachable_fields, validate_field_reach}
use argis_extensions.Config.Versioning.{VersionedConfig, change_history_since}
use argis_extensions.Config.Versioning.History.{Recording, record_all, history_since_recorded}
use argis_extensions.Config.HotReload.{Event, file_event, timer, done, HotReloader, reload, watch}
use argis_extensions.Config.HotReload.Delivery.{IsAccepted, watch-IsAccepted, burst_reloads_once}

abbrev same : String → String
same s = s

literals : LiteralsInUnit micros
literals = record { half = (refl, refl); three_tenths = (refl, refl); zero' = (refl, refl) }

same_keeps : KeepsDefaults same
same_keeps = record { info = refl; json = refl; stdout = refl }

-- A server that listens on no port and never times out.
abbrev closed_port : Config micros
closed_port =
    unfold default_config in
    record (default_config micros) {
      server = record ((default_config micros).server) { port = pos 0; read_timeout = pos 0 };
    }

validate_iff_example :
    (validate micros same closed_port ≡ []) ↔ IsWellFormed micros same closed_port
validate_iff_example = validate_iff micros same closed_port

set_defaults_valid_iff_example :
    (validate micros same (switch true false true (set_defaults micros)) ≡ [])
    ↔ (true || false ≡ false)
set_defaults_valid_iff_example =
    set_defaults_valid_iff micros same literals same_keeps true false true

-- A `strings.Title` for texts of one word.
abbrev title_table : List (String × String) → String → String
title_table [] s = s
title_table ((w, t) ∷ ws) s = if str_eq w s then t else title_table ws s

abbrev title : String → String
title = title_table (
    ("server", "Server")
    ∷ ("port", "Port")
    ∷ ("host", "Host")
    ∷ ("read_timeout", "Read_timeout")
    ∷ ("write_timeout", "Write_timeout")
    ∷ ("max_request_size_mb", "Max_request_size_mb")
    ∷ ("routing", "Routing")
    ∷ ("routellm", "Routellm")
    ∷ ("arch_router", "Arch_router")
    ∷ ("mirt", "Mirt")
    ∷ ("agents", "Agents")
    ∷ ("agentapi", "Agentapi")
    ∷ ("logging", "Logging")
    ∷ ("level", "Level")
    ∷ ("format", "Format")
    ∷ ("output", "Output")
    ∷ [])

title-IsTitle : IsTitle title
title-IsTitle = record {
  server_word = refl;
  port_word = refl;
  host_word = refl;
  read_timeout_word = refl;
  write_timeout_word = refl;
  max_request_size_mb_word = refl;
  routing_word = refl;
  routellm_word = refl;
  arch_router_word = refl;
  mirt_word = refl;
  agents_word = refl;
  agentapi_word = refl;
  logging_word = refl;
  level_word = refl;
  format_word = refl;
  output_word = refl;
}

validate_field_reach_example :
    All
      (λ e. validate_field micros same title closed_port e.field ≡ (
        if one_of reachable_fields e.field
        then report (errors_under e.field (validate micros same closed_port))
        else not_found e.field))
      (validate micros same closed_port)
validate_field_reach_example = validate_field_reach title title-IsTitle micros same closed_port

-- Both settings are refused, and only one of them can be asked about.
closed_port_fields :
    (map (λ e. e.field) (validate micros same closed_port)
      ≡ "server.port" ∷ "server.read_timeout" ∷ [])
    × (validate_field micros same title closed_port "server.read_timeout"
        ≡ not_found "server.read_timeout")
unfolding validate add_if validate_field field_by_name default_config
closed_port_fields = (refl, refl)

abbrev version_one : VersionedConfig micros
version_one = record {
  config = closed_port;
  version = "1";
  hash = "h";
  history = record { version = "1"; hash = "h"; timestamp = 4; changes = "first" ∷ [] } ∷ [];
  last_updated = 4;
}

abbrev recordings : List Recording
recordings =
    record { now = 5; now' = 5; stamp = 5; description = "second" }
    ∷ record { now = 6; now' = 6; stamp = 7; description = "third" }
    ∷ []

history_since_recorded_example :
    map
      (λ v. v.changes)
      (change_history_since 4
        (record_all micros (λ c. "0123456789") (λ n. "n") recordings version_one).history)
    ≡ ("second" ∷ []) ∷ ("third" ∷ []) ∷ []
history_since_recorded_example =
    history_since_recorded micros (λ c. "0123456789") (λ n. "n") 4 recordings version_one
      (omega arith) (omega arith)

abbrev reloader : HotReloader micros ℕ
reloader = record {
  base_name = "config.yaml";
  callbacks = 1 ∷ 2 ∷ [];
  deadline = none;
  running = true;
  calls = [];
}

abbrev edits : List (Event micros)
edits =
    file_event 10 true "config.yaml"
    ∷ timer 600 (some closed_port)
    ∷ file_event 700 true "config.yaml"
    ∷ timer 1300 (some (default_config micros))
    ∷ done
    ∷ []

watch-IsAccepted_example : All (IsAccepted micros same) (watch micros same edits reloader).calls
watch-IsAccepted_example = watch-IsAccepted micros same edits reloader tt

burst_reloads_once_example :
    watch micros same
      (file_event 10 true "config.yaml"
        ∷ file_event 20 true "config.yaml"
        ∷ timer 520 (some closed_port)
        ∷ timer 900 (some closed_port)
        ∷ [])
      reloader
    ≡ reload micros same (some closed_port) reloader
burst_reloads_once_example =
    burst_reloads_once micros same 10 (20 ∷ []) 520 (some closed_port)
      ((900, some closed_port) ∷ []) reloader refl (omega arith)
