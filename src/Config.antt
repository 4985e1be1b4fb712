-- ===== src/Config.antt =====
-- config/config.go: the configuration, its defaults, and what a load without file or environment
-- yields. Durations are in nanoseconds. `Routing`, `Agents` and the rest are as in the source; the
-- OAuth providers are an association list.
pub mod Validation
pub mod Fields
pub mod Versioning
pub mod HotReload
pub mod Secrets
mod Tests
use argis_extensions.Prelude.{String, Bool, true, false, List, [], ◌∷◌, map}
use argis_extensions.Prelude.Int.{ℤ, pos}
use argis_extensions.Prelude.Float.{Float64}

pub record ServerConfig : Type 0 where
  pub host : String
  pub port : ℤ
  pub read_timeout : ℤ
  pub write_timeout : ℤ
  pub max_request_size : ℤ
  pub allowed_origins : List String
  pub allowed_hosts : List String

pub record RouteLlmConfig (F : Float64) : Type 0 where
  pub enabled : Bool
  pub endpoint : String
  pub model : String
  pub timeout : ℤ
  pub threshold : F.Carrier

pub record ArchRouterConfig : Type 0 where
  pub enabled : Bool
  pub endpoint : String
  pub timeout : ℤ

pub record MirtConfig (F : Float64) : Type 0 where
  pub enabled : Bool
  pub dimensions : ℤ
  pub min_score : F.Carrier

pub record RoutingConfig (F : Float64) : Type 0 where
  pub route_llm : RouteLlmConfig F
  pub arch_router : ArchRouterConfig
  pub mirt : MirtConfig F
  pub semantic_enabled : Bool

pub record AgentApiConfig : Type 0 where
  pub enabled : Bool
  pub base_url : String
  pub port : ℤ
  pub timeout : ℤ
  pub poll_interval : ℤ
  pub max_wait_time : ℤ
  pub terminal_width : ℤ
  pub terminal_height : ℤ
  pub default_agent : String

pub record OauthProvider : Type 0 where
  pub enabled : Bool
  pub client_id : String
  pub redirect_uri : String
  pub token_url : String
  pub auth_url : String
  pub scopes : String
  pub refresh_token : String
  pub access_token : String

pub record OauthConfig : Type 0 where
  pub enabled : Bool
  pub auth_dir : String
  pub providers : List (String × OauthProvider)

pub record LoggingConfig : Type 0 where
  pub level : String
  pub format : String
  pub output : String

pub record PluginsConfig : Type 0 where
  pub intelligent_router : Bool
  pub learning : Bool
  pub smart_fallback : Bool

pub record Config (F : Float64) : Type 0 where
  pub server : ServerConfig
  pub routing : RoutingConfig F
  pub agentapi : AgentApiConfig
  pub oauth : OauthConfig
  pub logging : LoggingConfig
  pub plugins : PluginsConfig

abbrev disabled_provider : OauthProvider
disabled_provider = record {
  enabled = false;
  client_id = "";
  redirect_uri = "";
  token_url = "";
  auth_url = "";
  scopes = "";
  refresh_token = "";
  access_token = "";
}

unfoldable pub default_config : (F : Float64) → Config F
default_config F = record {
  server = record {
    host = "0.0.0.0";
    port = pos 8080;
    read_timeout = pos 30_000_000_000;
    write_timeout = pos 120_000_000_000;
    max_request_size = pos 10;
    allowed_origins = "*" ∷ [];
    allowed_hosts = "localhost" ∷ [];
  };
  routing = record {
    route_llm = record {
      enabled = false;
      endpoint = "http://localhost:6060/route";
      model = "router";
      timeout = pos 5000;
      threshold = F.ratio 1 2;
    };
    arch_router = record {
      enabled = false;
      endpoint = "http://localhost:7070/classify";
      timeout = pos 5000;
    };
    mirt = record { enabled = true; dimensions = pos 25; min_score = F.ratio 3 10 };
    semantic_enabled = true;
  };
  agentapi = record {
    enabled = false;
    base_url = "http://localhost";
    port = pos 3284;
    timeout = pos 30_000_000_000;
    poll_interval = pos 500_000_000;
    max_wait_time = pos 300_000_000_000;
    terminal_width = pos 80;
    terminal_height = pos 1000;
    default_agent = "claude";
  };
  oauth = record {
    enabled = false;
    auth_dir = "~/.bifrost-extensions/auth";
    providers =
        map (λ n. (n, disabled_provider))
          ("claude" ∷ "codex" ∷ "cursor" ∷ "gemini" ∷ "auggie" ∷ []);
  };
  logging = record { level = "info"; format = "json"; output = "stdout" };
  plugins = record { intelligent_router = true; learning = true; smart_fallback = true };
}

-- What `Unmarshal` yields when only the defaults of `setDefaults` are known: a key that it does
-- not set has Go's zero value.
unfoldable pub set_defaults : (F : Float64) → Config F
unfolding default_config
set_defaults F =
    let d = default_config F in
    record {
      server = d.server;
      routing = record {
        route_llm = record {
          enabled = d.routing.route_llm.enabled;
          endpoint = d.routing.route_llm.endpoint;
          model = "";
          timeout = pos 0;
          threshold = d.routing.route_llm.threshold;
        };
        arch_router = record { enabled = false; endpoint = ""; timeout = pos 0 };
        mirt = record {
          enabled = d.routing.mirt.enabled;
          dimensions = d.routing.mirt.dimensions;
          min_score = F.of_int (pos 0);
        };
        semantic_enabled = d.routing.semantic_enabled;
      };
      agentapi = record {
        enabled = d.agentapi.enabled;
        base_url = d.agentapi.base_url;
        port = d.agentapi.port;
        timeout = d.agentapi.timeout;
        poll_interval = pos 0;
        max_wait_time = pos 0;
        terminal_width = pos 0;
        terminal_height = pos 0;
        default_agent = d.agentapi.default_agent;
      };
      oauth = record { enabled = d.oauth.enabled; auth_dir = d.oauth.auth_dir; providers = [] };
      logging = d.logging;
      plugins = d.plugins;
    }
