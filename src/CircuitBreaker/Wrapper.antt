-- ===== src/CircuitBreaker/Wrapper.antt =====
-- infra/circuitbreaker/plugin_wrapper.go: a plugin whose hooks run behind a breaker.
--
-- The plugin is not part of these files: what it answers is a field of `Plugin`. A pointer that
-- may be nil is an `Option`; the context is left out.
pub mod Hooks
use argis_extensions.Prelude.{
  String, ◌<>◌, ◌⊎◌, inl, inr, Bool, true, false, ◌&&◌, Option, none, some, List, [], ◌∷◌,
  if◌then◌else◌, str_eq,
}
use argis_extensions.Prelude.Int.{ℤ, pos, leb_ℤ, ltb_ℤ}
use argis_extensions.CircuitBreaker.{
  Config, CircuitBreaker, CallError, rejected, failed, Readings, new, execute,
}

-- What a hook on a request returns.
pub record Answer (Req Short X : Type 0) : Type 0 where
  pub request : Option Req
  pub short_circuit : Option Short
  pub error : Option X

-- What a hook on a response returns.
pub record Reply (Resp BErr X : Type 0) : Type 0 where
  pub response : Option Resp
  pub failure : Option BErr
  pub error : Option X

-- `schemas.Plugin` as far as the wrapper calls it, over the pointed-to types of the SDK. `message`
-- is the text of an error, `status_code` the field of a `BifrostError`.
pub record Plugin (Req Resp Short BErr E : Type 0) : Type 0 where
  pub get_name : String
  pub transport_interceptor : Option Req → Answer Req Short E
  pub pre_hook : Option Req → Answer Req Short E
  pub post_hook : Option Resp → Reply Resp BErr E
  pub message : E → String
  pub status_code : BErr → Option ℤ

abbrev pub open_message : String → String
open_message name = "circuit breaker " <> name <> " is open"

pub record PluginWrapper (Req Resp Short BErr E : Type 0) : Type 0 where
  pub plugin : Plugin Req Resp Short BErr E
  pub circuit_breaker : CircuitBreaker

-- `cbErr.Error()`.
error_text : {E : Type 0} → (E → String) → CallError E → String
error_text message (rejected name) = open_message name
error_text message (failed e) = message e

module _ {Req Short E : Type 0} where
  -- The variables that the closure of a hook stores in, nil if it has not run.
  unanswered : Answer Req Short E
  unanswered = record { request = none; short_circuit = none; error = none }

  answered : Option (Answer Req Short E) → Answer Req Short E
  unfolding unanswered
  answered none = unanswered
  answered (some a) = a

  call_errors : Answer Req Short E → Answer Req Short (CallError E)
  call_errors a = record {
    request = a.request;
    short_circuit = a.short_circuit;
    error = elim a.error [ none ↦ none | some e ↦ some (failed e) ];
  }

  transport_result :
      Option Req
      → Option (Answer Req Short E)
      → Option (CallError E)
      → Answer Req Short (CallError E)
  unfolding answered call_errors
  transport_result req ran (some cb_err) = record {
    request = req;
    short_circuit = none;
    error = none;
  }
  transport_result req ran none = call_errors (answered ran)

  pre_hook_result :
      (E → String)
      → String
      → Option Req
      → Option (Answer Req Short E)
      → Option (CallError E)
      → Answer Req Short (CallError E)
  unfolding answered call_errors error_text
  pre_hook_result message name req ran none = call_errors (answered ran)
  pre_hook_result message name req ran (some cb_err) =
      if str_eq (error_text message cb_err) (open_message name)
      then record { request = req; short_circuit = none; error = none }
      else record {
        request = (answered ran).request;
        short_circuit = (answered ran).short_circuit;
        error = some cb_err;
      }

-- The error that the closure of `PostHook` returns: the hook's, or a 5xx failure.
server_failure : {BErr : Type 0} → (BErr → Option ℤ) → Option BErr → Option BErr
server_failure status_code none = none
server_failure status_code (some f) = elim (status_code f) [
  | none ↦ none
  | some c ↦ if leb_ℤ (pos 500) c && ltb_ℤ c (pos 600) then some f else none
]

module _ {Resp BErr E : Type 0} where
  closure_error : (BErr → Option ℤ) → Reply Resp BErr E → Option (E ⊎ BErr)
  unfolding server_failure
  closure_error status_code r = elim r.error [
    | some e ↦ some (inl e)
    | none ↦ elim (server_failure status_code r.failure) [ none ↦ none | some f ↦ some (inr f) ]
  ]

  post_hook_result :
      Option Resp → Option (Reply Resp BErr E) → Option (CallError (E ⊎ BErr)) → Reply Resp BErr E
  post_hook_result resp ran (some cb_err) = record { response = resp; failure = none; error = none }
  post_hook_result resp none none = record { response = none; failure = none; error = none }
  post_hook_result resp (some r) none = r

module _ {Req Resp Short BErr E : Type 0} where
  unfoldable pub new_plugin_wrapper :
      Plugin Req Resp Short BErr E → Option Config → PluginWrapper Req Resp Short BErr E
  new_plugin_wrapper plugin config = record {
    plugin = plugin;
    circuit_breaker = new ("plugin-" <> plugin.get_name) config;
  }

  -- `WrapPlugins`: a breaker of its own for each plugin.
  unfoldable pub wrap_plugins :
      List (Plugin Req Resp Short BErr E)
      → Option Config
      → List (PluginWrapper Req Resp Short BErr E)
  unfolding new_plugin_wrapper
  wrap_plugins [] config = []
  wrap_plugins (p ∷ ps) config = new_plugin_wrapper p config ∷ wrap_plugins ps config

  unfoldable pub transport_interceptor :
      Readings
      → Option Req
      → PluginWrapper Req Resp Short BErr E
      → PluginWrapper Req Resp Short BErr E × Answer Req Short (CallError E)
  unfolding transport_result
  transport_interceptor t req pw =
      let (cb, ran, cb_err) =
        execute t (λ _. let a = pw.plugin.transport_interceptor req in (a, a.error))
          pw.circuit_breaker in
      (record pw { circuit_breaker = cb }, transport_result req ran cb_err)

  unfoldable pub pre_hook :
      Readings
      → Option Req
      → PluginWrapper Req Resp Short BErr E
      → PluginWrapper Req Resp Short BErr E × Answer Req Short (CallError E)
  unfolding pre_hook_result
  pre_hook t req pw =
      let (cb, ran, cb_err) =
        execute t (λ _. let a = pw.plugin.pre_hook req in (a, a.error)) pw.circuit_breaker in
      (record pw { circuit_breaker = cb }, pre_hook_result pw.plugin.message cb.name req ran cb_err)

  unfoldable pub post_hook :
      Readings
      → Option Resp
      → PluginWrapper Req Resp Short BErr E
      → PluginWrapper Req Resp Short BErr E × Reply Resp BErr E
  unfolding closure_error post_hook_result
  post_hook t resp pw =
      let (cb, ran, cb_err) =
        execute t
          (λ _. let r = pw.plugin.post_hook resp in (r, closure_error pw.plugin.status_code r))
          pw.circuit_breaker in
      (record pw { circuit_breaker = cb }, post_hook_result resp ran cb_err)
