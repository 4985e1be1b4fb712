-- ===== src/Graceful.antt =====
-- infra/graceful/graceful.go: the plugins behind their breakers, run one after the other.
--
-- The logger keeps no state here and is left out. `wrappedPlugins` and the map of breakers share the
-- breakers: the map is kept as the position of the wrapper whose breaker a name leads to.
pub mod FailFast
pub mod Resets
mod Tests
use argis_extensions.Prelude.{
  ℕ, zero, suc, ◌+◌, String, Bool, true, false, Option, none, some, List, [], ◌∷◌, if◌then◌else◌,
  ◌&&◌,
}
use argis_extensions.Prelude.Assoc.{Dict, lookup, insert}
use argis_extensions.CircuitBreaker.{
  Config, CircuitBreaker, CallError, Readings, Stats, default_config, reset, get_stats,
}
use argis_extensions.CircuitBreaker.Wrapper.{
  Plugin, PluginWrapper, Answer, Reply, wrap_plugins, pre_hook, post_hook,
}

pub record ManagerConfig : Type 0 where
  pub circuit_breaker_config : Option Config
  pub fail_fast : Bool

abbrev pub default_manager_config : ManagerConfig
default_manager_config = record { circuit_breaker_config = some default_config; fail_fast = false }

-- An error of a plugin: named by `fmt.Errorf` with the plugin, or as it is.
pub data HookError (X : Type 0) : Type 0 where
  named : String → X → HookError X
  bare : X → HookError X

-- What the hooks on a request and on a response return.
pub record PreResult (Req Short X : Type 0) : Type 0 where
  pub request : Option Req
  pub short_circuit : Option Short
  pub error : Option (HookError X)

pub record PostResult (Resp BErr X : Type 0) : Type 0 where
  pub response : Option Resp
  pub failure : Option BErr
  pub error : Option (HookError X)

pub record PluginManager (Req Resp Short BErr E : Type 0) : Type 0 where
  pub plugins : List (Plugin Req Resp Short BErr E)
  pub wrapped_plugins : List (PluginWrapper Req Resp Short BErr E)
  pub circuit_breakers : Dict ℕ
  pub config : ManagerConfig

-- `err != nil`.
abbrev pub is_some {ℓ} : {A : Type ℓ} → Option A → Bool
is_some (some a) = true
is_some none = false

unfoldable pub name_error : {X : Type 0} → String → Option X → Option (HookError X)
name_error name none = none
name_error name (some e) = some (named name e)

-- A value that replaces the last one unless it is nil.
abbrev pub or_last {ℓ} : {A : Type ℓ} → Option A → Option A → Option A
or_last (some a) last = some a
or_last none last = last

module _ {Req Short E : Type 0} where
  -- A turn of the loop that goes on, with the last request, short circuit and error so far.
  unfoldable pub take_answer :
      Answer Req Short (CallError E)
      → PreResult Req Short (CallError E)
      → PreResult Req Short (CallError E)
  take_answer a last = elim a.error [
    | some e ↦ record last { error = some (bare e) }
    | none ↦ record last {
      request = a.request;
      short_circuit = or_last a.short_circuit last.short_circuit;
    }
  ]

module _ {Resp BErr E : Type 0} where
  unfoldable pub take_reply : Reply Resp BErr E → PostResult Resp BErr E → PostResult Resp BErr E
  take_reply r last = record {
    response = or_last r.response last.response;
    failure = or_last r.failure last.failure;
    error = elim r.error [ some e ↦ some (bare e) | none ↦ last.error ];
  }

module _ {Req Resp Short BErr E : Type 0} where
  -- The loop that fills the map, from a position on.
  unfoldable pub breakers_from : ℕ → List (PluginWrapper Req Resp Short BErr E) → Dict ℕ → Dict ℕ
  breakers_from i [] breakers = breakers
  breakers_from i (pw ∷ wrapped) breakers =
      breakers_from (suc i) wrapped (insert pw.plugin.get_name i breakers)

  unfoldable pub new_plugin_manager :
      List (Plugin Req Resp Short BErr E)
      → Option ManagerConfig
      → PluginManager Req Resp Short BErr E
  new_plugin_manager plugins given =
      let config : ManagerConfig = elim given [ some c ↦ c | none ↦ default_manager_config ] in
      let wrapped = wrap_plugins plugins config.circuit_breaker_config in
      record {
        plugins = plugins;
        wrapped_plugins = wrapped;
        circuit_breakers = breakers_from 0 wrapped [];
        config = config;
      }

  -- The loop over the plugins. `clock i` are the readings of the clock in the call of the plugin at
  -- position i.
  unfoldable pub run_pre_hooks :
      Bool
      → (ℕ → Readings)
      → ℕ
      → List (PluginWrapper Req Resp Short BErr E)
      → PreResult Req Short (CallError E)
      → List (PluginWrapper Req Resp Short BErr E) × PreResult Req Short (CallError E)
  run_pre_hooks fail_fast clock i [] last = ([], last)
  run_pre_hooks fail_fast clock i (pw ∷ wrapped) last =
      let (after, a) = pre_hook (clock i) last.request pw in
      let (rest, result) = run_pre_hooks fail_fast clock (i + 1) wrapped (take_answer a last) in
      if fail_fast && is_some a.error
      then (
        after ∷ wrapped,
        record {
          request = none;
          short_circuit = none;
          error = name_error pw.plugin.get_name a.error;
        },
      )
      else (after ∷ rest, result)

  unfoldable pub execute_pre_hooks :
      (ℕ → Readings)
      → Option Req
      → PluginManager Req Resp Short BErr E
      → PluginManager Req Resp Short BErr E × PreResult Req Short (CallError E)
  execute_pre_hooks clock req pm =
      let (wrapped, result) =
        run_pre_hooks pm.config.fail_fast clock 0 pm.wrapped_plugins
          (record { request = req; short_circuit = none; error = none }) in
      (record pm { wrapped_plugins = wrapped }, result)

  unfoldable pub run_post_hooks :
      Bool
      → (ℕ → Readings)
      → ℕ
      → List (PluginWrapper Req Resp Short BErr E)
      → PostResult Resp BErr E
      → List (PluginWrapper Req Resp Short BErr E) × PostResult Resp BErr E
  run_post_hooks fail_fast clock i [] last = ([], last)
  run_post_hooks fail_fast clock i (pw ∷ wrapped) last =
      let (after, r) = post_hook (clock i) last.response pw in
      let (rest, result) = run_post_hooks fail_fast clock (i + 1) wrapped (take_reply r last) in
      if fail_fast && is_some r.error
      then (
        after ∷ wrapped,
        record { response = none; failure = none; error = name_error pw.plugin.get_name r.error },
      )
      else (after ∷ rest, result)

  unfoldable pub execute_post_hooks :
      (ℕ → Readings)
      → Option Resp
      → PluginManager Req Resp Short BErr E
      → PluginManager Req Resp Short BErr E × PostResult Resp BErr E
  execute_post_hooks clock resp pm =
      let (wrapped, result) =
        run_post_hooks pm.config.fail_fast clock 0 pm.wrapped_plugins
          (record { response = resp; failure = none; error = none }) in
      (record pm { wrapped_plugins = wrapped }, result)

  -- `Reset` through the pointer to the breaker at a position.
  unfoldable pub reset_at :
      ℕ
      → ℕ
      → List (PluginWrapper Req Resp Short BErr E)
      → List (PluginWrapper Req Resp Short BErr E)
  reset_at now i [] = []
  reset_at now zero (pw ∷ wrapped) =
      record pw { circuit_breaker = reset now pw.circuit_breaker } ∷ wrapped
  reset_at now (suc i) (pw ∷ wrapped) = pw ∷ reset_at now i wrapped

  -- `if cb != nil { cb.Reset() }`.
  unfoldable pub reset_found :
      ℕ
      → Option ℕ
      → List (PluginWrapper Req Resp Short BErr E)
      → List (PluginWrapper Req Resp Short BErr E)
  reset_found now none wrapped = wrapped
  reset_found now (some i) wrapped = reset_at now i wrapped

  unfoldable pub reset_circuit_breaker :
      ℕ → String → PluginManager Req Resp Short BErr E → PluginManager Req Resp Short BErr E
  reset_circuit_breaker now plugin_name pm = record pm {
    wrapped_plugins = reset_found now (lookup plugin_name pm.circuit_breakers) pm.wrapped_plugins;
  }

  -- The loop over the map.
  unfoldable pub reset_each :
      ℕ
      → Dict ℕ
      → List (PluginWrapper Req Resp Short BErr E)
      → List (PluginWrapper Req Resp Short BErr E)
  reset_each now [] wrapped = wrapped
  reset_each now ((name, i) ∷ breakers) wrapped = reset_each now breakers (reset_at now i wrapped)

  unfoldable pub reset_all_circuit_breakers :
      ℕ → PluginManager Req Resp Short BErr E → PluginManager Req Resp Short BErr E
  reset_all_circuit_breakers now pm = record pm {
    wrapped_plugins = reset_each now pm.circuit_breakers pm.wrapped_plugins;
  }

  unfoldable pub breaker_at : ℕ → List (PluginWrapper Req Resp Short BErr E) → Option CircuitBreaker
  breaker_at i [] = none
  breaker_at zero (pw ∷ wrapped) = some pw.circuit_breaker
  breaker_at (suc i) (pw ∷ wrapped) = breaker_at i wrapped

  unfoldable pub get_circuit_breaker :
      PluginManager Req Resp Short BErr E → String → Option CircuitBreaker
  get_circuit_breaker pm plugin_name = elim (lookup plugin_name pm.circuit_breakers) [
    | some i ↦ breaker_at i pm.wrapped_plugins
    | none ↦ none
  ]
