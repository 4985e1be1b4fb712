-- ===== src/Graceful/Tests.antt =====
-- infra/graceful: two plugins that share a name.
use argis_extensions.Prelude.{
  ℕ, zero, suc, ◌+◌, ◌≡◌, refl, String, true, false, Option, none, some, [], ◌∷◌,
}
use argis_extensions.Prelude.Int.{pos}
use argis_extensions.CircuitBreaker.{new, Readings, execute}
use argis_extensions.CircuitBreaker.Wrapper.{Answer, Plugin, pre_hook, wrap_plugins}
use argis_extensions.Graceful.{
  PluginManager, is_some, new_plugin_manager, execute_pre_hooks, execute_post_hooks,
  reset_circuit_breaker, run_pre_hooks, take_answer,
}
use argis_extensions.Graceful.FailFast.{set_fail_fast, fail_fast_same, post_hooks_silent}
use argis_extensions.Graceful.Resets.{reset_last, reset_last_named}

abbrev at : ℕ → Readings
at i = record { asked = i; ended = i; tripped = i }

-- A plugin that refuses request 0 and answers any other by its successor.
abbrev asking : Option ℕ → Answer ℕ ℕ String
asking none = record { request = none; short_circuit = none; error = none }
asking (some n) = record {
  request = some (n + 1);
  short_circuit = none;
  error = elim n [ zero ↦ some "refused" | suc k ↦ none ];
}

abbrev counting : Plugin ℕ ℕ ℕ ℕ String
counting = record {
  get_name = "p";
  transport_interceptor = asking;
  pre_hook = asking;
  post_hook = λ r. record { response = r; failure = some 503; error = none };
  message = λ e. e;
  status_code = λ c. some (pos c);
}

abbrev manager : PluginManager ℕ ℕ ℕ ℕ String
manager = new_plugin_manager (counting ∷ counting ∷ []) none

quiet : is_some (execute_pre_hooks at (some 3) (set_fail_fast at false manager)).1.error ≡ false
unfolding new_plugin_manager execute_pre_hooks run_pre_hooks pre_hook execute take_answer
    wrap_plugins new
quiet = refl

fail_fast_same_example : execute_pre_hooks at (some 3) (set_fail_fast at true manager) ≡ (
  set_fail_fast at true (execute_pre_hooks at (some 3) (set_fail_fast at false manager)).0,
  (execute_pre_hooks at (some 3) (set_fail_fast at false manager)).1,
)
fail_fast_same_example = fail_fast_same at (some 3) manager quiet

post_hooks_silent_example :
    ((execute_post_hooks at (some 3) (set_fail_fast at true manager)).1.error ≡ none)
    × (execute_post_hooks at (some 3) (set_fail_fast at true manager) ≡ (
      set_fail_fast at true (execute_post_hooks at (some 3) (set_fail_fast at false manager)).0,
      (execute_post_hooks at (some 3) (set_fail_fast at false manager)).1,
    ))
post_hooks_silent_example = post_hooks_silent at (some 3) manager true

reset_last_named_example :
    (reset_circuit_breaker 7 "p" manager).wrapped_plugins ≡ reset_last 7 "p" manager.wrapped_plugins
unfolding new_plugin_manager
reset_last_named_example = reset_last_named 7 "p" manager refl
