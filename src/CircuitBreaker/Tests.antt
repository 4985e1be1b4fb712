-- ===== src/CircuitBreaker/Tests.antt =====
-- infra/circuitbreaker: runs on concrete inputs.
use argis_extensions.Prelude.{
  ℕ, zero, suc, ◌+◌, ◌≡◌, ◌≢◌, refl, String, true, false, Option, none, some, List, [], ◌∷◌, ◌++◌,
  ◌⊎◌, arith, eq_iff,
}
use argis_extensions.Prelude.Int.{pos}
use argis_extensions.CircuitBreaker.{
  state_closed, state_open, state_half_open, Config, CircuitBreaker, Readings, new, timed_out,
  allow_request, execute, record_result, reset,
}
use argis_extensions.CircuitBreaker.Trips.{Call, run, failing_run_opens}
use argis_extensions.CircuitBreaker.Recovery.{recovers}
use argis_extensions.CircuitBreaker.Changes.{
  IsTraced, Operation, executes, resets, operate, operate_all, new-IsTraced,
}
use argis_extensions.CircuitBreaker.Interleaved.{
  reads_state, Section, Step, enter, proceed, finish, resets, start, step, steps,
}
use argis_extensions.CircuitBreaker.Interleaved.Held.{IsCapped, IsQuiet}
use argis_extensions.CircuitBreaker.Interleaved.Bounded.{steps-IsBounded}
use argis_extensions.CircuitBreaker.Interleaved.Alone.{proceeds, promotes, recording}
use argis_extensions.CircuitBreaker.Interleaved.Stale.{stale_promotion_trips}
use argis_extensions.CircuitBreaker.Wrapper.{
  Answer, Plugin, PluginWrapper, transport_interceptor, pre_hook, post_hook,
}
use argis_extensions.CircuitBreaker.Wrapper.Hooks.{allowed_answers, transport_error_lost}

abbrev small : Config
small = record {
  failure_threshold = pos 2;
  success_threshold = pos 2;
  timeout = pos 10;
  on_state_change = true;
}

abbrev closed : CircuitBreaker
closed = record {
  name = "b";
  config = small;
  state = state_closed;
  failures = pos 0;
  successes = pos 0;
  last_fail = 0;
  notified = [];
}

abbrev tripped : CircuitBreaker
tripped = record closed { state = state_open; failures = pos 2; last_fail = 5 }

abbrev at : ℕ → Readings
at t = record { asked = t; ended = t; tripped = t }

abbrev bad : ℕ → Call ℕ String
bad t = (at t, λ u. (0, some "down"))

abbrev good : ℕ → Call ℕ String
good t = (at t, λ u. (7, none))

failing_run_opens_example : (run (bad 1 ∷ bad 2 ∷ []) closed).state ≡ state_open
failing_run_opens_example =
    failing_run_opens (bad 1 ∷ bad 2 ∷ []) 0 closed refl refl refl (omega arith) (omega arith)
      (("down", refl), (("down", refl), tt))

recovers_example : (run (good 15 ∷ good 16 ∷ []) tripped).state ≡ state_closed
unfolding timed_out
recovers_example =
    recovers (good 15) (good 16 ∷ []) tripped refl refl refl (omega arith) (refl, (refl, tt))

abbrev probing : CircuitBreaker
probing = record closed { state = state_half_open; successes = pos 1 }

abbrev life : List (Operation ℕ String)
life =
    executes (at 1) (bad 1).1
    ∷ executes (at 2) (bad 2).1
    ∷ executes (at 15) (good 15).1
    ∷ executes (at 16) (bad 16).1
    ∷ resets 17
    ∷ []

new-IsTraced_example : IsTraced (operate_all life (new "b" (some small)))
new-IsTraced_example = new-IsTraced life "b" small refl

life_notified :
    (operate_all life (new "b" (some small))).notified
    ≡ record { from = state_closed; to = state_open }
      ∷ record { from = state_open; to = state_half_open }
      ∷ record { from = state_half_open; to = state_open }
      ∷ record { from = state_open; to = state_closed }
      ∷ []
unfolding operate_all operate new execute reset
life_notified = refl

abbrev race : List Step
race =
    (enter 1 ∷ enter 1 ∷ recording false 2 2)
    ++ recording false 2 2
    ++ (enter 20 ∷ enter 20 ∷ promotes 5 20)
    ++ recording true 21 21
    ++ (enter 22 ∷ recording true 22 22)

steps-IsBounded_example :
    IsCapped (steps race (start "b" small)).breaker
    × ((steps race (start "b" small)).breaker.config ≡ small)
    × (((section : Section) × ((steps race (start "b" small)).holder ≡ some section))
        ⊎ IsQuiet (steps race (start "b" small)).breaker)
steps-IsBounded_example = steps-IsBounded small "b" race (omega arith)

-- Two goroutines find the timeout over; one promotes, and two successes close the breaker while
-- the other has still to make its transition.
race_state :
    ((steps race (start "b" small)).breaker.state ≡ state_closed)
    × ((steps race (start "b" small)).holder ≡ none)
    × ((steps race (start "b" small)).promoting ≡ reads_state ∷ [])
unfolding steps start step new
race_state = (refl, refl, refl)

stale_promotion_trips_example :
    (steps (promotes 5 23 ++ recording false 24 24) (steps race (start "b" small))).breaker.state
    ≡ state_open
stale_promotion_trips_example =
    stale_promotion_trips (steps race (start "b" small)) [] 23 24 24 race_state.0 race_state.1
      race_state.2

-- A promotion between the switch of recordFailure and its increment: a half-open breaker with a
-- failure counted.
abbrev counted : List Step
counted = (enter 23 ∷ finish false ∷ proceed 23 ∷ proceed 23 ∷ promotes 5 23) ++ proceeds 3 24

counted_state :
    ((steps counted (steps race (start "b" small))).breaker.state ≡ state_half_open)
    × ((steps counted (steps race (start "b" small))).breaker.failures ≡ pos 1)
unfolding steps start step new
counted_state = (refl, refl)

-- A plugin whose hook fails on request 0 and answers any other by its successor.
abbrev asking : Option ℕ → Answer ℕ ℕ String
asking none = record { request = none; short_circuit = none; error = none }
asking (some n) = record {
  request = some (n + 1);
  short_circuit = none;
  error = elim n [ zero ↦ some "refused" | suc k ↦ none ];
}

abbrev failing_plugin : Plugin ℕ ℕ ℕ ℕ String
failing_plugin = record {
  get_name = "p";
  transport_interceptor = asking;
  pre_hook = asking;
  post_hook = λ r. record { response = r; failure = some 503; error = none };
  message = λ e. e;
  status_code = λ c. some (pos c);
}

abbrev wrapped : PluginWrapper ℕ ℕ ℕ ℕ String
wrapped = record { plugin = failing_plugin; circuit_breaker = closed }

abbrev wrapped_open : PluginWrapper ℕ ℕ ℕ ℕ String
wrapped_open = record { plugin = failing_plugin; circuit_breaker = tripped }

allowed_answers_example : pre_hook (at 6) (some 3) wrapped ≡ (
  record wrapped { circuit_breaker = record_result 6 6 true (allow_request 6 closed).0 },
  record { request = some 4; short_circuit = none; error = none },
)
unfolding allow_request
allowed_answers_example = allowed_answers (at 6) wrapped (some 3) refl refl

refused_text : ◌≢◌ {A = String} "refused" "circuit breaker b is open"
refused_text e = ground (arith, (eq_iff "refused" "circuit breaker b is open").1 e)

transport_error_lost_example :
    ((transport_interceptor (at 6) (some 0) wrapped).1.error ≡ none)
    × ((post_hook (at 6) (some 1) wrapped).1.error ≡ none)
transport_error_lost_example = transport_error_lost (at 6) wrapped (some 0) (some 1)
