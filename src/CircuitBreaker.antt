-- ===== src/CircuitBreaker.antt =====
-- infra/circuitbreaker/circuitbreaker.go: the breaker, its counters and its transitions.
--
-- A method on `*CircuitBreaker` returns the new record. A reading of the clock is an argument, in
-- nanoseconds; where the source reads it twice there are two arguments. Counters and durations are
-- 64-bit `int`s. `on_state_change` says whether the callback is set, and `notified` is the list of
-- the calls made to it, in order.
pub mod Counters
pub mod Trips
pub mod Recovery
pub mod Changes
pub mod Interleaved
pub mod Wrapper
mod Tests
use argis_extensions.Prelude.{
  ℕ, String, Bool, true, false, Option, none, some, List, [], if◌then◌else◌, snoc,
}
use argis_extensions.Prelude.Int.{ℤ, pos, inc, leb_ℤ, sub_ℕ}

pub data State : Type 0 where
  state_closed state_open state_half_open : State

unfoldable pub state_eq : State → State → Bool
state_eq state_closed state_closed = true
state_eq state_open state_open = true
state_eq state_half_open state_half_open = true
state_eq _ _ = false

-- The switch of `State.String`; its default is for no constant of the source.
unfoldable pub state_string : State → String
state_string state_closed = "closed"
state_string state_open = "open"
state_string state_half_open = "half-open"

pub record Config : Type 0 where
  pub failure_threshold : ℤ
  pub success_threshold : ℤ
  pub timeout : ℤ
  pub on_state_change : Bool

unfoldable pub default_config : Config
default_config = record {
  failure_threshold = pos 5;
  success_threshold = pos 2;
  timeout = pos 30_000_000_000;
  on_state_change = false;
}

-- One call `OnStateChange(name, from, to)`.
pub record Change : Type 0 where
  pub from : State
  pub to : State

pub record CircuitBreaker : Type 0 where
  pub name : String
  pub config : Config
  pub state : State
  pub failures : ℤ
  pub successes : ℤ
  pub last_fail : ℕ
  pub notified : List Change

-- `New`: a nil config stands for the default one.
unfoldable pub new : String → Option Config → CircuitBreaker
new name config = record {
  name = name;
  config = elim config [ none ↦ default_config | some c ↦ c ];
  state = state_closed;
  failures = pos 0;
  successes = pos 0;
  last_fail = 0;
  notified = [];
}

-- The switch of `transitionTo` on the new state.
reset_counters : ℕ → State → CircuitBreaker → CircuitBreaker
reset_counters now state_closed cb = record cb { failures = pos 0; successes = pos 0 }
reset_counters now state_open cb = record cb { successes = pos 0; last_fail = now }
reset_counters now state_half_open cb = record cb { failures = pos 0; successes = pos 0 }

unfoldable pub notify : State → State → CircuitBreaker → CircuitBreaker
notify old new_state cb =
    if cb.config.on_state_change
    then record cb { notified = snoc cb.notified (record { from = old; to = new_state }) }
    else cb

unfoldable pub transition_to : ℕ → State → CircuitBreaker → CircuitBreaker
unfolding state_eq reset_counters notify
transition_to now new_state cb =
    if state_eq cb.state new_state
    then cb
    else notify cb.state new_state (reset_counters now new_state (record cb { state = new_state }))

-- `time.Since(cb.lastFail) >= cb.config.Timeout`.
unfoldable pub timed_out : ℕ → CircuitBreaker → Bool
timed_out now cb = leb_ℤ cb.config.timeout (sub_ℕ now cb.last_fail)

allow_in : State → ℕ → CircuitBreaker → CircuitBreaker × Bool
unfolding transition_to timed_out
allow_in state_closed now cb = (cb, true)
allow_in state_open now cb =
    if timed_out now cb then (transition_to now state_half_open cb, true) else (cb, false)
allow_in state_half_open now cb = (cb, true)

-- `allowRequest`, run with no other goroutine between its check and its transition.
unfoldable pub allow_request : ℕ → CircuitBreaker → CircuitBreaker × Bool
unfolding allow_in
allow_request now cb = allow_in cb.state now cb

success_in : State → ℕ → CircuitBreaker → CircuitBreaker
unfolding transition_to
success_in state_closed now cb = record cb { failures = pos 0 }
success_in state_open now cb = cb
success_in state_half_open now cb =
    let cb' = record cb { successes = inc cb.successes } in
    if leb_ℤ cb'.config.success_threshold cb'.successes
    then transition_to now state_closed cb'
    else cb'

unfoldable pub record_success : ℕ → CircuitBreaker → CircuitBreaker
unfolding success_in
record_success now cb = success_in cb.state now cb

failure_in : State → ℕ → CircuitBreaker → CircuitBreaker
unfolding transition_to
failure_in state_closed now cb =
    let cb' = record cb { failures = inc cb.failures } in
    if leb_ℤ cb'.config.failure_threshold cb'.failures
    then transition_to now state_open cb'
    else cb'
failure_in state_open now cb = cb
failure_in state_half_open now cb = transition_to now state_open cb

-- `now` is the reading of `recordFailure`, `now'` that of `transitionTo`.
unfoldable pub record_failure : ℕ → ℕ → CircuitBreaker → CircuitBreaker
unfolding failure_in
record_failure now now' cb = failure_in cb.state now' (record cb { last_fail = now })

unfoldable pub record_result : ℕ → ℕ → Bool → CircuitBreaker → CircuitBreaker
unfolding record_success record_failure
record_result now now' success cb =
    if success then record_success now cb else record_failure now now' cb

unfoldable pub reset : ℕ → CircuitBreaker → CircuitBreaker
unfolding transition_to
reset now cb = transition_to now state_closed cb

pub record Stats : Type 0 where
  pub name : String
  pub state : State
  pub failures : ℤ
  pub successes : ℤ
  pub last_fail : ℕ

unfoldable pub get_stats : CircuitBreaker → Stats
get_stats cb = record {
  name = cb.name;
  state = cb.state;
  failures = cb.failures;
  successes = cb.successes;
  last_fail = cb.last_fail;
}

-- What `Execute` returns: its own error, whose text names the breaker, or that of `fn`.
pub data CallError (E : Type 0) : Type 0 where
  rejected : String → CallError E
  failed : E → CallError E

-- The readings of the clock that one call of `Execute` takes.
pub record Readings : Type 0 where
  pub asked : ℕ
  pub ended : ℕ
  pub tripped : ℕ

-- The part of `Execute` behind the check, for what `fn` returned.
settle :
    {R E : Type 0}
    → Readings
    → CircuitBreaker
    → R × Option E
    → CircuitBreaker × Option R × Option (CallError E)
unfolding record_result
settle t cb (r, none) = (record_result t.ended t.tripped true cb, some r, none)
settle t cb (r, some e) = (record_result t.ended t.tripped false cb, some r, some (failed e))

-- `Execute`: the breaker after the call, what `fn` returned if it ran, and the error. `fn` yields
-- the values that the closure stores in its variables, and its error.
unfoldable pub execute :
    {R E : Type 0}
    → Readings
    → (Unit {0} → R × Option E)
    → CircuitBreaker
    → CircuitBreaker × Option R × Option (CallError E)
unfolding allow_request settle
execute t fn cb =
    let (cb', allowed) = allow_request t.asked cb in
    if allowed then settle t cb' (fn tt) else (cb', none, some (rejected cb.name))
