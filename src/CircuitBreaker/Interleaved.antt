-- ===== src/CircuitBreaker/Interleaved.antt =====
-- infra/circuitbreaker: goroutines that share one breaker.
--
-- `allowRequest` gives its read lock up before it calls `transitionTo`, and `Execute` runs `fn` under
-- no lock. So the promotion of an open breaker runs beside any other code of the breaker, and each
-- access to a field is a step of its own here. `holder` is the code that runs under the write lock,
-- `promoting` has the places of the calls that promote the breaker with no lock, and `in_flight`
-- counts the calls whose `fn` is running. Accesses are taken one after the other, in any order; the
-- read lock's part of `allowRequest` reads two fields that nothing else writes meanwhile, and is
-- one step.
pub mod Held
pub mod Promoted
pub mod Bounded
pub mod Alone
pub mod Stale
use argis_extensions.Prelude.{
  ℕ, zero, suc, ◌+◌, List, [], ◌∷◌, Bool, Option, none, some, String, if◌then◌else◌,
}
use argis_extensions.Prelude.Int.{ℤ, pos, inc, leb_ℤ}
use argis_extensions.CircuitBreaker.{
  State, state_closed, state_open, state_half_open, state_eq, Config, CircuitBreaker, new,
  timed_out, notify,
}

-- A place in `transitionTo`, behind its first line with the old state.
pub data Stage : Type 0 where
  reads_state : Stage
  writes_state clears_failures clears_successes stamps reports : State → Stage

-- Where the switch of `transitionTo` begins.
unfoldable pub first_clear : State → State → Stage
first_clear state_closed old = clears_failures old
first_clear state_open old = clears_successes old
first_clear state_half_open old = clears_failures old

unfoldable pub after_successes : State → State → Stage
after_successes state_closed old = reports old
after_successes state_open old = stamps old
after_successes state_half_open old = reports old

-- One access of `transitionTo(new)`, and where it goes on; `none` is its return.
unfoldable pub advance : ℕ → State → Stage → CircuitBreaker → CircuitBreaker × Option Stage
unfolding state_eq first_clear after_successes notify
advance now new reads_state cb =
    (cb, if state_eq cb.state new then none else some (writes_state cb.state))
advance now new (writes_state old) cb = (record cb { state = new }, some (first_clear new old))
advance now new (clears_failures old) cb =
    (record cb { failures = pos 0 }, some (clears_successes old))
advance now new (clears_successes old) cb =
    (record cb { successes = pos 0 }, some (after_successes new old))
advance now new (stamps old) cb = (record cb { last_fail = now }, some (reports old))
advance now new (reports old) cb = (notify old new cb, none)

-- A place in the code that runs under the write lock: `recordSuccess`, `recordFailure`, and the
-- transitions that these and `Reset` make.
pub data Section : Type 0 where
  asks_success clears loads_successes tests_successes : Section
  stores_successes : ℤ → Section
  stamps_failure asks_failure loads_failures tests_failures : Section
  stores_failures : ℤ → Section
  moves : State → Stage → Section

unfoldable pub success_case : State → Option Section
success_case state_closed = some clears
success_case state_open = none
success_case state_half_open = some loads_successes

unfoldable pub failure_case : State → Option Section
failure_case state_closed = some loads_failures
failure_case state_open = none
failure_case state_half_open = some (moves state_open reads_state)

unfoldable pub moving : State → Option Stage → Option Section
moving new none = none
moving new (some stage) = some (moves new stage)

-- One access of the code under the lock, and where it goes on; `none` gives the lock back.
unfoldable pub proceed_in : ℕ → Section → CircuitBreaker → CircuitBreaker × Option Section
unfolding success_case failure_case advance moving
proceed_in now asks_success cb = (cb, success_case cb.state)
proceed_in now clears cb = (record cb { failures = pos 0 }, none)
proceed_in now loads_successes cb = (cb, some (stores_successes cb.successes))
proceed_in now (stores_successes n) cb = (record cb { successes = inc n }, some tests_successes)
proceed_in now tests_successes cb = (
  cb,
  if leb_ℤ cb.config.success_threshold cb.successes
      then some (moves state_closed reads_state)
      else none,
)
proceed_in now stamps_failure cb = (record cb { last_fail = now }, some asks_failure)
proceed_in now asks_failure cb = (cb, failure_case cb.state)
proceed_in now loads_failures cb = (cb, some (stores_failures cb.failures))
proceed_in now (stores_failures n) cb = (record cb { failures = inc n }, some tests_failures)
proceed_in now tests_failures cb = (
  cb,
  if leb_ℤ cb.config.failure_threshold cb.failures
      then some (moves state_open reads_state)
      else none,
)
proceed_in now (moves new stage) cb =
    let (cb', next) = advance now new stage cb in (cb', moving new next)

pub record System : Type 0 where
  pub breaker : CircuitBreaker
  pub holder : Option Section
  pub promoting : List Stage
  pub in_flight : ℕ

-- A call enters; the promotion with this index makes an access; the code under the lock makes one;
-- a call whose `fn` has returned takes the lock; so does `Reset`.
pub data Step : Type 0 where
  enter proceed : ℕ → Step
  promote : ℕ → ℕ → Step
  finish : Bool → Step
  resets : Step

-- The locked part of `allowRequest`.
unfoldable pub enter_in : State → ℕ → System → System
unfolding timed_out
enter_in state_closed now s = record s { in_flight = s.in_flight + 1 }
enter_in state_open now s =
    if timed_out now s.breaker then record s { promoting = reads_state ∷ s.promoting } else s
enter_in state_half_open now s = record s { in_flight = s.in_flight + 1 }

unfoldable pub still : Option Stage → List Stage → List Stage
still none stages = stages
still (some stage) stages = stage ∷ stages

unfoldable pub arrived : Option Stage → ℕ → ℕ
arrived none calls = suc calls
arrived (some stage) calls = calls

-- One access of a promotion: the breaker, the promotions left, and the number of calls that run.
unfoldable pub promote_at :
    ℕ → ℕ → List Stage → ℕ → CircuitBreaker → CircuitBreaker × List Stage × ℕ
unfolding advance still arrived
promote_at i now [] calls cb = (cb, [], calls)
promote_at zero now (stage ∷ stages) calls cb =
    let (cb', next) = advance now state_half_open stage cb in
    (cb', still next stages, arrived next calls)
promote_at (suc i) now (stage ∷ stages) calls cb =
    let (cb', left, calls') = promote_at i now stages calls cb in (cb', stage ∷ left, calls')

unfoldable pub finish_one : ℕ → Bool → System → System
finish_one zero success s = s
finish_one (suc n) success s = record s {
  holder = some (if success then asks_success else stamps_failure);
  in_flight = n;
}

-- What needs the lock to be free waits for it: nothing happens while another holds it.
unfoldable pub when_free : Option Section → System → System → System
when_free none s' s = s'
when_free (some section) s' s = s

unfoldable pub proceed_one : ℕ → Option Section → System → System
unfolding proceed_in
proceed_one now none s = s
proceed_one now (some section) s =
    let (cb, next) = proceed_in now section s.breaker in record s { breaker = cb; holder = next }

-- A step that no call is ready for changes nothing.
unfoldable pub step : Step → System → System
unfolding enter_in promote_at finish_one when_free proceed_one
step (enter now) s = when_free s.holder (enter_in s.breaker.state now s) s
step (proceed now) s = proceed_one now s.holder s
step (promote i now) s =
    let (cb, left, calls) = promote_at i now s.promoting s.in_flight s.breaker in
    record s { breaker = cb; promoting = left; in_flight = calls }
step (finish success) s = when_free s.holder (finish_one s.in_flight success s) s
step resets s = when_free s.holder (record s { holder = some (moves state_closed reads_state) }) s

unfoldable pub steps : List Step → System → System
steps [] s = s
steps (a ∷ as') s = steps as' (step a s)

unfoldable pub start : String → Config → System
start name c = record { breaker = new name (some c); holder = none; promoting = []; in_flight = 0 }
