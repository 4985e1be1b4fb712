-- ===== src/CircuitBreaker/Interleaved/Held.antt =====
-- infra/circuitbreaker: what holds at each place of the code under the lock.
use argis_extensions.Prelude.{ℕ, ◌≡◌, refl, ◌⊎◌, Option, none, some, arith}
use argis_extensions.Prelude.Int.{ℤ, pos, ◌≤ℤ◌, ◌<ℤ◌}
use argis_extensions.CircuitBreaker.{
  State, state_closed, state_open, state_half_open, CircuitBreaker,
}
use argis_extensions.CircuitBreaker.Counters.{IsBelow}
use argis_extensions.CircuitBreaker.Interleaved.{
  Stage, reads_state, writes_state, clears_failures, clears_successes, stamps, reports, advance,
  Section, asks_success, clears, loads_successes, stores_successes, tests_successes, stamps_failure,
  asks_failure, loads_failures, stores_failures, tests_failures, moves, proceed_in,
}

-- A counter is past its threshold by no step: it is 0, 1 or at most the threshold.
abbrev pub IsUpTo : ℤ → ℤ → Type 0
IsUpTo n threshold = (n ≡ pos 0) ⊎ ((n ≡ pos 1) ⊎ ((pos 0 <ℤ n) × (n ≤ℤ threshold)))

-- The successes between two sections of the lock.
pub record IsIdle (cb : CircuitBreaker) : Type 0 where
  pub half_open_successes :
      cb.state ≡ state_half_open → IsBelow cb.successes cb.config.success_threshold
  pub closed_successes : cb.state ≡ state_closed → cb.successes ≡ pos 0
  pub open_successes : cb.state ≡ state_open → cb.successes ≡ pos 0

abbrev pub IsUntripped : CircuitBreaker → Type 0
IsUntripped cb = cb.state ≡ state_closed → IsBelow cb.failures cb.config.failure_threshold

-- Both counters between two sections of the lock.
abbrev pub IsQuiet : CircuitBreaker → Type 0
IsQuiet cb = IsIdle cb × IsUntripped cb

-- What holds at a place of a transition to the given state under the lock.
abbrev pub IsMoving : State → Stage → CircuitBreaker → Type 0
IsMoving state_closed reads_state cb = (cb.state ≡ state_half_open) ⊎ IsQuiet cb
IsMoving state_closed (writes_state old) cb = Unit
IsMoving state_closed (clears_failures old) cb = Unit
IsMoving state_closed (clears_successes old) cb = IsUntripped cb
IsMoving state_closed (stamps old) cb = IsQuiet cb
IsMoving state_closed (reports old) cb = IsQuiet cb
IsMoving state_open reads_state cb = IsIdle cb
IsMoving state_open (writes_state old) cb = Unit
IsMoving state_open (clears_failures old) cb = cb.state ≡ state_closed → ⊥
IsMoving state_open (clears_successes old) cb = cb.state ≡ state_closed → ⊥
IsMoving state_open (stamps old) cb = IsQuiet cb
IsMoving state_open (reports old) cb = IsQuiet cb
IsMoving state_half_open stage cb = ⊥

-- What holds at a place of the code under the lock.
abbrev pub IsHeld : Section → CircuitBreaker → Type 0
IsHeld asks_success cb = IsQuiet cb
IsHeld clears cb = IsQuiet cb
IsHeld loads_successes cb = IsQuiet cb × (cb.state ≡ state_half_open)
IsHeld (stores_successes n) cb =
    IsBelow n cb.config.success_threshold × (cb.state ≡ state_half_open)
IsHeld tests_successes cb = cb.state ≡ state_half_open
IsHeld stamps_failure cb = IsQuiet cb
IsHeld asks_failure cb = IsQuiet cb
IsHeld loads_failures cb = IsIdle cb × IsBelow cb.failures cb.config.failure_threshold
IsHeld (stores_failures n) cb = IsIdle cb × IsBelow n cb.config.failure_threshold
IsHeld tests_failures cb = IsIdle cb
IsHeld (moves new stage) cb = IsMoving new stage cb

abbrev pub IsAt : Option Section → CircuitBreaker → Type 0
IsAt none cb = IsQuiet cb
IsAt (some section) cb = IsHeld section cb

abbrev pub IsCapped : CircuitBreaker → Type 0
IsCapped cb =
    IsUpTo cb.failures cb.config.failure_threshold × IsUpTo cb.successes cb.config.success_threshold

-- One access of `transitionTo` keeps the caps and the configuration.
pub advance-IsCapped :
    (now : ℕ) (new : State) (stage : Stage) (cb : CircuitBreaker)
    → IsCapped cb
    → IsCapped (advance now new stage cb).0 × ((advance now new stage cb).0.config ≡ cb.config)
unfolding advance
advance-IsCapped now new reads_state cb h = (h, refl)
advance-IsCapped now new (writes_state old) cb h = (h, refl)
advance-IsCapped now new (clears_failures old) cb h = ground (arith, h)
advance-IsCapped now new (clears_successes old) cb h = ground (arith, h)
advance-IsCapped now new (stamps old) cb h = (h, refl)
advance-IsCapped now new (reports old) cb h = ground (arith, h)

-- An access of a transition under the lock leads to what holds at the next place.
pub moved-IsAt :
    (now : ℕ) (new : State) (stage : Stage) (cb : CircuitBreaker)
    → IsMoving new stage cb
    → IsAt (proceed_in now (moves new stage) cb).1 (proceed_in now (moves new stage) cb).0
unfolding proceed_in
moved-IsAt now state_closed reads_state cb h = ground (arith, h)
moved-IsAt now state_closed (writes_state old) cb h = tt
moved-IsAt now state_closed (clears_failures old) cb h = ground (arith, h)
moved-IsAt now state_closed (clears_successes old) cb h = ground (arith, h)
moved-IsAt now state_closed (stamps old) cb h = ground (arith, h)
moved-IsAt now state_closed (reports old) cb h = ground (arith, h)
moved-IsAt now state_open reads_state cb h = ground (arith, h)
moved-IsAt now state_open (writes_state old) cb h = ground (arith, h)
moved-IsAt now state_open (clears_failures old) cb h = ground (arith, h)
moved-IsAt now state_open (clears_successes old) cb h = ground (arith, h)
moved-IsAt now state_open (stamps old) cb h = ground (arith, h)
moved-IsAt now state_open (reports old) cb h = ground (arith, h)
moved-IsAt now state_half_open stage cb h = ground (arith, h)
