-- ===== src/CircuitBreaker/Counters.antt =====
-- infra/circuitbreaker: what holds of the counters between two calls.
use argis_extensions.Prelude.{
  ℕ, ◌≡◌, ◌⊎◌, Bool, Option, none, some, String, arith, Bool-cases, ◌∙◌, true, false, inl, inr,
}
use argis_extensions.Prelude.Int.{ℤ, pos, ◌≤ℤ◌, ◌<ℤ◌, int_max}
use argis_extensions.CircuitBreaker.{
  State, state_closed, state_open, state_half_open, Config, CircuitBreaker, Readings, new,
  transition_to, allow_request, record_success, record_failure, record_result, reset, settle,
  execute,
}

-- A counter has not reached its threshold: it is 0, or positive and below.
abbrev pub IsBelow : ℤ → ℤ → Type 0
IsBelow n threshold = (n ≡ pos 0) ⊎ ((pos 0 <ℤ n) × (n <ℤ threshold))

pub record IsConfig (c : Config) : Type 0 where
  pub failure_max : c.failure_threshold ≤ℤ pos int_max
  pub success_max : c.success_threshold ≤ℤ pos int_max

pub record IsValid (cb : CircuitBreaker) : Type 0 where
  pub closed_failures : cb.state ≡ state_closed → IsBelow cb.failures cb.config.failure_threshold
  pub half_open_failures : cb.state ≡ state_half_open → cb.failures ≡ pos 0
  pub half_open_successes :
      cb.state ≡ state_half_open → IsBelow cb.successes cb.config.success_threshold
  pub closed_successes : cb.state ≡ state_closed → cb.successes ≡ pos 0
  pub open_successes : cb.state ≡ state_open → cb.successes ≡ pos 0

pub new-IsValid : (name : String) (c : Option Config) → IsValid (new name c)
unfolding new
new-IsValid name c = ground arith

pub transition_to-IsValid :
    (now : ℕ) (s : State) (cb : CircuitBreaker) → IsValid cb → IsValid (transition_to now s cb)
unfolding transition_to
transition_to-IsValid now state_closed cb v = ground arith
transition_to-IsValid now state_open cb v = ground arith
transition_to-IsValid now state_half_open cb v = ground arith

pub allow_request-IsValid :
    (now : ℕ) (cb : CircuitBreaker) → IsValid cb → IsValid (allow_request now cb).0
unfolding allow_request
allow_request-IsValid now cb v = ground arith

record_success-IsValid :
    (now : ℕ) (cb : CircuitBreaker)
    → IsConfig cb.config
    → IsValid cb
    → IsValid (record_success now cb)
unfolding record_success
record_success-IsValid now cb c v = ground arith

record_failure-IsValid :
    (now now' : ℕ) (cb : CircuitBreaker)
    → IsConfig cb.config
    → IsValid cb
    → IsValid (record_failure now now' cb)
unfolding record_failure
record_failure-IsValid now now' cb c v = ground arith

pub record_result-IsValid :
    (now now' : ℕ) (success : Bool) (cb : CircuitBreaker)
    → IsConfig cb.config
    → IsValid cb
    → IsValid (record_result now now' success cb)
unfolding record_result
record_result-IsValid now now' true cb c v = record_success-IsValid now cb c v
record_result-IsValid now now' false cb c v = record_failure-IsValid now now' cb c v

pub reset-IsValid : (now : ℕ) (cb : CircuitBreaker) → IsValid cb → IsValid (reset now cb)
unfolding reset
reset-IsValid now cb v = transition_to-IsValid now state_closed cb v

-- No operation changes the configuration or the name.
pub config-transition_to :
    (now : ℕ) (s : State) (cb : CircuitBreaker)
    → ((transition_to now s cb).config ≡ cb.config) × ((transition_to now s cb).name ≡ cb.name)
unfolding transition_to
config-transition_to now state_closed cb = ground arith
config-transition_to now state_open cb = ground arith
config-transition_to now state_half_open cb = ground arith

pub config-allow_request :
    (now : ℕ) (cb : CircuitBreaker)
    → ((allow_request now cb).0.config ≡ cb.config) × ((allow_request now cb).0.name ≡ cb.name)
unfolding allow_request
config-allow_request now cb = ground arith

pub config-record_result :
    (now now' : ℕ) (success : Bool) (cb : CircuitBreaker)
    → ((record_result now now' success cb).config ≡ cb.config)
      × ((record_result now now' success cb).name ≡ cb.name)
unfolding record_result record_success record_failure
config-record_result now now' true cb = ground arith
config-record_result now now' false cb = ground arith

pub execute-IsValid :
    {R E : Type 0} (t : Readings) (fn : Unit {0} → R × Option E) (cb : CircuitBreaker)
    → IsConfig cb.config
    → IsValid cb
    → IsValid (execute t fn cb).0 × ((execute t fn cb).0.config ≡ cb.config)
unfolding execute
execute-IsValid {R} {E} t fn cb c v =
    let e = config-allow_request t.asked cb in
    let v' = allow_request-IsValid t.asked cb v in
    let c' : IsConfig (allow_request t.asked cb).0.config = rw e.0 c in
    elim (Bool-cases (allow_request t.asked cb).1) [
      | inl yes' ↦ rw yes' (settled c' v' e.0 (fn tt))
      | inr no' ↦ rw no' (v', e.0)
    ]
  where
    settled :
        {cb' : CircuitBreaker}
        → IsConfig cb'.config
        → IsValid cb'
        → cb'.config ≡ cb.config
        → (o : R × Option E) → IsValid (settle t cb' o).0 × ((settle t cb' o).0.config ≡ cb.config)
    settled {cb'} c v e (r, none) = (
      record_result-IsValid t.ended t.tripped true cb' c v,
      (config-record_result t.ended t.tripped true cb').0 ∙ e,
    )
    settled {cb'} c v e (r, some x) = (
      record_result-IsValid t.ended t.tripped false cb' c v,
      (config-record_result t.ended t.tripped false cb').0 ∙ e,
    )
