-- ===== src/CircuitBreaker/Trips.antt =====
-- infra/circuitbreaker: sequences of calls, one after the other.
use argis_extensions.Prelude.{
  ℕ, suc, ◌+◌, ◌≤◌, ◌<◌, ◌≡◌, ap, ◌∙◌, List, [], ◌∷◌, Option, none, some, arith, length, All,
  if◌then◌else◌,
}
use argis_extensions.Prelude.Int.{pos, int_max, leb_ℤ}
use argis_extensions.CircuitBreaker.{
  state_closed, state_open, CircuitBreaker, Readings, record_result, record_failure, execute,
}

-- A call of `Execute` as its caller sees it: the readings of the clock, and `fn`.
abbrev pub Call : Type 0 → Type 0 → Type 0
Call R E = Readings × (Unit {0} → R × Option E)

module _ {R E : Type 0} where
  unfoldable pub run : List (Call R E) → CircuitBreaker → CircuitBreaker
  run [] cb = cb
  run ((t, fn) ∷ calls) cb = run calls (execute t fn cb).0

  abbrev pub Fails : Call R E → Type 0
  Fails c = (e : E) × ((c.1 tt).1 ≡ some e)

  abbrev pub Succeeds : Call R E → Type 0
  Succeeds c = (c.1 tt).1 ≡ none

  -- a failed call of a closed breaker
  closed_failure :
      (t : Readings) (fn : Unit {0} → R × Option E) (f : ℕ) (cb : CircuitBreaker)
      → cb.state ≡ state_closed
      → cb.failures ≡ pos f
      → f < int_max
      → Fails (t, fn)
      → (execute t fn cb).0.config ≡ cb.config
        × ((execute t fn cb).0.failures ≡ pos (suc f))
        × ((execute t fn cb).0.state ≡ (
            if leb_ℤ cb.config.failure_threshold (pos (suc f)) then state_open else state_closed))
  unfolding execute record_result record_failure
  closed_failure t fn f cb s e m (x, h) = ground arith

  -- A closed breaker with `f` failures counted, given calls that all fail and whose number
  -- together with `f` is below the threshold, stays closed and counts every one of them.
  pub failing_run_closed :
      (calls : List (Call R E)) (f k : ℕ) (cb : CircuitBreaker)
      → cb.state ≡ state_closed
      → cb.failures ≡ pos f
      → cb.config.failure_threshold ≡ pos k
      → k ≤ int_max
      → f + length calls < k
      → All Fails calls
      → ((run calls cb).state ≡ state_closed) × ((run calls cb).failures ≡ pos (f + length calls))
  unfolding run
  failing_run_closed [] f k cb s e th m lt h = (s, e ∙ ap pos (omega arith))
  failing_run_closed ((t, fn) ∷ calls) f k cb s e th m lt h =
      let (c, e', s') = closed_failure t fn f cb s e (omega arith) h.0 in
      let (r, r') =
        failing_run_closed calls (suc f) k (execute t fn cb).0 (s' ∙ rw th (ground arith)) e'
          (c' ∙ th) m (omega arith) h.1 in
      (r, r' ∙ ap pos (omega arith))
    where
      c' : (execute t fn cb).0.config.failure_threshold ≡ cb.config.failure_threshold
      c' = ap (λ x. x.failure_threshold) (closed_failure t fn f cb s e (omega arith) h.0).0

  -- A closed breaker with `f` failures counted, given one or more calls that all fail and whose
  -- number together with `f` is the threshold, is open afterwards.
  pub failing_run_opens :
      (calls : List (Call R E)) (f : ℕ) (cb : CircuitBreaker)
      → cb.state ≡ state_closed
      → cb.failures ≡ pos f
      → cb.config.failure_threshold ≡ pos (f + length calls)
      → f + length calls ≤ int_max
      → 0 < length calls
      → All Fails calls
      → (run calls cb).state ≡ state_open
  unfolding run
  failing_run_opens [] f cb s e th m lt h = absurd (omega arith)
  failing_run_opens ((t, fn) ∷ []) f cb s e th m lt h =
      (closed_failure t fn f cb s e (omega arith) h.0).2 ∙ rw th (ground arith)
  failing_run_opens ((t, fn) ∷ c ∷ calls) f cb s e th m lt h =
      let (k, e', s') = closed_failure t fn f cb s e (omega arith) h.0 in
      failing_run_opens (c ∷ calls) (suc f) (execute t fn cb).0 (s' ∙ rw th (ground arith)) e'
        (ap (λ x. x.failure_threshold) k ∙ th ∙ ap pos (omega arith)) (omega arith) (omega arith)
        h.1
