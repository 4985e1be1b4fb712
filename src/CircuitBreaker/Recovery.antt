-- ===== src/CircuitBreaker/Recovery.antt =====
-- infra/circuitbreaker: an open breaker, its timeout and its recovery.
use argis_extensions.Prelude.{
  ℕ, suc, ◌+◌, ◌≤◌, ◌<◌, ◌≡◌, refl, ap, ◌∙◌, List, [], ◌∷◌, true, false, Option, none, some, arith,
  length, All, if◌then◌else◌,
}
use argis_extensions.Prelude.Int.{pos, ◌<ℤ◌, int_max, leb_ℤ, sub_ℕ}
use argis_extensions.CircuitBreaker.{
  state_closed, state_open, state_half_open, CircuitBreaker, rejected, Readings, timed_out,
  record_result, record_success, record_failure, transition_to, execute,
}
use argis_extensions.CircuitBreaker.Trips.{Call, run, Fails, Succeeds}

half_opened :
    (now : ℕ) (cb : CircuitBreaker)
    → cb.state ≡ state_open
    → ((transition_to now state_half_open cb).state ≡ state_half_open)
      × ((transition_to now state_half_open cb).successes ≡ pos 0)
      × ((transition_to now state_half_open cb).config ≡ cb.config)
unfolding transition_to
half_opened now cb s = ground arith

not_timed_out :
    (now : ℕ) (cb : CircuitBreaker)
    → sub_ℕ now cb.last_fail <ℤ cb.config.timeout
    → timed_out now cb ≡ false
unfolding timed_out
not_timed_out now cb h = ground arith

module _ {R E : Type 0} where
  half_open_success :
      (t : Readings) (fn : Unit {0} → R × Option E) (n : ℕ) (cb : CircuitBreaker)
      → cb.state ≡ state_half_open
      → cb.successes ≡ pos n
      → n < int_max
      → (fn tt).1 ≡ none
      → ((execute t fn cb).0.config ≡ cb.config)
        × ((execute t fn cb).0.state ≡ (
            if leb_ℤ cb.config.success_threshold (pos (suc n))
            then state_closed
            else state_half_open))
        × ((execute t fn cb).0.successes
            ≡ (if leb_ℤ cb.config.success_threshold (pos (suc n)) then pos 0 else pos (suc n)))
  unfolding execute record_result record_success
  half_open_success t fn n cb s e m h = ground arith

  -- An open breaker before its timeout refuses the call.
  pub open_rejects :
      (t : Readings) (fn : Unit {0} → R × Option E) (cb : CircuitBreaker)
      → cb.state ≡ state_open
      → timed_out t.asked cb ≡ false
      → execute t fn cb ≡ (cb, none, some (rejected cb.name))
  unfolding execute
  open_rejects t fn cb s w = ground arith

  -- Every call of an open breaker that asks before the timeout is over leaves the breaker as it
  -- is, whatever the clock shows.
  pub open_rejects-All :
      (calls : List (Call R E)) (cb : CircuitBreaker)
      → cb.state ≡ state_open
      → All (λ c. timed_out c.0.asked cb ≡ false) calls
      → run calls cb ≡ cb
  unfolding run
  open_rejects-All [] cb s h = refl
  open_rejects-All ((t, fn) ∷ calls) cb s h =
      rw (open_rejects t fn cb s h.0) (open_rejects-All calls cb s h.1)

  half_open_closes :
      (calls : List (Call R E)) (n : ℕ) (cb : CircuitBreaker)
      → cb.state ≡ state_half_open
      → cb.successes ≡ pos n
      → cb.config.success_threshold ≡ pos (n + length calls)
      → n + length calls ≤ int_max
      → 0 < length calls
      → All Succeeds calls
      → (run calls cb).state ≡ state_closed
  unfolding run
  half_open_closes [] n cb s e th m lt h = absurd (omega arith)
  half_open_closes ((t, fn) ∷ []) n cb s e th m lt h =
      (half_open_success t fn n cb s e (omega arith) h.0).1 ∙ rw th (ground arith)
  half_open_closes ((t, fn) ∷ c ∷ calls) n cb s e th m lt h =
      let (k, s', e') = half_open_success t fn n cb s e (omega arith) h.0 in
      half_open_closes (c ∷ calls) (suc n) (execute t fn cb).0 (s' ∙ rw th (ground arith))
        (e' ∙ rw th (ground arith)) (ap (λ x. x.success_threshold) k ∙ th ∙ ap pos (omega arith))
        (omega arith) (omega arith) h.1

  -- The first call of an open breaker behind its timeout is let through in the half-open state,
  -- where it counts as any other.
  open_timed_out :
      (t : Readings) (fn : Unit {0} → R × Option E) (cb : CircuitBreaker)
      → cb.state ≡ state_open
      → timed_out t.asked cb ≡ true
      → execute t fn cb ≡ execute t fn (transition_to t.asked state_half_open cb)
  unfolding execute
  open_timed_out t fn cb s w = ground arith

  -- Recovery: an open breaker closes after as many successful calls as the success threshold,
  -- the first of which asks when the timeout is over.
  pub recovers :
      (c : Call R E) (calls : List (Call R E)) (cb : CircuitBreaker)
      → cb.state ≡ state_open
      → timed_out c.0.asked cb ≡ true
      → cb.config.success_threshold ≡ pos (suc (length calls))
      → suc (length calls) ≤ int_max
      → All Succeeds (c ∷ calls)
      → (run (c ∷ calls) cb).state ≡ state_closed
  unfolding run
  recovers (t, fn) calls cb s w th m h =
      let cb' = transition_to t.asked state_half_open cb in
      let (s', n', k) = half_opened t.asked cb s in
      rw (ap (λ x. (run calls x.0).state) (open_timed_out t fn cb s w)) (
        half_open_closes ((t, fn) ∷ calls) 0 cb' s' n'
          (ap (λ x. x.success_threshold) k ∙ th ∙ ap pos (omega arith)) (omega arith) (omega arith)
          h)

  reopened :
      (t : Readings) (fn : Unit {0} → R × Option E) (cb : CircuitBreaker)
      → cb.state ≡ state_half_open
      → Fails (t, fn)
      → ((execute t fn cb).0.state ≡ state_open)
        × ((execute t fn cb).0.last_fail ≡ t.tripped)
        × ((execute t fn cb).0.config ≡ cb.config)
  unfolding execute record_result record_failure
  reopened t fn cb s (e, h) = ground arith

  -- A failed call in the half-open state opens the breaker again: every later call that asks less
  -- than the timeout after the trip is refused.
  pub probe_failure_reopens :
      (t : Readings) (fn : Unit {0} → R × Option E) (calls : List (Call R E)) (cb : CircuitBreaker)
      → cb.state ≡ state_half_open
      → Fails (t, fn)
      → All (λ c. sub_ℕ c.0.asked t.tripped <ℤ cb.config.timeout) calls
      → (run ((t, fn) ∷ calls) cb ≡ (execute t fn cb).0) × ((execute t fn cb).0.state ≡ state_open)
  unfolding run
  probe_failure_reopens t fn calls cb s h later =
      let (s', l, k) = reopened t fn cb s h in
      (open_rejects-All calls (execute t fn cb).0 s' (waits l k calls later), s')
    where
      waits :
          (execute t fn cb).0.last_fail ≡ t.tripped
          → (execute t fn cb).0.config ≡ cb.config
          → (cs : List (Call R E)) → All (λ c. sub_ℕ c.0.asked t.tripped <ℤ cb.config.timeout) cs
          → All (λ c. timed_out c.0.asked (execute t fn cb).0 ≡ false) cs
      waits l k [] h = tt
      waits l k (c ∷ cs) h =
          (not_timed_out c.0.asked (execute t fn cb).0 (rw (l, k) h.0), waits l k cs h.1)
