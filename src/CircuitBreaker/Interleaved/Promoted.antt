-- ===== src/CircuitBreaker/Interleaved/Promoted.antt =====
-- infra/circuitbreaker: a promotion with no lock keeps what holds at the place under the lock.
use argis_extensions.Prelude.{
  ℕ, ◌≡◌, refl, sym, subst, ◌∙◌, ◌⊎◌, inl, inr, Option, none, some, arith,
}
use argis_extensions.Prelude.Int.{ℤ}
use argis_extensions.CircuitBreaker.{
  State, state_closed, state_open, state_half_open, Config, CircuitBreaker,
}
use argis_extensions.CircuitBreaker.Counters.{IsBelow}
use argis_extensions.CircuitBreaker.Interleaved.{
  Stage, reads_state, writes_state, clears_failures, clears_successes, stamps, reports, advance,
  Section, asks_success, clears, loads_successes, stores_successes, tests_successes, stamps_failure,
  asks_failure, loads_failures, stores_failures, tests_failures, moves,
}
use argis_extensions.CircuitBreaker.Interleaved.Held.{
  IsIdle, IsUntripped, IsQuiet, IsMoving, IsHeld, IsAt, IsCapped, advance-IsCapped,
}

-- An access of a promotion keeps what holds under the lock.
promoted-IsIdle :
    (now : ℕ) (stage : Stage) (cb : CircuitBreaker)
    → IsIdle cb
    → IsIdle (advance now state_half_open stage cb).0
unfolding advance
promoted-IsIdle now reads_state cb h = h
promoted-IsIdle now (writes_state old) cb h = ground (arith, h)
promoted-IsIdle now (clears_failures old) cb h = ground (arith, h)
promoted-IsIdle now (clears_successes old) cb h = ground (arith, h)
promoted-IsIdle now (stamps old) cb h = ground (arith, h)
promoted-IsIdle now (reports old) cb h = ground (arith, h)

promoted-IsUntripped :
    (now : ℕ) (stage : Stage) (cb : CircuitBreaker)
    → IsUntripped cb
    → IsUntripped (advance now state_half_open stage cb).0
unfolding advance
promoted-IsUntripped now reads_state cb h = h
promoted-IsUntripped now (writes_state old) cb h = ground (arith, h)
promoted-IsUntripped now (clears_failures old) cb h = ground (arith, h)
promoted-IsUntripped now (clears_successes old) cb h = h
promoted-IsUntripped now (stamps old) cb h = h
promoted-IsUntripped now (reports old) cb h = ground (arith, h)

promoted-IsBelow :
    (now : ℕ) (stage : Stage) (cb : CircuitBreaker) (n : ℤ)
    → IsBelow n cb.config.failure_threshold
    → IsBelow n (advance now state_half_open stage cb).0.config.failure_threshold
      × (IsBelow cb.failures cb.config.failure_threshold
          → IsBelow
              (advance now state_half_open stage cb).0.failures
              (advance now state_half_open stage cb).0.config.failure_threshold)
unfolding advance
promoted-IsBelow now reads_state cb n h = ground (arith, h)
promoted-IsBelow now (writes_state old) cb n h = ground (arith, h)
promoted-IsBelow now (clears_failures old) cb n h = ground (arith, h)
promoted-IsBelow now (clears_successes old) cb n h = ground (arith, h)
promoted-IsBelow now (stamps old) cb n h = ground (arith, h)
promoted-IsBelow now (reports old) cb n h = ground (arith, h)

-- A promotion leaves the state or makes it half-open.
promoted_state :
    (now : ℕ) (stage : Stage) (cb : CircuitBreaker)
    → ((advance now state_half_open stage cb).0.state ≡ cb.state)
      ⊎ ((advance now state_half_open stage cb).0.state ≡ state_half_open)
unfolding advance
promoted_state now reads_state cb = inl refl
promoted_state now (writes_state old) cb = inr refl
promoted_state now (clears_failures old) cb = inl refl
promoted_state now (clears_successes old) cb = inl refl
promoted_state now (stamps old) cb = inl refl
promoted_state now (reports old) cb = ground arith

promoted-IsQuiet :
    (now : ℕ) (stage : Stage) (cb : CircuitBreaker)
    → IsQuiet cb
    → IsQuiet (advance now state_half_open stage cb).0
promoted-IsQuiet now stage cb (h, k) =
    (promoted-IsIdle now stage cb h, promoted-IsUntripped now stage cb k)

promoted_half_open :
    (now : ℕ) (stage : Stage) (cb : CircuitBreaker)
    → cb.state ≡ state_half_open
    → (advance now state_half_open stage cb).0.state ≡ state_half_open
promoted_half_open now stage cb e = elim (promoted_state now stage cb) [
  | inl same ↦ same ∙ e
  | inr moved ↦ moved
]

promoted_not_closed :
    (now : ℕ) (stage : Stage) (cb : CircuitBreaker)
    → (cb.state ≡ state_closed → ⊥)
    → (advance now state_half_open stage cb).0.state ≡ state_closed
    → ⊥
promoted_not_closed now stage cb h e = elim (promoted_state now stage cb) [
  | inl same ↦ h (sym same ∙ e)
  | inr moved ↦ ground (arith, sym moved ∙ e)
]

promoted-IsMoving :
    (now : ℕ) (stage : Stage) (cb : CircuitBreaker) (new : State) (place : Stage)
    → IsMoving new place cb
    → IsMoving new place (advance now state_half_open stage cb).0
promoted-IsMoving now stage cb state_closed reads_state (inl e) =
    inl (promoted_half_open now stage cb e)
promoted-IsMoving now stage cb state_closed reads_state (inr h) =
    inr (promoted-IsQuiet now stage cb h)
promoted-IsMoving now stage cb state_closed (writes_state old) h = tt
promoted-IsMoving now stage cb state_closed (clears_failures old) h = tt
promoted-IsMoving now stage cb state_closed (clears_successes old) h =
    promoted-IsUntripped now stage cb h
promoted-IsMoving now stage cb state_closed (stamps old) h = promoted-IsQuiet now stage cb h
promoted-IsMoving now stage cb state_closed (reports old) h = promoted-IsQuiet now stage cb h
promoted-IsMoving now stage cb state_open reads_state h = promoted-IsIdle now stage cb h
promoted-IsMoving now stage cb state_open (writes_state old) h = tt
promoted-IsMoving now stage cb state_open (clears_failures old) h =
    promoted_not_closed now stage cb h
promoted-IsMoving now stage cb state_open (clears_successes old) h =
    promoted_not_closed now stage cb h
promoted-IsMoving now stage cb state_open (stamps old) h = promoted-IsQuiet now stage cb h
promoted-IsMoving now stage cb state_open (reports old) h = promoted-IsQuiet now stage cb h
promoted-IsMoving now stage cb state_half_open place h = h

promoted-IsHeld :
    (now : ℕ) (stage : Stage) (cb : CircuitBreaker) (section : Section)
    → IsCapped cb
    → IsHeld section cb
    → IsHeld section (advance now state_half_open stage cb).0
promoted-IsHeld now stage cb asks_success k h = promoted-IsQuiet now stage cb h
promoted-IsHeld now stage cb clears k h = promoted-IsQuiet now stage cb h
promoted-IsHeld now stage cb loads_successes k (h, e) =
    (promoted-IsQuiet now stage cb h, promoted_half_open now stage cb e)
promoted-IsHeld now stage cb (stores_successes n) k (h, e) = (
  subst (λ (c : Config). IsBelow n c.success_threshold)
      (sym (advance-IsCapped now state_half_open stage cb k).1) h,
  promoted_half_open now stage cb e,
)
promoted-IsHeld now stage cb tests_successes k e = promoted_half_open now stage cb e
promoted-IsHeld now stage cb stamps_failure k h = promoted-IsQuiet now stage cb h
promoted-IsHeld now stage cb asks_failure k h = promoted-IsQuiet now stage cb h
promoted-IsHeld now stage cb loads_failures k (h, b) =
    (promoted-IsIdle now stage cb h, (promoted-IsBelow now stage cb cb.failures b).1 b)
promoted-IsHeld now stage cb (stores_failures n) k (h, b) =
    (promoted-IsIdle now stage cb h, (promoted-IsBelow now stage cb n b).0)
promoted-IsHeld now stage cb tests_failures k h = promoted-IsIdle now stage cb h
promoted-IsHeld now stage cb (moves new place) k h = promoted-IsMoving now stage cb new place h

pub promoted-IsAt :
    (now : ℕ) (stage : Stage) (cb : CircuitBreaker) (holder : Option Section)
    → IsCapped cb
    → IsAt holder cb
    → IsAt holder (advance now state_half_open stage cb).0
promoted-IsAt now stage cb none k h = promoted-IsQuiet now stage cb h
promoted-IsAt now stage cb (some section) k h = promoted-IsHeld now stage cb section k h
