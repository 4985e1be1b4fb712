-- ===== src/CircuitBreaker/Changes.antt =====
-- infra/circuitbreaker: the calls of `OnStateChange`, and which transitions they report.
use argis_extensions.Prelude.{
  ℕ, ◌≡◌, ◌≢◌, refl, sym, ◌⊎◌, List, [], ◌∷◌, Bool, true, false, Option, none, some, String, arith,
  All, All-append, snoc, Bool-cases, inl, inr,
}
use argis_extensions.Prelude.Int.{ℤ, inc, leb_ℤ}
use argis_extensions.CircuitBreaker.{
  State, state_closed, state_open, state_half_open, Config, Change, CircuitBreaker, Readings, new,
  transition_to, allow_request, record_success, record_failure, record_result, reset, settle,
  execute,
}

-- The reports lead from one state to another, each beginning where the one before it ends.
abbrev pub Chains : State → List Change → State → Type 0
Chains s [] t = s ≡ t
Chains s (c ∷ cs) t = (c.from ≡ s) × Chains c.to cs t

Chains-snoc :
    (s t : State) (cs : List Change) (u : State)
    → Chains s cs t
    → Chains s (snoc cs (record { from = t; to = u })) u
Chains-snoc s t [] u e = (sym e, refl)
Chains-snoc s t (c ∷ cs) u h = (h.0, Chains-snoc c.to t cs u h.1)

-- The transitions of the pattern: a closed breaker can only open, and nothing reports a
-- transition from a state to itself.
abbrev pub is_legal : State → State → Bool
is_legal state_closed state_open = true
is_legal state_open state_half_open = true
is_legal state_open state_closed = true
is_legal state_half_open state_closed = true
is_legal state_half_open state_open = true
is_legal _ _ = false

abbrev pub IsLegal : Change → Type 0
IsLegal c = is_legal c.from c.to ≡ true

-- The callback is set, and its calls are a chain of legal changes from the initial state.
abbrev pub IsTraced : CircuitBreaker → Type 0
IsTraced cb =
    (cb.config.on_state_change ≡ true)
    × Chains state_closed cb.notified cb.state
    × All IsLegal cb.notified

-- What a transition does to the state and to the reports.
transition_to_cases :
    (now : ℕ) (s : State) (cb : CircuitBreaker)
    → cb.config.on_state_change ≡ true
    → ((cb.state ≡ s) × (transition_to now s cb ≡ cb))
      ⊎ ((cb.state ≢ s)
          × ((transition_to now s cb).state ≡ s)
          × ((transition_to now s cb).config ≡ cb.config)
          × ((transition_to now s cb).notified
              ≡ snoc cb.notified (record { from = cb.state; to = s })))
unfolding transition_to
transition_to_cases now state_closed cb on = ground arith
transition_to_cases now state_open cb on = ground arith
transition_to_cases now state_half_open cb on = ground arith

legal_step : (s t : State) → s ≢ t → (s ≡ state_closed → t ≢ state_half_open) → is_legal s t ≡ true
legal_step state_closed t ne h = ground arith
legal_step state_open t ne h = ground arith
legal_step state_half_open t ne h = ground arith

transition_to-IsTraced :
    (now : ℕ) (s : State) (cb : CircuitBreaker)
    → (cb.state ≡ state_closed → s ≢ state_half_open)
    → IsTraced cb
    → IsTraced (transition_to now s cb)
transition_to-IsTraced now s cb ne (on, h, l) = elim (transition_to_cases now s cb on) [
  | inl (_, same) ↦ rw same (on, h, l)
  | inr (differs, to, c, log) ↦
      rw (to, c, log)
        (
          on,
          Chains-snoc state_closed cb.state cb.notified s h,
          All-append IsLegal cb.notified _ l (legal_step cb.state s differs ne, tt),
        )
]

allow_request_cases :
    (now : ℕ) (cb : CircuitBreaker)
    → ((allow_request now cb).0 ≡ cb)
      ⊎ ((cb.state ≡ state_open)
          × ((allow_request now cb).0 ≡ transition_to now state_half_open cb))
unfolding allow_request
allow_request_cases now cb = ground arith

allow_request-IsTraced :
    (now : ℕ) (cb : CircuitBreaker) → IsTraced cb → IsTraced (allow_request now cb).0
allow_request-IsTraced now cb h = elim (allow_request_cases now cb) [
  | inl same ↦ rw same h
  | inr (s, e) ↦ rw e (transition_to-IsTraced now state_half_open cb (λ c. cc) h)
]

-- A result leaves the state and the reports alone, or is followed by one transition.
IsQuiet : CircuitBreaker → CircuitBreaker → Type 0
IsQuiet cb cb' = (cb'.state ≡ cb.state) × (cb'.notified ≡ cb.notified) × (cb'.config ≡ cb.config)

record_success_cases :
    (now : ℕ) (cb : CircuitBreaker)
    → IsQuiet cb (record_success now cb)
      ⊎ ((cb.state ≡ state_half_open)
          × (record_success now cb
              ≡ transition_to now state_closed (record cb { successes = inc cb.successes })))
unfolding record_success IsQuiet
record_success_cases now cb = ground arith

record_failure_cases :
    (now now' : ℕ) (cb : CircuitBreaker)
    → IsQuiet cb (record_failure now now' cb)
      ⊎ ((f : ℤ) × (record_failure now now' cb
            ≡ transition_to now' state_open (record cb { failures = f; last_fail = now })))
unfolding record_failure IsQuiet
record_failure_cases now now' cb = go cb.state refl
  where
    go :
        (s : State)
        → cb.state ≡ s
        → IsQuiet cb (record_failure now now' cb)
          ⊎ ((f : ℤ) × (record_failure now now' cb
                ≡ transition_to now' state_open (record cb { failures = f; last_fail = now })))
    go state_closed e = elim (Bool-cases (leb_ℤ cb.config.failure_threshold (inc cb.failures))) [
      | inl a ↦ inr (inc cb.failures, ground arith)
      | inr a ↦ inl (ground arith)
    ]
    go state_open e = inl (ground arith)
    go state_half_open e = inr (cb.failures, ground arith)

quiet-IsTraced : (cb cb' : CircuitBreaker) → IsQuiet cb cb' → IsTraced cb → IsTraced cb'
unfolding IsQuiet
quiet-IsTraced cb cb' (s, n, c) h = rw (s, n, c) h

record_result-IsTraced :
    (now now' : ℕ) (success : Bool) (cb : CircuitBreaker)
    → IsTraced cb
    → IsTraced (record_result now now' success cb)
unfolding record_result
record_result-IsTraced now now' true cb h = elim (record_success_cases now cb) [
  | inl q ↦ quiet-IsTraced cb _ q h
  | inr (s, e) ↦ rw e (
      transition_to-IsTraced now state_closed (record cb { successes = inc cb.successes })
        (λ c. λ x. cc) h)
]
record_result-IsTraced now now' false cb h = elim (record_failure_cases now now' cb) [
  | inl q ↦ quiet-IsTraced cb _ q h
  | inr (f, e) ↦ rw e (
      transition_to-IsTraced now' state_open (record cb { failures = f; last_fail = now })
        (λ c. λ x. cc) h)
]

execute-IsTraced :
    {R E : Type 0} (t : Readings) (fn : Unit {0} → R × Option E) (cb : CircuitBreaker)
    → IsTraced cb
    → IsTraced (execute t fn cb).0
unfolding execute
execute-IsTraced {R} {E} t fn cb h =
    let h' = allow_request-IsTraced t.asked cb h in
    elim (Bool-cases (allow_request t.asked cb).1) [
      | inl a ↦ rw a (settled (allow_request t.asked cb).0 h' (fn tt))
      | inr r ↦ rw r h'
    ]
  where
    settled :
        (cb' : CircuitBreaker) → IsTraced cb' → (o : R × Option E) → IsTraced (settle t cb' o).0
    settled cb' h (r, none) = record_result-IsTraced t.ended t.tripped true cb' h
    settled cb' h (r, some x) = record_result-IsTraced t.ended t.tripped false cb' h

-- What a client does with a breaker, one operation after the other.
pub data Operation (R E : Type 0) : Type 0 where
  executes : Readings → (Unit {0} → R × Option E) → Operation R E
  records : ℕ → ℕ → Bool → Operation R E
  resets : ℕ → Operation R E

unfoldable pub operate : {R E : Type 0} → Operation R E → CircuitBreaker → CircuitBreaker
operate (executes t fn) cb = (execute t fn cb).0
operate (records now now' success) cb = record_result now now' success cb
operate (resets now) cb = reset now cb

unfoldable pub operate_all : {R E : Type 0} → List (Operation R E) → CircuitBreaker → CircuitBreaker
operate_all [] cb = cb
operate_all (o ∷ os) cb = operate_all os (operate o cb)

operate-IsTraced :
    {R E : Type 0} (o : Operation R E) (cb : CircuitBreaker) → IsTraced cb → IsTraced (operate o cb)
unfolding operate reset
operate-IsTraced (executes t fn) cb h = execute-IsTraced t fn cb h
operate-IsTraced (records now now' success) cb h = record_result-IsTraced now now' success cb h
operate-IsTraced (resets now) cb h = transition_to-IsTraced now state_closed cb (λ c. λ x. cc) h

operate_all-IsTraced :
    {R E : Type 0} (os : List (Operation R E)) (cb : CircuitBreaker)
    → IsTraced cb
    → IsTraced (operate_all os cb)
unfolding operate_all
operate_all-IsTraced [] cb h = h
operate_all-IsTraced (o ∷ os) cb h =
    operate_all-IsTraced os (operate o cb) (operate-IsTraced o cb h)

-- Over any operations, one after the other, on a new breaker whose callback is set, the calls of
-- `OnStateChange` are a chain of legal changes from the closed state to the present one: none is
-- lost or repeated, and a closed breaker never turns half-open.
pub new-IsTraced :
    {R E : Type 0} (os : List (Operation R E)) (name : String) (c : Config)
    → c.on_state_change ≡ true
    → IsTraced (operate_all os (new name (some c)))
unfolding new
new-IsTraced os name c on = operate_all-IsTraced os (new name (some c)) (on, refl, tt)
