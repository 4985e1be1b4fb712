-- ===== src/CircuitBreaker/Interleaved/Stale.antt =====
-- infra/circuitbreaker: a promotion that comes after another call has closed the breaker.
use argis_extensions.Prelude.{
  ℕ, ◌≡◌, refl, sym, subst, Bool, true, false, Option, none, List, ◌∷◌, ◌++◌,
}
use argis_extensions.CircuitBreaker.{State, state_closed, state_open, CircuitBreaker, notify}
use argis_extensions.CircuitBreaker.Interleaved.{Stage, reads_state, Section, System, step, steps}
use argis_extensions.CircuitBreaker.Interleaved.Alone.{promotes, recording}

-- A breaker with this state and, or not, a callback.
abbrev with_state : State → Bool → CircuitBreaker → CircuitBreaker
with_state st reported cb = record cb {
  state = st;
  config = record cb.config { on_state_change = reported };
}

abbrev system : CircuitBreaker → Option Section → List Stage → ℕ → System
system cb holder promoting calls = record {
  breaker = cb;
  holder = holder;
  promoting = promoting;
  in_flight = calls;
}

trips_closed :
    (reported : Bool) (cb : CircuitBreaker) (stages : List Stage) (calls now t t' : ℕ)
    → (steps (promotes 5 now ++ recording false t t') (
        system
          (with_state state_closed reported cb)
          none
          (reads_state ∷ stages)
          calls)).breaker.state
      ≡ state_open
unfolding steps step notify
trips_closed true cb stages calls now t t' = refl
trips_closed false cb stages calls now t t' = refl

-- A call that found the breaker timed out, and makes its transition when another call has closed
-- the breaker in between, opens it again by a single failure, whatever the failure threshold.
pub stale_promotion_trips :
    (s : System) (stages : List Stage) (now t t' : ℕ)
    → s.breaker.state ≡ state_closed
    → s.holder ≡ none
    → s.promoting ≡ reads_state ∷ stages
    → (steps (promotes 5 now ++ recording false t t') s).breaker.state ≡ state_open
stale_promotion_trips s stages now t t' c free e =
    let cb = s.breaker in
    let trips = λ (st : State) (holder : Option Section) (promoting : List Stage).
      (steps (promotes 5 now ++ recording false t t') (
        system (with_state st cb.config.on_state_change cb) holder promoting
          s.in_flight)).breaker.state
      ≡ state_open in
    subst (λ st. trips st s.holder s.promoting) (sym c)
      (subst (λ holder. trips state_closed holder s.promoting) (sym free)
        (subst (λ promoting. trips state_closed none promoting) (sym e)
          (trips_closed cb.config.on_state_change cb stages s.in_flight now t t')))
