-- ===== src/CircuitBreaker/Interleaved/Alone.antt =====
-- infra/circuitbreaker: accesses of one goroutine that no promotion comes between.
use argis_extensions.Prelude.{ℕ, zero, suc, List, [], ◌∷◌, Bool, none}
use argis_extensions.CircuitBreaker.{CircuitBreaker}
use argis_extensions.CircuitBreaker.Interleaved.{Stage, System, Step, promote, proceed, finish}

abbrev pub proceeds : ℕ → ℕ → List Step
proceeds zero now = []
proceeds (suc n) now = proceed now ∷ proceeds n now

abbrev pub promotes : ℕ → ℕ → List Step
promotes zero now = []
promotes (suc n) now = promote 0 now ∷ promotes n now

-- The accesses of recordResult: `now` is the clock at the first of them.
abbrev pub recording : Bool → ℕ → ℕ → List Step
recording success now now' = finish success ∷ proceed now ∷ proceeds 9 now'

abbrev pub free : CircuitBreaker → List Stage → ℕ → System
free cb promoting calls = record {
  breaker = cb;
  holder = none;
  promoting = promoting;
  in_flight = calls;
}
