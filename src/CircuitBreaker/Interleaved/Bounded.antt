-- ===== src/CircuitBreaker/Interleaved/Bounded.antt =====
-- infra/circuitbreaker: the counters of a breaker that goroutines share.
use argis_extensions.Prelude.{
  ℕ, zero, suc, ◌≡◌, refl, subst, ◌∙◌, ◌⊎◌, inl, inr, Bool, true, false, List, [], ◌∷◌, Option,
  none, some, String, arith,
}
use argis_extensions.CircuitBreaker.{
  State, state_closed, state_open, state_half_open, Config, CircuitBreaker, new,
}
use argis_extensions.CircuitBreaker.Counters.{IsConfig}
use argis_extensions.CircuitBreaker.Interleaved.{
  Stage, Section, asks_success, clears, loads_successes, stores_successes, tests_successes,
  stamps_failure, asks_failure, loads_failures, stores_failures, tests_failures, moves, proceed_in,
  System, Step, enter, proceed, promote, finish, resets, enter_in, promote_at, finish_one,
  when_free, proceed_one, step, steps, start,
}
use argis_extensions.CircuitBreaker.Interleaved.Held.{
  IsQuiet, IsAt, IsHeld, IsCapped, advance-IsCapped, moved-IsAt,
}
use argis_extensions.CircuitBreaker.Interleaved.Promoted.{promoted-IsAt}

-- An access of the code under the lock leads to what holds at its next place.
proceed-IsAt :
    (now : ℕ) (section : Section) (cb : CircuitBreaker)
    → IsCapped cb
    → IsHeld section cb
    → IsAt (proceed_in now section cb).1 (proceed_in now section cb).0
unfolding proceed_in
proceed-IsAt now asks_success cb b h = ground (arith, b, h)
proceed-IsAt now clears cb b h = ground (arith, b, h)
proceed-IsAt now loads_successes cb b h = ground (arith, b, h)
proceed-IsAt now (stores_successes n) cb b h = ground (arith, b, h)
proceed-IsAt now tests_successes cb b h = ground (arith, b, h)
proceed-IsAt now stamps_failure cb b h = ground (arith, b, h)
proceed-IsAt now asks_failure cb b h = ground (arith, b, h)
proceed-IsAt now loads_failures cb b h = ground (arith, b, h)
proceed-IsAt now (stores_failures n) cb b h = ground (arith, b, h)
proceed-IsAt now tests_failures cb b h = ground (arith, b, h)
proceed-IsAt now (moves target stage) cb b h = moved-IsAt now target stage cb h

proceed-IsCapped :
    (now : ℕ) (section : Section) (cb : CircuitBreaker)
    → IsConfig cb.config
    → IsHeld section cb
    → IsCapped cb
    → IsCapped (proceed_in now section cb).0 × ((proceed_in now section cb).0.config ≡ cb.config)
unfolding proceed_in
proceed-IsCapped now asks_success cb k h b = (b, refl)
proceed-IsCapped now clears cb k h b = ground (arith, b)
proceed-IsCapped now loads_successes cb k h b = (b, refl)
proceed-IsCapped now (stores_successes n) cb k h b = ground (arith, b, h, k)
proceed-IsCapped now tests_successes cb k h b = (b, refl)
proceed-IsCapped now stamps_failure cb k h b = (b, refl)
proceed-IsCapped now asks_failure cb k h b = (b, refl)
proceed-IsCapped now loads_failures cb k h b = (b, refl)
proceed-IsCapped now (stores_failures n) cb k h b = ground (arith, b, h, k)
proceed-IsCapped now tests_failures cb k h b = (b, refl)
proceed-IsCapped now (moves target stage) cb k h b = advance-IsCapped now target stage cb b

abbrev IsSound : Config → Option Section → CircuitBreaker → Type 0
IsSound c holder cb = IsAt holder cb × IsCapped cb × (cb.config ≡ c)

promote_at-IsSound :
    (c : Config) (holder : Option Section) (i now : ℕ) (stages : List Stage) (calls : ℕ)
    (cb : CircuitBreaker)
    → IsSound c holder cb
    → IsSound c holder (promote_at i now stages calls cb).0
unfolding promote_at
promote_at-IsSound c holder i now [] calls cb h = h
promote_at-IsSound c holder zero now (stage ∷ stages) calls cb (h, b, e) =
    let kept = advance-IsCapped now state_half_open stage cb b in
    (promoted-IsAt now stage cb holder b h, kept.0, kept.1 ∙ e)
promote_at-IsSound c holder (suc i) now (stage ∷ stages) calls cb h =
    promote_at-IsSound c holder i now stages calls cb h

abbrev IsSoundSystem : Config → System → Type 0
IsSoundSystem c s = IsSound c s.holder s.breaker

entered-IsSound :
    (c : Config) (st : State) (now : ℕ) (s : System)
    → IsSoundSystem c s
    → IsSoundSystem c (enter_in st now s)
unfolding enter_in
entered-IsSound c state_closed now s h = h
entered-IsSound c state_open now s h = ground (arith, h)
entered-IsSound c state_half_open now s h = h

proceeded-IsSound :
    (c : Config) (now : ℕ) (holder : Option Section) (s : System)
    → IsConfig c
    → s.holder ≡ holder
    → IsSoundSystem c s
    → IsSoundSystem c (proceed_one now holder s)
unfolding proceed_one
proceeded-IsSound c now none s k same h = h
proceeded-IsSound c now (some section) s k same (h, b, e) =
    let held : IsHeld section s.breaker = subst (λ holder. IsAt holder s.breaker) same h in
    let kept = proceed-IsCapped now section s.breaker (rw e k) held b in
    (proceed-IsAt now section s.breaker b held, kept.0, kept.1 ∙ e)

finished-IsSound :
    (c : Config) (n : ℕ) (success : Bool) (s : System)
    → s.holder ≡ none
    → IsSoundSystem c s
    → IsSoundSystem c (finish_one n success s)
unfolding finish_one
finished-IsSound c zero success s free h = h
finished-IsSound c (suc n) true s free (h, b, e) =
    (subst (λ holder. IsAt holder s.breaker) free h, b, e)
finished-IsSound c (suc n) false s free (h, b, e) =
    (subst (λ holder. IsAt holder s.breaker) free h, b, e)

-- Whether the lock is free or not, what holds of both systems holds.
when_free-IsSound :
    (c : Config) (holder : Option Section) (s' s : System)
    → s.holder ≡ holder
    → (s.holder ≡ none → IsSoundSystem c s')
    → IsSoundSystem c s
    → IsSoundSystem c (when_free holder s' s)
unfolding when_free
when_free-IsSound c none s' s same h' h = h' same
when_free-IsSound c (some section) s' s same h' h = h

step-IsSound :
    (c : Config) (a : Step) (s : System)
    → IsConfig c
    → IsSoundSystem c s
    → IsSoundSystem c (step a s)
unfolding step
step-IsSound c (enter now) s k h =
    when_free-IsSound c s.holder _ s refl (λ free. entered-IsSound c s.breaker.state now s h) h
step-IsSound c (proceed now) s k h = proceeded-IsSound c now s.holder s k refl h
step-IsSound c (promote i now) s k h =
    promote_at-IsSound c s.holder i now s.promoting s.in_flight s.breaker h
step-IsSound c (finish success) s k h =
    when_free-IsSound c s.holder _ s refl (λ free. finished-IsSound c s.in_flight success s free h)
      h
step-IsSound c resets s k (h, b, e) =
    when_free-IsSound c s.holder _ s refl
      (λ free. (inr (subst (λ holder. IsAt holder s.breaker) free h), b, e)) (h, b, e)

steps-IsSound :
    (c : Config) (as' : List Step) (s : System)
    → IsConfig c
    → IsSoundSystem c s
    → IsSoundSystem c (steps as' s)
unfolding steps
steps-IsSound c [] s k h = h
steps-IsSound c (a ∷ as') s k h = steps-IsSound c as' (step a s) k (step-IsSound c a s k h)

held_or_IsQuiet :
    (holder : Option Section) (cb : CircuitBreaker)
    → IsAt holder cb
    → ((section : Section) × (holder ≡ some section)) ⊎ IsQuiet cb
held_or_IsQuiet none cb h = inr h
held_or_IsQuiet (some section) cb h = inl (section, refl)

started : (c : Config) (name : String) → IsSoundSystem c (start name c)
unfolding start new
started c name = ground arith

-- For thresholds that are 64-bit integers, whatever the order in which any number of goroutines
-- access the fields of a new breaker, also those that promote it with no lock, no counter passes its
-- threshold (a threshold below 1 counts as 1), and the configuration stays. While no goroutine has
-- the write lock, a closed breaker has no failures or fewer than the threshold, a half-open one no
-- successes or fewer than the threshold, and the successes are 0 in the other states.
pub steps-IsBounded :
    (c : Config) (name : String) (as' : List Step)
    → IsConfig c
    → IsCapped (steps as' (start name c)).breaker
      × ((steps as' (start name c)).breaker.config ≡ c)
      × (((section : Section) × ((steps as' (start name c)).holder ≡ some section))
          ⊎ IsQuiet (steps as' (start name c)).breaker)
steps-IsBounded c name as' k =
    let (h, b, e) = steps-IsSound c as' (start name c) k (started c name) in
    (b, e, held_or_IsQuiet (steps as' (start name c)).holder (steps as' (start name c)).breaker h)
