-- ===== src/CircuitBreaker/Wrapper/Hooks.antt =====
-- infra/circuitbreaker/plugin_wrapper.go: what the wrapped hooks return on each branch.
use argis_extensions.Prelude.{
  String, ◌≡◌, ◌≢◌, ◌∙◌, inl, inr, Bool, true, false, Option, none, some, arith, str_eq, eq_iff,
  eq_refl, if◌then◌else◌, Bool-cases, ◌&&◌,
}
use argis_extensions.Prelude.Int.{ℤ, pos, leb_ℤ, ltb_ℤ}
use argis_extensions.CircuitBreaker.{
  state_open, CircuitBreaker, failed, Readings, timed_out, allow_request, record_result, execute,
  settle,
}
use argis_extensions.CircuitBreaker.Counters.{config-allow_request, config-record_result}
use argis_extensions.CircuitBreaker.Recovery.{open_rejects}
use argis_extensions.CircuitBreaker.Wrapper.{
  Reply, PluginWrapper, open_message, transport_interceptor, pre_hook, post_hook, closure_error,
}

module _ {R E : Type 0} (t : Readings) (fn : Unit {0} → R × Option E) (cb : CircuitBreaker) where
  allowed_success :
      (allow_request t.asked cb).1 ≡ true
      → (fn tt).1 ≡ none
      → execute t fn cb
        ≡ (record_result t.ended t.tripped true (allow_request t.asked cb).0, some (fn tt).0, none)
  unfolding execute
  allowed_success a h = rw (a, h, settle)

  allowed_failure :
      (e : E)
      → (allow_request t.asked cb).1 ≡ true
      → (fn tt).1 ≡ some e
      → execute t fn cb ≡ (
        record_result t.ended t.tripped false (allow_request t.asked cb).0,
        some (fn tt).0,
        some (failed e),
      )
  unfolding execute
  allowed_failure e a h = rw (a, h, settle)

closure_error_status :
    {Resp BErr E : Type 0} (code : BErr → Option ℤ) (r : Reply Resp BErr E) (f : BErr) (c : ℤ)
    → r.error ≡ none
    → r.failure ≡ some f
    → code f ≡ some c
    → closure_error code r ≡ (if leb_ℤ (pos 500) c && ltb_ℤ c (pos 600) then some (inr f) else none)
unfolding closure_error
closure_error_status code r f c e h k = ground arith

name_kept :
    (t : Readings) (success : Bool) (cb : CircuitBreaker)
    → (record_result t.ended t.tripped success (allow_request t.asked cb).0).name ≡ cb.name
name_kept t success cb =
    (config-record_result t.ended t.tripped success (allow_request t.asked cb).0).1
    ∙ (config-allow_request t.asked cb).1

str_ne : (a b : String) → a ≢ b → str_eq a b ≡ false
str_ne a b h = ground (arith, eq_iff a b)

module _ {Req Resp Short BErr E : Type 0} (t : Readings)
    (pw : PluginWrapper Req Resp Short BErr E) where
  -- While the breaker is open and its timeout is not over, each hook hands its argument back with
  -- no error, whatever the plugin would answer, and the breaker is left as it is.
  pub open_passes_through :
      (req : Option Req) (resp : Option Resp)
      → pw.circuit_breaker.state ≡ state_open
      → timed_out t.asked pw.circuit_breaker ≡ false
      → (transport_interceptor t req pw
          ≡ (pw, record { request = req; short_circuit = none; error = none }))
        × (pre_hook t req pw ≡ (pw, record { request = req; short_circuit = none; error = none }))
        × (post_hook t resp pw ≡ (pw, record { response = resp; failure = none; error = none }))
  unfolding transport_interceptor pre_hook post_hook
  open_passes_through req resp s w = (
    rw (open_rejects t _ pw.circuit_breaker s w),
    rw (open_rejects t _ pw.circuit_breaker s w) (rw eq_refl),
    rw (open_rejects t _ pw.circuit_breaker s w),
  )

  -- When the breaker lets the call through and the plugin's hook reports no error, `PreHook`
  -- returns the plugin's answer, and the call counts as a success.
  pub allowed_answers :
      (req : Option Req)
      → (allow_request t.asked pw.circuit_breaker).1 ≡ true
      → (pw.plugin.pre_hook req).error ≡ none
      → (pre_hook t req pw ≡ (
        record pw {
          circuit_breaker =
              record_result t.ended t.tripped true (allow_request t.asked pw.circuit_breaker).0;
        },
        record {
          request = (pw.plugin.pre_hook req).request;
          short_circuit = (pw.plugin.pre_hook req).short_circuit;
          error = none;
        },
      ))
  unfolding pre_hook
  allowed_answers req a e =
      rw
        (allowed_success t (λ _. (pw.plugin.pre_hook req, (pw.plugin.pre_hook req).error))
          pw.circuit_breaker a e)
        (rw e)

  -- When the breaker lets the call through and the plugin's hook reports an error whose text is
  -- not the breaker's own, `PreHook` returns that error with the plugin's answer, and the call
  -- counts as a failure.
  pub allowed_fails :
      (req : Option Req) (e : E)
      → (allow_request t.asked pw.circuit_breaker).1 ≡ true
      → (pw.plugin.pre_hook req).error ≡ some e
      → pw.plugin.message e ≢ open_message pw.circuit_breaker.name
      → (pre_hook t req pw ≡ (
        record pw {
          circuit_breaker =
              record_result t.ended t.tripped false (allow_request t.asked pw.circuit_breaker).0;
        },
        record {
          request = (pw.plugin.pre_hook req).request;
          short_circuit = (pw.plugin.pre_hook req).short_circuit;
          error = some (failed e);
        },
      ))
  unfolding pre_hook
  allowed_fails req e a h ne =
      rw
        (allowed_failure t (λ _. (pw.plugin.pre_hook req, (pw.plugin.pre_hook req).error))
          pw.circuit_breaker e a h)
        (rw (name_kept t false pw.circuit_breaker)
          (rw (str_ne (pw.plugin.message e) (open_message pw.circuit_breaker.name) ne)))

  -- Whatever the state of the breaker and the answer of the plugin, `TransportInterceptor` returns
  -- no error, and neither does `PostHook`.
  pub transport_error_lost :
      (req : Option Req) (resp : Option Resp)
      → ((transport_interceptor t req pw).1.error ≡ none) × ((post_hook t resp pw).1.error ≡ none)
  unfolding transport_interceptor post_hook execute
  transport_error_lost req resp = (ground arith, ground arith)

  -- When the breaker lets the call through, the plugin's `PostHook` reports no error of its own
  -- and a failure with a status code: a code from 500 to 599 counts as a failed call and the
  -- response is handed back with the failure dropped; any other counts as a success, and the
  -- plugin's reply is returned as it is.
  pub post_hook_status :
      (resp : Option Resp) (f : BErr) (c : ℤ)
      → (allow_request t.asked pw.circuit_breaker).1 ≡ true
      → (pw.plugin.post_hook resp).error ≡ none
      → (pw.plugin.post_hook resp).failure ≡ some f
      → pw.plugin.status_code f ≡ some c
      → let cb = (allow_request t.asked pw.circuit_breaker).0 in
        post_hook t resp pw ≡ (
          if leb_ℤ (pos 500) c && ltb_ℤ c (pos 600)
          then (
            record pw { circuit_breaker = record_result t.ended t.tripped false cb },
            record { response = resp; failure = none; error = none },
          )
          else (
            record pw { circuit_breaker = record_result t.ended t.tripped true cb },
            pw.plugin.post_hook resp,
          ))
  unfolding post_hook
  post_hook_status resp f c a e h k =
      let reply = pw.plugin.post_hook resp in
      let code = pw.plugin.status_code in
      let x = closure_error_status code reply f c e h k in
      elim (Bool-cases (leb_ℤ (pos 500) c && ltb_ℤ c (pos 600))) [
        | inl y ↦ rw y (
            rw (
              allowed_failure t (λ _. (reply, closure_error code reply)) pw.circuit_breaker (inr f)
                a (x ∙ rw y)))
        | inr n ↦ rw n (
            rw (
              allowed_success t (λ _. (reply, closure_error code reply)) pw.circuit_breaker a
                (x ∙ rw n)))
      ]
