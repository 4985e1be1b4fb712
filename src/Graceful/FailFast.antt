-- ===== src/Graceful/FailFast.antt =====
-- infra/graceful/graceful.go: what FailFast changes.
use argis_extensions.Prelude.{
  String, ℕ, ◌+◌, ◌≡◌, refl, ap, ◌∙◌, inl, inr, Bool, true, false, Option, none, some, List, [],
  ◌∷◌, arith, Bool-cases, ◌⊎◌, if◌then◌else◌, ◌&&◌,
}
use argis_extensions.CircuitBreaker.{CallError, Readings}
use argis_extensions.CircuitBreaker.Wrapper.{PluginWrapper, Answer, pre_hook, post_hook}
use argis_extensions.CircuitBreaker.Wrapper.Hooks.{transport_error_lost}
use argis_extensions.Graceful.{
  PreResult, PostResult, PluginManager, run_pre_hooks, execute_pre_hooks, name_error, take_answer,
  is_some, take_reply, run_post_hooks, execute_post_hooks,
}

module _ {Req Short E : Type 0} where
  answer_kept :
      (a : Answer Req Short (CallError E)) (last : PreResult Req Short (CallError E))
      → (is_some a.error ≡ true) ⊎ (is_some last.error ≡ true)
      → is_some (take_answer a last).error ≡ true
  unfolding take_answer
  answer_kept a last h = ground (arith, h)

not_stopped :
    {A E : Type 0} (fail_fast : Bool) (o : Option E) (stop go_on : A)
    → o ≡ none
    → (if fail_fast && is_some o then stop else go_on) ≡ go_on
not_stopped fail_fast o stop go_on h = rw h (ground arith)

error_named : {X : Type 0} (name : String) (o : Option X) → is_some (name_error name o) ≡ is_some o
unfolding name_error
error_named name none = refl
error_named name (some e) = refl

module _ {Req Resp Short BErr E : Type 0} (clock : ℕ → Readings) where
  -- An error that a plugin has left is returned by the degraded run, or a later one is.
  error_kept :
      (i : ℕ) (wrapped : List (PluginWrapper Req Resp Short BErr E))
      (last : PreResult Req Short (CallError E))
      → is_some last.error ≡ true
      → is_some (run_pre_hooks false clock i wrapped last).1.error ≡ true
  unfolding run_pre_hooks
  error_kept i [] last h = h
  error_kept i (pw ∷ wrapped) last h =
      error_kept (i + 1) wrapped (take_answer (pre_hook (clock i) last.request pw).1 last)
        (answer_kept _ last (inr h))

  quiet_run :
      (i : ℕ) (wrapped : List (PluginWrapper Req Resp Short BErr E))
      (last : PreResult Req Short (CallError E))
      → is_some (run_pre_hooks false clock i wrapped last).1.error ≡ false
      → run_pre_hooks true clock i wrapped last ≡ run_pre_hooks false clock i wrapped last
  unfolding run_pre_hooks
  quiet_run i [] last h = refl
  quiet_run i (pw ∷ wrapped) last h =
      let a = (pre_hook (clock i) last.request pw).1 in
      elim (Bool-cases (is_some a.error)) [
        | inl e ↦
            let kept =
              error_kept (i + 1) wrapped (take_answer a last) (answer_kept a last (inl e)) in
            ground (arith, kept, h)
        | inr e ↦ rw (e, quiet_run (i + 1) wrapped (take_answer a last) h) refl
      ]

  loud_run :
      (i : ℕ) (wrapped : List (PluginWrapper Req Resp Short BErr E))
      (last : PreResult Req Short (CallError E))
      → is_some (run_pre_hooks true clock i wrapped last).1.error
        ≡ is_some (run_pre_hooks false clock i wrapped last).1.error
  unfolding run_pre_hooks
  loud_run i [] last = refl
  loud_run i (pw ∷ wrapped) last =
      let a = (pre_hook (clock i) last.request pw).1 in
      elim (Bool-cases (is_some a.error)) [
        | inl e ↦
            let kept =
              error_kept (i + 1) wrapped (take_answer a last) (answer_kept a last (inl e)) in
            rw (e, kept) (error_named pw.plugin.get_name a.error ∙ e)
        | inr e ↦ rw e (loud_run (i + 1) wrapped (take_answer a last))
      ]

  abbrev pub set_fail_fast :
      Bool → PluginManager Req Resp Short BErr E → PluginManager Req Resp Short BErr E
  set_fail_fast b pm = record pm { config = record pm.config { fail_fast = b } }

  -- With FailFast, the hooks on a request return an error just when they do without it.
  pub fail_fast_errors :
      (req : Option Req) (pm : PluginManager Req Resp Short BErr E)
      → is_some (execute_pre_hooks clock req (set_fail_fast true pm)).1.error
        ≡ is_some (execute_pre_hooks clock req (set_fail_fast false pm)).1.error
  unfolding execute_pre_hooks
  fail_fast_errors req pm = loud_run 0 pm.wrapped_plugins _

  -- When the hooks on a request return no error without FailFast, they return the same request, the
  -- same short circuit and no error with it, and leave the plugins' breakers the same.
  pub fail_fast_same :
      (req : Option Req) (pm : PluginManager Req Resp Short BErr E)
      → is_some (execute_pre_hooks clock req (set_fail_fast false pm)).1.error ≡ false
      → execute_pre_hooks clock req (set_fail_fast true pm) ≡ (
        set_fail_fast true (execute_pre_hooks clock req (set_fail_fast false pm)).0,
        (execute_pre_hooks clock req (set_fail_fast false pm)).1,
      )
  unfolding execute_pre_hooks
  fail_fast_same req pm h =
      ap (λ r. (record (set_fail_fast true pm) { wrapped_plugins = r.0 }, r.1))
        (quiet_run 0 pm.wrapped_plugins _ h)

  silent_replies :
      (fail_fast : Bool) (i : ℕ) (wrapped : List (PluginWrapper Req Resp Short BErr E))
      (last : PostResult Resp BErr E)
      → last.error ≡ none
      → (run_post_hooks fail_fast clock i wrapped last ≡ run_post_hooks false clock i wrapped last)
        × ((run_post_hooks false clock i wrapped last).1.error ≡ none)
  unfolding run_post_hooks take_reply
  silent_replies fail_fast i [] last h = (refl, h)
  silent_replies fail_fast i (pw ∷ wrapped) last h =
      let quiet = (transport_error_lost (clock i) pw none last.response).1 in
      let r = (post_hook (clock i) last.response pw).1 in
      let (same, silent) =
        silent_replies fail_fast (i + 1) wrapped (take_reply r last) (rw (take_reply, quiet) h) in
      (
        not_stopped fail_fast r.error _ _ quiet
            ∙ ap (λ rest. ((post_hook (clock i) last.response pw).0 ∷ rest.0, rest.1)) same,
        silent,
      )

  -- The hooks on a response never return an error of their own, since the wrappers drop it, and so
  -- FailFast makes no difference to them: the reply and the plugins' breakers are the same.
  pub post_hooks_silent :
      (resp : Option Resp) (pm : PluginManager Req Resp Short BErr E) (fail_fast : Bool)
      → ((execute_post_hooks clock resp (set_fail_fast fail_fast pm)).1.error ≡ none)
        × (execute_post_hooks clock resp (set_fail_fast fail_fast pm) ≡ (
          set_fail_fast fail_fast (execute_post_hooks clock resp (set_fail_fast false pm)).0,
          (execute_post_hooks clock resp (set_fail_fast false pm)).1,
        ))
  unfolding execute_post_hooks
  post_hooks_silent resp pm fail_fast =
      let start : PostResult Resp BErr E = record {
        response = resp;
        failure = none;
        error = none;
      } in
      let (same, silent) = silent_replies fail_fast 0 pm.wrapped_plugins start refl in
      (
        ap (λ r. r.1.error) same ∙ silent,
        ap (λ r. (record (set_fail_fast fail_fast pm) { wrapped_plugins = r.0 }, r.1)) same,
      )
