-- ===== src/SmartFallback/Retries.antt =====
-- plugins/smartfallback: when a failed call is tried again, and after how long.
use argis_extensions.Prelude.{
  ◌≡◌, refl, inl, inr, true, false, Option, none, some, if◌then◌else◌, arith, Bool-cases,
}
use argis_extensions.Prelude.Int.{ℤ, ltb_ℤ, is_zero}
use argis_extensions.Prelude.Float.{Float64}
use argis_extensions.SmartFallback.{should_retry}
use argis_extensions.SmartFallback.Strategies.{
  ExponentialBackoffStrategy, as_strategy, should_fallback, get_wait_time,
}

module _ (F : Float64) where
  -- An error is tried again just while the attempts are below the strategy's maximum, as the
  -- strategy's own ShouldFallback has it: its status code makes no difference.
  pub retried_exactly :
      (status_code : Option ℤ) (attempt : ℤ) (s : ExponentialBackoffStrategy F)
      → should_retry (some status_code) attempt (as_strategy F s) ≡ should_fallback F true attempt s
  unfolding should_retry should_fallback
  retried_exactly none attempt s = refl
  retried_exactly (some status_code) attempt s = ground arith

  -- Where the maximum is not below the minimum, no wait between two attempts is longer than the
  -- maximum, whatever the attempt.
  pub wait_capped :
      (attempt : ℤ) (s : ExponentialBackoffStrategy F)
      → ltb_ℤ s.backoff_max s.backoff_min ≡ false
      → ltb_ℤ s.backoff_max (get_wait_time F attempt s) ≡ false
  unfolding get_wait_time
  wait_capped attempt s h = elim (Bool-cases (is_zero attempt)) [
    | inl e ↦ rw e h
    | inr e ↦ rw e (
        capped (F.to_int (F.mul (F.of_int s.backoff_min) (F.pow s.multiplier (F.of_int attempt))))
          s.backoff_max)
  ]
    where
      capped :
          (backoff most : ℤ) → ltb_ℤ most (if ltb_ℤ most backoff then most else backoff) ≡ false
      capped backoff most = elim (Bool-cases (ltb_ℤ most backoff)) [
        | inl e ↦ rw e (ground arith)
        | inr e ↦ rw (e, e) refl
      ]
