-- ===== src/Config/Secrets/Recent.antt =====
-- config/secrets.go: how old a secret can be that GetSecret returns.
use argis_extensions.Prelude.{
  ℕ, ◌+◌, ◌<◌, ◌≤◌, ◌≡◌, refl, sym, ap, ◌∙◌, subst, inl, inr, String, Bool, true, false, Option,
  none, some, List, [], ◌∷◌, ◌<>◌, ltb, ltb→lt, str_eq, if◌then◌else◌, Bool-cases, arith,
}
use argis_extensions.Prelude.Assoc.{lookup, delete, insert_found, lookup-delete}
use argis_extensions.Config.Secrets.{
  CachedSecret, SecretsManager, new_secrets_manager, get_from_vault, cache_secret, get_from_env,
  get_uncached, get_looked_up, get_secret,
}

-- A value that the environment had under a key at a time.
abbrev pub WasSet : (ℕ → String → String) → String → String → ℕ → Type 0
WasSet env key value t = (env t ("BIFROST_" <> key) ≡ value) × (str_eq value "" ≡ false)

-- Each entry of the cache was in the environment, a time to live before it expires.
abbrev pub IsKept : (ℕ → String → String) → SecretsManager → Type 0
IsKept env s =
    (key : String) (c : CachedSecret)
    → lookup key s.cache ≡ some c
    → (t : ℕ) × WasSet env key c.value t × (c.expires_at ≡ t + s.cache_ttl)

-- A result: the answer was in the environment less than the time to live before, and the cache
-- is kept.
abbrev pub IsRecent :
    (ℕ → String → String) → ℕ → String → ℕ → Option String × SecretsManager → Type 0
IsRecent env now key ttl (none, s) = IsKept env s × (s.cache_ttl ≡ ttl)
IsRecent env now key ttl (some value, s) =
    ((t : ℕ) × WasSet env key value t × (now < t + ttl)) × IsKept env s × (s.cache_ttl ≡ ttl)

module _ (env : ℕ → String → String) where
  cached-IsKept :
      (now : ℕ) (key value : String) (s : SecretsManager)
      → IsKept env s
      → WasSet env key value now
      → IsKept env (cache_secret now key value s)
  unfolding cache_secret
  cached-IsKept now key value s kept set asked c found =
      elim (insert_found key asked _ c s.cache found) [
        | inl (same, e) ↦ (
          now,
          subst (λ k. WasSet env k c.value now) same
              (subst (λ (v : CachedSecret). WasSet env key v.value now) e set),
          sym (ap (λ (v : CachedSecret). v.expires_at) e),
        )
        | inr old ↦ kept asked c old
      ]

  get_from_env-IsRecent :
      (now : ℕ) (key : String) (s : SecretsManager)
      → 1 ≤ s.cache_ttl
      → IsKept env s
      → IsRecent env now key s.cache_ttl (get_from_env (env now) now key s)
  unfolding get_from_env cache_secret
  get_from_env-IsRecent now key s some_time kept = elim (Bool-cases s.env_fallback) [
    | inl e ↦ elim (Bool-cases (str_eq (env now ("BIFROST_" <> key)) "")) [
      | inl empty ↦ rw (e, empty) (kept, refl)
      | inr set ↦
          rw (e, set)
            (
              (now, (refl, set), omega (arith, some_time)),
              cached-IsKept now key _ s kept (refl, set),
              refl,
            )
    ]
    | inr e ↦ rw e (kept, refl)
  ]

  deleted-IsKept :
      (key : String) (s : SecretsManager)
      → IsKept env s
      → IsKept env (record s { cache = delete key s.cache })
  deleted-IsKept key s kept asked c found =
      kept asked c (ground (arith, lookup-delete key asked s.cache, found))

  get_uncached-IsRecent :
      (now : ℕ) (key : String) (ask : Bool) (s : SecretsManager)
      → 1 ≤ s.cache_ttl
      → IsKept env s
      → IsRecent env now key s.cache_ttl
          (get_uncached (env now) now key (if ask then none else get_from_vault key) s)
  unfolding get_uncached get_from_vault
  get_uncached-IsRecent now key true s some_time kept =
      get_from_env-IsRecent now key s some_time kept
  get_uncached-IsRecent now key false s some_time kept =
      get_from_env-IsRecent now key s some_time kept

  get_looked_up-IsRecent :
      (now : ℕ) (key : String) (s : SecretsManager) (known : Option CachedSecret)
      → lookup key s.cache ≡ known
      → 1 ≤ s.cache_ttl
      → IsKept env s
      → IsRecent env now key s.cache_ttl (get_looked_up (env now) now key known s)
  unfolding get_looked_up
  get_looked_up-IsRecent now key s none e some_time kept =
      get_uncached-IsRecent now key (str_eq s.vault_addr "") s some_time kept
  get_looked_up-IsRecent now key s (some c) e some_time kept =
      elim (Bool-cases (ltb now c.expires_at)) [
        | inl fresh ↦
            let (t, set, expiry) = kept key c e in
            rw fresh ((t, set, omega (ltb→lt now c.expires_at fresh, expiry, arith)), kept, refl)
        | inr stale ↦ rw stale (
            get_uncached-IsRecent now key (str_eq s.vault_addr "")
              (record s { cache = delete key s.cache }) some_time (deleted-IsKept key s kept))
      ]

  -- Questions at their times.
  abbrev pub ask_all : List (ℕ × String) → SecretsManager → SecretsManager
  ask_all [] s = s
  ask_all ((now, key) ∷ questions) s = ask_all questions (get_secret (env now) now key s).1

  after-IsKept :
      (now ttl : ℕ) (key : String) (r : Option String × SecretsManager)
      → IsRecent env now key ttl r
      → IsKept env r.1 × (r.1.cache_ttl ≡ ttl)
  after-IsKept now ttl key (none, s) h = h
  after-IsKept now ttl key (some v, s) (_, kept, same) = (kept, same)

  ask_all-IsKept :
      (questions : List (ℕ × String)) (s : SecretsManager)
      → 1 ≤ s.cache_ttl
      → IsKept env s
      → IsKept env (ask_all questions s) × ((ask_all questions s).cache_ttl ≡ s.cache_ttl)
  unfolding get_secret
  ask_all-IsKept [] s some_time kept = (kept, refl)
  ask_all-IsKept ((now, key) ∷ questions) s some_time kept =
      let (kept', same) =
        after-IsKept now s.cache_ttl key (get_secret (env now) now key s)
          (get_looked_up-IsRecent now key s (lookup key s.cache) refl some_time kept) in
      let (kept'', same') =
        ask_all-IsKept questions (get_secret (env now) now key s).1 (omega (arith, same, some_time))
          kept' in
      (kept'', same' ∙ same)

  -- Whatever was asked before, at whatever times, a secret that a new manager answers was the value
  -- of its environment variable, not empty, at some time whose five minutes are not over, and its cache
  -- holds only such values.
  pub get_secret-IsRecent :
      (vault_addr vault_token vault_path : String) (questions : List (ℕ × String)) (now : ℕ)
      (key : String)
      → IsRecent env now key 300_000_000_000 (
          get_secret
            (env now)
            now
            key
            (ask_all questions (new_secrets_manager vault_addr vault_token vault_path)))
  unfolding get_secret new_secrets_manager lookup
  get_secret-IsRecent vault_addr vault_token vault_path questions now key =
      let (kept, ttl) =
        ask_all-IsKept questions (new_secrets_manager vault_addr vault_token vault_path)
          (omega arith) (λ k c e. ground (e, arith)) in
      let s = ask_all questions (new_secrets_manager vault_addr vault_token vault_path) in
      subst (λ n. IsRecent env now key n (get_secret (env now) now key s)) ttl
        (get_looked_up-IsRecent now key s (lookup key s.cache) refl (omega (arith, ttl)) kept)
