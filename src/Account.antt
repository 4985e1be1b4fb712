-- ===== src/Account.antt =====
-- account/account.go: provider configurations and keys, with a chain of fallback accounts. The
-- SDK's configuration and key types are parameters; a provider is a string, as in the SDK. The maps
-- of one account are locked for each call.
pub mod Chain
mod Tests
use argis_extensions.Prelude.{String, Option, none, some, List, [], ◌∷◌, ◌++◌, map, get_or}
use argis_extensions.Prelude.Assoc.{Dict, lookup, insert}

module _ (ProviderConfig Key : Type 0) where
  -- `account` has no fallback; `account_over` has one.
  pub data EnhancedAccount : Type 0 where
    account : Dict ProviderConfig → Dict (List Key) → EnhancedAccount
    account_over : Dict ProviderConfig → Dict (List Key) → EnhancedAccount → EnhancedAccount

  unfoldable pub new_enhanced_account : Option EnhancedAccount → EnhancedAccount
  new_enhanced_account none = account [] []
  new_enhanced_account (some fallback) = account_over [] [] fallback

  -- The order of a `range` over a map is not fixed; here it is that of the assignments.
  unfoldable pub get_configured_providers : EnhancedAccount → List String
  get_configured_providers (account configs keys) = map (λ entry. entry.0) configs
  get_configured_providers (account_over configs keys fallback) =
      map (λ entry. entry.0) configs ++ get_configured_providers fallback

  -- `default_config` is the value of `defaultProviderConfig`.
  unfoldable pub get_config_for_provider :
      ProviderConfig → String → EnhancedAccount → ProviderConfig
  get_config_for_provider default_config provider (account configs keys) =
      get_or default_config (lookup provider configs)
  get_config_for_provider default_config provider (account_over configs keys fallback) =
      let later = get_config_for_provider default_config provider fallback in
      get_or later (lookup provider configs)

  unfoldable pub get_keys_for_provider : String → EnhancedAccount → List Key
  get_keys_for_provider provider (account configs keys) = elim (lookup provider keys) [
    | some ks ↦ ks
    | none ↦ []
  ]
  get_keys_for_provider provider (account_over configs keys fallback) =
      let later = get_keys_for_provider provider fallback in get_or later (lookup provider keys)

  unfoldable pub set_config : String → ProviderConfig → EnhancedAccount → EnhancedAccount
  set_config provider config (account configs keys) = account (insert provider config configs) keys
  set_config provider config (account_over configs keys fallback) =
      account_over (insert provider config configs) keys fallback

  unfoldable pub set_keys : String → List Key → EnhancedAccount → EnhancedAccount
  set_keys provider ks (account configs keys) = account configs (insert provider ks keys)
  set_keys provider ks (account_over configs keys fallback) =
      account_over configs (insert provider ks keys) fallback
