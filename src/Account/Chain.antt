-- ===== src/Account/Chain.antt =====
-- account/account.go: how the accounts of a chain hide one another.
use argis_extensions.Prelude.{
  ◌≡◌, refl, String, none, [], ◌∷◌, map, count, count-append, arith, str_eq, if◌then◌else◌, get_or,
  Bool-cases, inl, inr,
}
use argis_extensions.Prelude.Assoc.{Dict, lookup, insert, lookup-insert}
use argis_extensions.Account.{
  EnhancedAccount, account, account_over, get_configured_providers, get_config_for_provider,
  get_keys_for_provider, set_config,
}

module _ (ProviderConfig Key : Type 0) where
  inserted :
      (provider asked : String) (config later : ProviderConfig) (configs : Dict ProviderConfig)
      → get_or later (lookup asked (insert provider config configs))
        ≡ (if str_eq provider asked then config else get_or later (lookup asked configs))
  inserted provider asked config later configs =
      rw (lookup-insert provider asked config configs) (ground arith)

  -- SetConfig on an account hides what its fallbacks say of that provider, and changes neither the
  -- configuration of any other provider nor any provider's keys.
  pub set_config_hides :
      (default_config config : ProviderConfig) (provider asked : String)
      (a : EnhancedAccount ProviderConfig Key)
      → (get_config_for_provider ProviderConfig Key default_config asked
            (set_config ProviderConfig Key provider config a)
          ≡ (if str_eq provider asked
              then config
              else get_config_for_provider ProviderConfig Key default_config asked a))
        × (get_keys_for_provider ProviderConfig Key asked
              (set_config ProviderConfig Key provider config a)
            ≡ get_keys_for_provider ProviderConfig Key asked a)
  unfolding get_config_for_provider get_keys_for_provider set_config
  set_config_hides d config provider asked (account configs keys) =
      (inserted provider asked config d configs, refl)
  set_config_hides d config provider asked (account_over configs keys fallback) =
      (inserted provider asked config _ configs, refl)

  absent :
      (provider : String) (configs : Dict ProviderConfig)
      → count provider (map (λ entry. entry.0) configs) ≡ 0
      → lookup provider configs ≡ none
  unfolding lookup
  absent provider [] h = refl
  absent provider (entry ∷ configs) h = elim (Bool-cases (str_eq entry.0 provider)) [
    | inl e ↦ ground (h, e, arith)
    | inr e ↦ rw e (absent provider configs (ground (h, e, arith)))
  ]

  -- A provider that GetConfiguredProviders does not list has the default configuration.
  pub unlisted_default :
      (default_config : ProviderConfig) (provider : String) (a : EnhancedAccount ProviderConfig Key)
      → count provider (get_configured_providers ProviderConfig Key a) ≡ 0
      → get_config_for_provider ProviderConfig Key default_config provider a ≡ default_config
  unfolding get_configured_providers get_config_for_provider
  unlisted_default d provider (account configs keys) h =
      rw (get_config_for_provider, absent provider configs h) refl
  unlisted_default d provider (account_over configs keys fallback) h =
      let both =
        count-append provider (map (λ entry. entry.0) configs)
          (get_configured_providers ProviderConfig Key fallback) in
      rw (get_config_for_provider, absent provider configs (omega (arith, h, both)))
        (unlisted_default d provider fallback (omega (arith, h, both)))
