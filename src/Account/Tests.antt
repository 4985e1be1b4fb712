-- ===== src/Account/Tests.antt =====
-- account/account.go: a chain of two accounts, with numbers for configurations and keys.
use argis_extensions.Prelude.{ℕ, ◌≡◌, [], ◌∷◌}
use argis_extensions.Account.{
  EnhancedAccount, account, get_config_for_provider, get_keys_for_provider, set_config,
}
use argis_extensions.Account.Chain.{set_config_hides}

abbrev team : EnhancedAccount ℕ ℕ
team = account (("openai", 1) ∷ []) (("openai", 7 ∷ []) ∷ [])

set_config_hides_example :
    (get_config_for_provider ℕ ℕ 0 "openai" (set_config ℕ ℕ "openai" 5 team) ≡ 5)
    × (get_keys_for_provider ℕ ℕ "openai" (set_config ℕ ℕ "openai" 5 team)
        ≡ get_keys_for_provider ℕ ℕ "openai" team)
set_config_hides_example = set_config_hides ℕ ℕ 0 5 "openai" "openai" team
