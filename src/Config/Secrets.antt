-- ===== src/Config/Secrets.antt =====
-- config/secrets.go: secrets from the environment behind a cache, and their encryption.
--
-- The type of bytes, the cryptography, base64 and the random source of Go's libraries are the
-- parameters in `Crypto` and `Random`; the environment and the loader are parameters as well.
pub mod RoundTrip
pub mod Recent
mod Tests
use argis_extensions.Prelude.{
  ℕ, ◌+◌, ◌≡◌, ◌⊎◌, inl, inr, String, Bool, true, false, Option, none, some, List, [], ◌∷◌, ◌++◌,
  ◌<>◌, length, take, drop, ltb, str_eq, if◌then◌else◌, not,
}
use argis_extensions.Prelude.Assoc.{Dict, lookup, insert, delete}
use argis_extensions.Config.{OauthProvider}

pub record Crypto (E : Type 0) : Type 1 where
  pub Byte : Type 0
  pub Block : Type 0
  pub Gcm : Type 0
  pub to_bytes : String → List Byte
  pub of_bytes : List Byte → String
  pub encode : List Byte → String
  pub decode : String → E ⊎ List Byte
  pub derive : List Byte → List Byte → List Byte
  pub new_cipher : List Byte → E ⊎ Block
  pub new_gcm : Block → E ⊎ Gcm
  pub nonce_size : Gcm → ℕ
  pub seal_data : Gcm → List Byte → List Byte → List Byte
  pub open_data : Gcm → List Byte → List Byte → E ⊎ List Byte

-- What reading so many random bytes yields, the first and the second time.
pub record Random (E Byte : Type 0) : Type 0 where
  pub salt : ℕ → E ⊎ List Byte
  pub nonce : ℕ → E ⊎ List Byte

pub data SecretError (E : Type 0) : Type 0 where
  failed_to_decode : E → SecretError E
  data_too_short : SecretError E
  failed_to_create_cipher : E → SecretError E
  failed_to_create_gcm : E → SecretError E
  ciphertext_too_short : SecretError E
  failed_to_decrypt : E → SecretError E
  failed_to_generate_salt : E → SecretError E
  failed_to_generate_nonce : E → SecretError E

-- The `do` blocks of a result with an error, and `fmt.Errorf` around the error.
infixl 5 ◌>>=◌
abbrev pub ◌>>=◌ : {X A B : Type 0} → X ⊎ A → (A → X ⊎ B) → X ⊎ B
inl e >>= next = inl e
inr a >>= next = next a

abbrev pub wrap_error : {X Y A : Type 0} → (X → Y) → X ⊎ A → Y ⊎ A
wrap_error wrap (inl e) = inl (wrap e)
wrap_error wrap (inr a) = inr a

module _ {E : Type 0} (C : Crypto E) where
  -- The cipher from the password and the salt, which both directions build.
  unfoldable pub new_aead : List C.Byte → List C.Byte → SecretError E ⊎ C.Gcm
  new_aead password salt = do
    block ← wrap_error failed_to_create_cipher (C.new_cipher (C.derive password salt))
    wrap_error failed_to_create_gcm (C.new_gcm block)

  unfoldable pub open_sealed : List C.Byte → C.Gcm → SecretError E ⊎ String
  open_sealed ciphertext gcm =
      if ltb (length ciphertext) (C.nonce_size gcm) then inl ciphertext_too_short else do
        plaintext ← wrap_error failed_to_decrypt (
            C.open_data gcm (take (C.nonce_size gcm) ciphertext)
              (drop (C.nonce_size gcm) ciphertext))
        inr (C.of_bytes plaintext)

  unfoldable pub decrypt_data : String → List C.Byte → SecretError E ⊎ String
  decrypt_data password bytes =
      if ltb (length bytes) 32
      then inl data_too_short
      else do gcm ← new_aead (C.to_bytes password) (take 16 bytes); open_sealed (drop 16 bytes) gcm

  unfoldable pub decrypt_secret : String → String → SecretError E ⊎ String
  decrypt_secret encrypted_value password = do
    bytes ← wrap_error failed_to_decode (C.decode encrypted_value)
    decrypt_data password bytes

  unfoldable pub encrypt_secret : Random E C.Byte → String → String → SecretError E ⊎ String
  encrypt_secret random plaintext password = do
    salt ← wrap_error failed_to_generate_salt (random.salt 16)
    gcm ← new_aead (C.to_bytes password) salt
    nonce ← wrap_error failed_to_generate_nonce (random.nonce (C.nonce_size gcm))
    inr (C.encode (salt ++ (nonce ++ C.seal_data gcm nonce (C.to_bytes plaintext))))

pub record CachedSecret : Type 0 where
  pub value : String
  pub expires_at : ℕ

pub record SecretsManager : Type 0 where
  pub vault_addr : String
  pub vault_token : String
  pub vault_path : String
  pub env_fallback : Bool
  pub cache : Dict CachedSecret
  pub cache_ttl : ℕ

unfoldable pub new_secrets_manager : String → String → String → SecretsManager
new_secrets_manager vault_addr vault_token vault_path = record {
  vault_addr = vault_addr;
  vault_token = vault_token;
  vault_path = vault_path;
  env_fallback = true;
  cache = [];
  cache_ttl = 300_000_000_000;
}

-- `getFromVault`, which fails in the source.
unfoldable pub get_from_vault : String → Option String
get_from_vault key = none

unfoldable pub cache_secret : ℕ → String → String → SecretsManager → SecretsManager
cache_secret now key secret s = record s {
  cache = insert key (record { value = secret; expires_at = now + s.cache_ttl }) s.cache;
}

-- `os.Getenv` of the key under the prefix, when there is no answer from the vault. `none` is "secret
-- not found".
unfoldable pub get_from_env :
    (String → String) → ℕ → String → SecretsManager → Option String × SecretsManager
get_from_env getenv now key s =
    let secret = getenv ("BIFROST_" <> key) in
    if not s.env_fallback
    then (none, s)
    else if not (str_eq secret "")
    then (some secret, cache_secret now key secret s)
    else (none, s)

unfoldable pub get_uncached :
    (String → String) → ℕ → String → Option String → SecretsManager → Option String × SecretsManager
get_uncached getenv now key none s = get_from_env getenv now key s
get_uncached getenv now key (some secret) s = (some secret, cache_secret now key secret s)

-- The answer from the cache, or the rest.
unfoldable pub get_looked_up :
    (String → String)
    → ℕ
    → String
    → Option CachedSecret
    → SecretsManager
    → Option String × SecretsManager
get_looked_up getenv now key (some cached) s =
    let fresh = record s { cache = delete key s.cache } in
    if ltb now cached.expires_at
    then (some cached.value, s)
    else get_uncached getenv now key
        (if str_eq fresh.vault_addr "" then none else get_from_vault key) fresh
get_looked_up getenv now key none s =
    get_uncached getenv now key (if str_eq s.vault_addr "" then none else get_from_vault key) s

unfoldable pub get_secret :
    (String → String) → ℕ → String → SecretsManager → Option String × SecretsManager
get_secret getenv now key s = get_looked_up getenv now key (lookup key s.cache) s

unfoldable pub refresh_secrets : SecretsManager → SecretsManager
refresh_secrets s = record s { cache = [] }

unfoldable pub set_when :
    Option String → (String → OauthProvider → OauthProvider) → OauthProvider → OauthProvider
set_when none set provider = provider
set_when (some secret) set provider = set secret provider

-- A turn of the loop over the providers. `clock key` is the time at which a secret is asked for.
unfoldable pub load_provider :
    (String → String)
    → (String → ℕ)
    → String
    → OauthProvider
    → SecretsManager
    → OauthProvider × SecretsManager
load_provider getenv clock name provider s =
    let id_key = "oauth." <> (name <> ".client_id") in
    let access_key = "oauth." <> (name <> ".access_token") in
    let refresh_key = "oauth." <> (name <> ".refresh_token") in
    let (client_id, s) = get_secret getenv (clock id_key) id_key s in
    let (access, s) = get_secret getenv (clock access_key) access_key s in
    let (refresh, s) = get_secret getenv (clock refresh_key) refresh_key s in
    (
      set_when refresh (λ secret p. record p { refresh_token = secret })
          (set_when access (λ secret p. record p { access_token = secret })
            (set_when client_id (λ secret p. record p { client_id = secret }) provider)),
      s,
    )

unfoldable pub load_providers :
    (String → String)
    → (String → ℕ)
    → Dict OauthProvider
    → SecretsManager
    → Dict OauthProvider × SecretsManager
load_providers getenv clock [] s = ([], s)
load_providers getenv clock ((name, provider) ∷ providers) s =
    let (loaded, s) = load_provider getenv clock name provider s in
    let (others, s) = load_providers getenv clock providers s in ((name, loaded) ∷ others, s)
