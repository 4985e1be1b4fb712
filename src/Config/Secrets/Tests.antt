-- ===== src/Config/Secrets/Tests.antt =====
-- config/secrets.go: a cryptography that hides nothing, and two questions for a secret.
use argis_extensions.Prelude.{
  ℕ, ltb, ap, ◌≡◌, refl, inr, String, List, [], ◌∷◌, ◌++◌, replicate, length-append, drop, str_eq,
  if◌then◌else◌, arith,
}
use Prim.Native.Char.{Char}
use text.Mathlib.TextBridge.{to_list, of_list, to_list-of_list, of_list-to_list}
use argis_extensions.Config.Secrets.{
  Crypto, Random, new_aead, decrypt_secret, encrypt_secret, get_secret, new_secrets_manager,
}
use argis_extensions.Config.Secrets.RoundTrip.{IsCrypto, encrypted_decrypts}
use argis_extensions.Config.Secrets.Recent.{IsRecent, ask_all, get_secret-IsRecent}

abbrev sixteen : List Char
sixteen = replicate 16 "x"

abbrev plain : Crypto String
plain = record {
  Byte = Char;
  Block = Unit;
  Gcm = Unit;
  to_bytes = to_list;
  of_bytes = of_list;
  encode = of_list;
  decode = λ s. inr (to_list s);
  derive = λ password salt. salt;
  new_cipher = λ key. inr tt;
  new_gcm = λ b. inr tt;
  nonce_size = λ g. 12;
  seal_data = λ g nonce b. sixteen ++ b;
  open_data = λ g nonce b. inr (drop 16 b);
}

plain-IsCrypto : IsCrypto plain
plain-IsCrypto = record {
  of-to_bytes = of_list-to_list;
  decode-encode = λ b. ap inr (to_list-of_list b);
  seal-length = λ g nonce b. omega (arith, length-append sixteen b);
  open-seal = λ g nonce b. refl;
}

abbrev constant : Random String Char
constant = record { salt = λ n. inr sixteen; nonce = λ n. inr (replicate 12 "n") }

encrypted_decrypts_example :
    (encrypted : String) × (encrypt_secret plain constant "secret" "password" ≡ inr encrypted)
    × (decrypt_secret plain encrypted "password" ≡ inr "secret")
unfolding new_aead
encrypted_decrypts_example =
    encrypted_decrypts plain constant tt sixteen (replicate 12 "n") "secret" "password"
      plain-IsCrypto refl refl refl refl refl

-- The variable is set until the time 100.
abbrev environment : ℕ → String → String
environment now key = if ltb now 100 then (if str_eq key "BIFROST_token" then "abc" else "") else ""

abbrev before : List (ℕ × String)
before = (50, "token") ∷ []

get_secret-IsRecent_example : IsRecent environment 200 "token" 300_000_000_000 (
    get_secret
      (environment 200)
      200
      "token"
      (ask_all environment before (new_secrets_manager "" "" "")))
get_secret-IsRecent_example = get_secret-IsRecent environment "" "" "" before 200 "token"
