-- ===== src/Config/Secrets/RoundTrip.antt =====
-- config/secrets.go: what is encrypted is decrypted again.
use argis_extensions.Prelude.{
  ◌+◌, ◌≡◌, refl, sym, ap, subst, inr, String, false, List, [], ◌∷◌, ◌++◌, length, length-append,
  take, drop, ltb, arith,
}
use argis_extensions.Config.Secrets.{
  Crypto, Random, new_aead, open_sealed, decrypt_data, decrypt_secret, encrypt_secret,
}

take-append : {A : Type 0} (front back : List A) → take (length front) (front ++ back) ≡ front
take-append [] back = refl
take-append (b ∷ front) back = ap (λ l. b ∷ l) (take-append front back)

drop-append : {A : Type 0} (front back : List A) → drop (length front) (front ++ back) ≡ back
drop-append [] back = refl
drop-append (b ∷ front) back = drop-append front back

-- What the documentation of the libraries says.
pub record IsCrypto {E : Type 0} (C : Crypto E) : Type 0 where
  pub of-to_bytes : (s : String) → C.of_bytes (C.to_bytes s) ≡ s
  pub decode-encode : (b : List C.Byte) → C.decode (C.encode b) ≡ inr b
  pub seal-length :
      (g : C.Gcm) (nonce b : List C.Byte) → length (C.seal_data g nonce b) ≡ length b + 16
  pub open-seal :
      (g : C.Gcm) (nonce b : List C.Byte) → C.open_data g nonce (C.seal_data g nonce b) ≡ inr b

module _ {E : Type 0} (C : Crypto E) where
  opened :
      (law : IsCrypto C) (gcm : C.Gcm) (nonce : List C.Byte) (plaintext : String)
      → length nonce ≡ C.nonce_size gcm
      → open_sealed C (nonce ++ C.seal_data gcm nonce (C.to_bytes plaintext)) gcm ≡ inr plaintext
  unfolding open_sealed
  opened law gcm nonce plaintext h =
      let body = C.seal_data gcm nonce (C.to_bytes plaintext) in
      let long : ltb (length (nonce ++ body)) (length nonce) ≡ false =
        ground (arith, length-append nonce body) in
      rw
        (
          sym h,
          long,
          take-append nonce body,
          drop-append nonce body,
          law.open-seal gcm nonce (C.to_bytes plaintext),
        )
        (ap inr (law.of-to_bytes plaintext))

  decrypted :
      (law : IsCrypto C) (gcm : C.Gcm) (salt nonce : List C.Byte) (plaintext password : String)
      → length salt ≡ 16
      → length nonce ≡ C.nonce_size gcm
      → new_aead C (C.to_bytes password) salt ≡ inr gcm
      → decrypt_data C password (salt ++ (nonce ++ C.seal_data gcm nonce (C.to_bytes plaintext)))
        ≡ inr plaintext
  unfolding decrypt_data
  decrypted law gcm salt nonce plaintext password s n made =
      let body = C.seal_data gcm nonce (C.to_bytes plaintext) in
      let long : ltb (length (salt ++ (nonce ++ body))) 32 ≡ false = ground (
        arith,
        s,
        length-append salt (nonce ++ body),
        length-append nonce body,
        law.seal-length gcm nonce (C.to_bytes plaintext),
      ) in
      let front : take 16 (salt ++ (nonce ++ body)) ≡ salt =
        subst (λ n. take n (salt ++ (nonce ++ body)) ≡ salt) s (take-append salt (nonce ++ body)) in
      let back : drop 16 (salt ++ (nonce ++ body)) ≡ nonce ++ body =
        subst (λ n. drop n (salt ++ (nonce ++ body)) ≡ nonce ++ body) s
          (drop-append salt (nonce ++ body)) in
      rw (long, front, back, made) (opened law gcm nonce plaintext n)

  -- With libraries that keep their documentation, whenever the random source gives as many bytes as
  -- asked for and the key makes a cipher, EncryptSecret answers, and DecryptSecret with the same
  -- password gives the plaintext back.
  pub encrypted_decrypts :
      (random : Random E C.Byte) (gcm : C.Gcm) (salt nonce : List C.Byte)
      (plaintext password : String)
      → IsCrypto C
      → random.salt 16 ≡ inr salt
      → length salt ≡ 16
      → new_aead C (C.to_bytes password) salt ≡ inr gcm
      → random.nonce (C.nonce_size gcm) ≡ inr nonce
      → length nonce ≡ C.nonce_size gcm
      → (encrypted : String) × (encrypt_secret C random plaintext password ≡ inr encrypted)
        × (decrypt_secret C encrypted password ≡ inr plaintext)
  unfolding encrypt_secret decrypt_secret
  encrypted_decrypts random gcm salt nonce plaintext password law read_salt s made read_nonce n =
      let combined = salt ++ (nonce ++ C.seal_data gcm nonce (C.to_bytes plaintext)) in
      (
        C.encode combined,
        rw (read_salt, made, read_nonce) refl,
        rw (law.decode-encode combined) (decrypted law gcm salt nonce plaintext password s n made),
      )
