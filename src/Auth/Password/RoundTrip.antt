-- ===== src/Auth/Password/RoundTrip.antt =====
-- internal/auth/password.go: the check of a password against its hash.
use anime_companion_ai.Prelude.{
  ℕ, String, ◌≡◌, ◌↔◌, refl, sym, ap, ◌∙◌, true, false, ◌&&◌, Option, none, some, [], ◌∷◌, length,
  ◌==◌, if_cases, arith,
}
use anime_companion_ai.Auth.Password.{
  Bytes, Crypto, argon_time, argon_memory, argon_threads, argon_key_len, validate_password, join,
  matches, printed, same_bytes, hash_password, verify_parts, verify_password,
}
use anime_companion_ai.Auth.Password.Splitting.{has_no_dollar, split-join}

-- What the libraries promise: base64 is read back, and none of its characters is "$"; the parameters
-- are read as they are printed; and a key is as long as it is asked for.
pub record CryptoLaws (crypto : Crypto) : Type 0 where
  pub decode64-encode64 : (b : Bytes) → crypto.decode64 (crypto.encode64 b) ≡ some b
  pub encode64_plain : (b : Bytes) → has_no_dollar (crypto.encode64 b) ≡ true
  pub scan_printed : crypto.scan "m=65536,t=1,p=4" ≡ some (argon_memory, argon_time, argon_threads)
  pub length-id_key :
      (password salt : Bytes) (time memory threads len : ℕ)
      → length (crypto.id_key password salt time memory threads len) ≡ len

same_bytes_iff : (a b : Bytes) → (same_bytes a b ≡ true) ↔ (a ≡ b)
unfolding same_bytes
same_bytes_iff [] [] = ((λ h. refl), (λ h. refl))
same_bytes_iff [] (x ∷ b) = ((λ h. absurd (let no : false ≡ true = h in cc)), (λ h. absurd (cc)))
same_bytes_iff (x ∷ a) [] = ((λ h. absurd (let no : false ≡ true = h in cc)), (λ h. absurd (cc)))
same_bytes_iff (x ∷ a) (y ∷ b) =
    let rest = same_bytes_iff a b in
    (
      (λ h.
          let both : (x == y && same_bytes a b) ≡ true = h in
          let heads : x ≡ y = ground arith in let tails : a ≡ b = rest.0 (ground arith) in cc),
      (λ h.
          let heads : x ≡ y = cc in
          let tails : same_bytes a b ≡ true = rest.1 (cc) in ground arith),
    )

-- The key of a password under a salt.
abbrev pub key : Crypto → Bytes → String → Bytes
key crypto salt password =
    crypto.id_key (crypto.bytes_of password) salt argon_time argon_memory argon_threads
      argon_key_len

module _ (crypto : Crypto) (laws : CryptoLaws crypto) (salt : Bytes) where
  open crypto use {bytes_of, encode64}

  verify_parts-printed :
      (password other : String)
      → verify_parts crypto other (printed (encode64 salt) (encode64 (key crypto salt password)))
        ≡ same_bytes (key crypto salt other) (key crypto salt password)
  unfolding verify_parts matches same_bytes
  verify_parts-printed password other =
      rw
        (
          laws.scan_printed,
          laws.decode64-encode64 salt,
          laws.decode64-encode64 (key crypto salt password),
          laws.length-id_key (bytes_of password) salt argon_time argon_memory argon_threads
              argon_key_len,
        )
        refl

  verify_password-join :
      (password other : String)
      → verify_password crypto
          (join (printed (encode64 salt) (encode64 (key crypto salt password))))
          other
        ≡ same_bytes (key crypto salt other) (key crypto salt password)
  unfolding verify_password has_no_dollar
  verify_password-join password other =
      ap (verify_parts crypto other) (
        split-join ""
          ("argon2id"
            ∷ "v=19"
            ∷ "m=65536,t=1,p=4"
            ∷ encode64 salt
            ∷ encode64 (key crypto salt password)
            ∷ [])
          (
            refl,
            (
              refl,
              (
                refl,
                (
                  refl,
                  (laws.encode64_plain salt, (laws.encode64_plain (key crypto salt password), tt)),
                ),
              ),
            ),
          ))
      ∙ verify_parts-printed password other

  -- The hash of a password is accepted for the passwords with the same key under this salt, for the
  -- password itself above all, and for no other.
  pub verify_password-hash_password :
      (password encoded other : String)
      → hash_password crypto salt password ≡ some encoded
      → (verify_password crypto encoded other ≡ true)
        ↔ (key crypto salt other ≡ key crypto salt password)
  unfolding hash_password
  verify_password-hash_password password encoded other =
      let P : Option String → Type 0 = λ o.
        o ≡ some encoded
        → (verify_password crypto encoded other ≡ true)
          ↔ (key crypto salt other ≡ key crypto salt password) in
      if_cases P (validate_password password)
        (λ _ h.
          let printed_so : join (printed (encode64 salt) (encode64 (key crypto salt password)))
              ≡ encoded =
            cc in
          rw (sym printed_so, verify_password-join password other)
            (same_bytes_iff (key crypto salt other) (key crypto salt password)))
        (λ _ h. absurd (let no : none ≡ some encoded = h in cc))
