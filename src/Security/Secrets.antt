-- ===== src/Security/Secrets.antt =====
-- Round trips of what backend/src/security.rs and backend/src/state.rs encrypt or hash.
use unver.Prelude.{
  take-append_at, drop-append_at, sym, inl, inr, ◌⊎◌, Option-cases, le→ltb-false, ℕ, ◌≡◌, refl,
  true, false, some, List, ◌++◌, Text, codes, text_eq, text_eq_refl, length, length-append, arith,
}
use unver.Prelude.Utf8.{from_utf8}
use unver.Prelude.Assoc.{lookup-insert, lookup-insert_self}
use unver.Errors.{AppError, AppResult, ok, err}
use unver.State.{Db, get_setting, set_setting}
use unver.Security.{
  Crypto, derive_key, hash_token, verify_token_hash, encrypt_data, decrypt_data, get_secret_setting,
  set_secret_setting,
}

-- What the libraries document: decoding inverts encoding, a SHA-256 digest has 32 bytes, and unsealing
-- with the key and the nonce inverts sealing.
pub record IsCorrect (crypto : Crypto) : Type 0 where
  pub hex_inverse : (v : List ℕ) → crypto.from_hex (crypto.to_hex v) ≡ some v
  pub digest_length : (t : Text) → length (crypto.sha256 t) ≡ 32
  pub base64_inverse : (v : List ℕ) → crypto.from_base64 (crypto.to_base64 v) ≡ some v
  pub unseal_inverse :
      (k n c : List ℕ) (t : Text) → crypto.seal k n t ≡ some c → crypto.unseal k n c ≡ some t

pub Result-cases :
    {A : Type 0} (r : AppResult A) → ((e : AppError) × (r ≡ err e)) ⊎ ((a : A) × (r ≡ ok a))
Result-cases (ok a) = inr (a, refl)
Result-cases (err e) = inl (e, refl)

module _ (crypto : Crypto) (correct : IsCorrect crypto) where
  -- A token verifies against its own hash.
  pub verify_token_hash-hash_token :
      (token : Text) → verify_token_hash crypto token (hash_token crypto token) ≡ true
  unfolding verify_token_hash
  verify_token_hash-hash_token token =
      rw
        (
          verify_token_hash,
          correct.hex_inverse (crypto.sha256 token),
          correct.digest_length token,
          text_eq_refl (crypto.sha256 token),
        )
        refl

  decrypt_data-framed :
      (nonce c : List ℕ) (plain secret : Text)
      → length nonce ≡ 12
      → from_utf8 plain ≡ some plain
      → crypto.unseal (derive_key crypto secret) nonce c ≡ some plain
      → decrypt_data crypto (crypto.to_base64 (nonce ++ c)) secret ≡ ok plain
  unfolding decrypt_data
  decrypt_data-framed nonce c plain secret l t u =
      rw
        (
          decrypt_data,
          correct.base64_inverse (nonce ++ c),
          le→ltb-false (length (nonce ++ c)) 12 (omega (arith, l, length-append nonce c)),
          take-append_at 12 nonce c l,
          drop-append_at 12 nonce c l,
          u,
          t,
        )
        refl

  -- What `encrypt_data` returns for a text under a 12-byte nonce, `decrypt_data` turns back into that
  -- text under the same secret.
  pub decrypt_data-encrypt_data :
      (nonce : List ℕ) (plain secret encrypted : Text)
      → length nonce ≡ 12
      → from_utf8 plain ≡ some plain
      → encrypt_data crypto nonce plain secret ≡ ok encrypted
      → decrypt_data crypto encrypted secret ≡ ok plain
  unfolding encrypt_data decrypt_data
  decrypt_data-encrypt_data nonce plain secret encrypted l t h =
      elim (Option-cases (crypto.seal (derive_key crypto secret) nonce plain)) [
        | inl e ↦ absurd (ground arith)
        | inr (c, e) ↦
            let same : crypto.to_base64 (nonce ++ c) ≡ encrypted = ground arith in
            rw (sym same) (
              decrypt_data-framed nonce c plain secret l t
                (correct.unseal_inverse (derive_key crypto secret) nonce c plain e))
      ]

  -- A secret setting reads back as it was stored, under any key but that of the secret itself.
  pub get_secret_setting-set_secret_setting :
      (nonce : List ℕ) (key value : Text) (db : Db)
      → length nonce ≡ 12
      → from_utf8 value ≡ some value
      → text_eq key (codes "jwt_secret") ≡ false
      → (set_secret_setting crypto nonce key value db).0 ≡ ok tt
      → get_secret_setting crypto (set_secret_setting crypto nonce key value db).1 key ≡ ok value
  unfolding get_secret_setting set_secret_setting get_setting set_setting
  get_secret_setting-set_secret_setting nonce key value db l t k h =
      elim (Result-cases (encrypt_data crypto nonce value (get_setting db (codes "jwt_secret")))) [
        | inl (x, e) ↦ absurd (ground arith)
        | inr (encrypted, e) ↦
            rw
              (
                e,
                get_secret_setting,
                lookup-insert_self key (codes "enc:" ++ encrypted) db.settings,
                lookup-insert key (codes "jwt_secret") (codes "enc:" ++ encrypted) db.settings,
                k,
              )
              (decrypt_data-encrypt_data nonce value (get_setting db (codes "jwt_secret")) encrypted
                l t e)
      ]
