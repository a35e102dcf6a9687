-- ===== src/Security.antt =====
-- backend/src/security.rs, and the settings of backend/src/state.rs that are stored encrypted. Argon2,
-- the JWT codec, SHA-256, hex, base64 and AES-256-GCM are other crates, and parameters; random values
-- are arguments. So is the standard library's table of the alphanumeric characters.
pub mod Secrets
use unver.Prelude.{
  ℕ, ◌+◌, Bool, true, false, not, ◌&&◌, ◌||◌, ◌==◌, Option, none, some, List, [], ◌∷◌, ◌++◌, Text,
  codes, text_eq, is_empty, all, length, take, drop, leb, ltb, strip_prefix, if◌then◌else◌,
}
use unver.Prelude.Utf8.{from_utf8}
use unver.Errors.{AppResult, ok, err, bad_request, internal, unauthorized}
use unver.State.{Db, AppState, get_setting, set_setting}
use unver.Action.{Action, lift, gets, modify, ◌>>=◌}

pub record Claims : Type 0 where
  pub sub : Text
  pub exp : ℕ
  pub iat : ℕ

-- The other crates, `none` where they return an error.
pub record Crypto : Type 0 where
  pub argon2_hash : Text → Option Text
  pub argon2_verify : Text → Text → Option Bool
  pub jwt_encode : Claims → Text → Option Text
  pub jwt_decode : Text → Text → Option Claims
  pub sha256 : Text → List ℕ
  pub to_hex : List ℕ → Text
  pub from_hex : Text → Option (List ℕ)
  pub to_base64 : List ℕ → Text
  pub from_base64 : Text → Option (List ℕ)
  -- key, nonce and data
  pub seal : List ℕ → List ℕ → Text → Option (List ℕ)
  pub unseal : List ℕ → List ℕ → List ℕ → Option (List ℕ)
  -- `char::is_alphanumeric`, of a character in UTF-8
  pub is_alphanumeric : Text → Bool

abbrev pub or_internal : {A : Type 0} → Option A → AppResult A
or_internal none = err internal
or_internal (some a) = ok a

unfoldable pub validate_password : Text → AppResult (Unit {0})
validate_password password =
    if ltb (length password) 8
    then err (bad_request (codes "Password must be at least 8 characters"))
    else ok tt

abbrev before_rest : ℕ → List Text → List Text
before_rest x ((y ∷ c) ∷ cs) =
    if leb 0x80 y && ltb y 0xc0 then (x ∷ y ∷ c) ∷ cs else (x ∷ []) ∷ (y ∷ c) ∷ cs
before_rest x ([] ∷ cs) = (x ∷ []) ∷ cs
before_rest x [] = (x ∷ []) ∷ []

-- `str::chars`: each continuation byte belongs to the character before it.
abbrev chars : Text → List Text
chars [] = []
chars (x ∷ s) = before_rest x (chars s)

unfoldable pub validate_username : (Text → Bool) → Text → AppResult (Unit {0})
validate_username is_alphanumeric username =
    if ltb (length username) 3 || ltb 32 (length username)
    then err (bad_request (codes "Username must be 3-32 characters"))
    else if not (all (λ c. is_alphanumeric c || text_eq c (codes "_")) (chars username))
    then err (bad_request (codes "Username may only contain letters, digits, and underscores"))
    else ok tt

module _ (crypto : Crypto) where
  open crypto use {
    argon2_hash, argon2_verify, jwt_encode, jwt_decode, sha256, to_hex, from_hex, to_base64,
    from_base64, seal, unseal,
  }

  abbrev pub hash_password : Text → AppResult Text
  hash_password password = or_internal (argon2_hash password)

  abbrev pub verify_password : Text → Text → AppResult Bool
  verify_password password hash = or_internal (argon2_verify password hash)

  -- `now` is the Unix time.
  abbrev pub issue_access_token : ℕ → Text → Text → AppResult Text
  issue_access_token now user_id secret =
      or_internal (jwt_encode (record { sub = user_id; exp = now + 3600; iat = now }) secret)

  abbrev pub validate_access_token : Text → Text → AppResult Text
  validate_access_token token secret = elim (jwt_decode token secret) [
    | none ↦ err unauthorized
    | some claims ↦ ok claims.sub
  ]

  abbrev pub hash_token : Text → Text
  hash_token token = to_hex (sha256 token)

  unfoldable pub verify_token_hash : Text → Text → Bool
  verify_token_hash token hash = elim (from_hex hash) [
    | none ↦ false
    | some v ↦ length v == 32 && text_eq (sha256 token) v
  ]

  abbrev pub derive_key : Text → List ℕ
  derive_key secret = sha256 secret

  abbrev framed : List ℕ → Option (List ℕ) → AppResult Text
  framed nonce none = err internal
  framed nonce (some ciphertext) = ok (to_base64 (nonce ++ ciphertext))

  unfoldable pub encrypt_data : List ℕ → Text → Text → AppResult Text
  encrypt_data nonce plain master_secret =
      framed nonce (seal (derive_key master_secret) nonce plain)

  abbrev as_text : Option (List ℕ) → AppResult Text
  as_text none = err internal
  as_text (some plaintext) = or_internal (from_utf8 plaintext)

  unfoldable pub decrypt_data : Text → Text → AppResult Text
  decrypt_data encrypted_b64 master_secret = elim (from_base64 encrypted_b64) [
    | none ↦ err (bad_request (codes "Invalid base64 in encrypted data"))
    | some combined ↦
        if ltb (length combined) 12
        then err (bad_request (codes "Invalid encrypted data format"))
        else as_text (unseal (derive_key master_secret) (take 12 combined) (drop 12 combined))
  ]

  abbrev decrypt_setting : Text → Text → AppResult Text
  decrypt_setting value secret = elim (strip_prefix value (codes "enc:")) [
    | none ↦ ok value
    | some encrypted ↦ decrypt_data encrypted secret
  ]

  unfoldable pub get_secret_setting : Db → Text → AppResult Text
  get_secret_setting db key =
      decrypt_setting (get_setting db key) (get_setting db (codes "jwt_secret"))

  unfoldable pub set_secret_setting : List ℕ → Text → Text → Action Db (Unit {0})
  set_secret_setting nonce key value = do
    jwt_secret ← gets (λ db. get_setting db (codes "jwt_secret"))
    encrypted ← lift (encrypt_data nonce value jwt_secret)
    modify (set_setting key (codes "enc:" ++ encrypted))

-- `ensure_jwt_secret`, with the random secret.
unfoldable pub ensure_jwt_secret : Text → Db → Db
ensure_jwt_secret secret db =
    if is_empty (get_setting db (codes "jwt_secret"))
    then set_setting (codes "jwt_secret") secret db
    else db
