-- ===== src/Access.antt =====
-- Who may call the management interface: `require_auth` of backend/src/middleware.rs, and the API keys
-- of backend/src/api/settings.rs. `to_str` is the http crate's; a header value that it accepts is
-- visible ASCII, so that slicing at ten bytes is safe.
pub mod Grants
use unver.Prelude.{
  ℕ, Bool, true, false, not, ◌&&◌, ◌||◌, Option, none, some, List, [], ◌∷◌, ◌++◌, Text, codes,
  text_eq, is_some, is_empty, retain, length, take, ltb, starts_with, strip_prefix, find_first,
  unwrap_or, if◌then◌else◌,
}
use unver.Models.{ApiKey}
use unver.Errors.{AppResult, ok, err, not_found, bad_request, database, unauthorized}
use unver.State.{Db, get_setting}
use unver.Action.{Action, pure, fail, gets, guarded, modify, ok_or, reject_if, ◌>>=◌, ◌>>◌}
use unver.Security.{Crypto, validate_access_token, hash_token, verify_token_hash}
use unver.Proxy.Headers.{HeaderMap, get_header}

-- `key_prefix = ? AND enabled = 1`
abbrev pub has_prefix : Text → ApiKey → Bool
has_prefix prefix k = text_eq k.key_prefix prefix && k.enabled

abbrev touch : Text → Text → List ApiKey → List ApiKey
touch id now [] = []
touch id now (k ∷ ks) =
    (if text_eq k.id id then record k { last_used_at = some now } else k) ∷ touch id now ks

abbrev pub on_keys : (List ApiKey → List ApiKey) → Db → Db
on_keys f db = record db { api_keys = f db.api_keys }

-- `NewApiKey`
pub record NewApiKey : Type 0 where
  pub id : Text
  pub name : Text
  pub key : Text
  pub key_prefix : Text

unfoldable pub list_api_keys : Action Db (List ApiKey)
list_api_keys = gets (λ db. db.api_keys)

unfoldable pub delete_api_key : Text → Action Db (Unit {0})
delete_api_key id = do
  found ← gets (λ db. find_first (λ k. text_eq k.id id) db.api_keys)
  _ ← ok_or found not_found
  modify (on_keys (retain (λ k. not (text_eq k.id id))))

-- The primary key can refuse the row.
abbrev pub insert_key : ApiKey → Action Db (Unit {0})
insert_key k db =
    if is_some (find_first (λ j. text_eq j.id k.id) db.api_keys)
    then (err database, db)
    else (ok tt, on_keys (λ ks. ks ++ k ∷ []) db)

module _ (crypto : Crypto) where
  abbrev pub new_key : Text → Text → Text → ApiKey
  new_key id raw_key name = record {
    id = id;
    name = name;
    key_hash = hash_token crypto raw_key;
    key_prefix = take 10 raw_key;
    enabled = true;
    last_used_at = none;
  }

  -- From a UUID and the random key.
  unfoldable pub create_api_key : Text → Text → Text → Action Db NewApiKey
  create_api_key id raw_key name = do
    reject_if (is_empty name || ltb 64 (length name))
        (bad_request (codes "Key name must be 1-64 characters"))
    insert_key (new_key id raw_key name)
    pure (record { id = id; name = name; key = raw_key; key_prefix = take 10 raw_key })

  -- The row, if the key is that row's.
  unfoldable pub find_api_key : Text → Db → AppResult ApiKey
  find_api_key key db =
      if ltb (length key) 6
      then err unauthorized
      else elim (find_first (has_prefix (take 10 key)) db.api_keys) [
        | none ↦ err unauthorized
        | some row ↦ if verify_token_hash crypto key row.key_hash then ok row else err unauthorized
      ]

  abbrev pub accept_row : Text → AppResult ApiKey → Action Db Text
  accept_row now (err e) db = (err e, db)
  accept_row now (ok row) db = (ok (codes "apikey:" ++ row.id), on_keys (touch row.id now) db)

  unfoldable pub verify_api_key : Text → Text → Action Db Text
  unfolding find_api_key
  verify_api_key now key db = accept_row now (find_api_key key db) db

  module _ (to_str : Text → Option Text) where
    abbrev pub header_str : Option Text → Text
    header_str none = []
    header_str (some value) = unwrap_or (to_str value) []

    abbrev pub api_auth_enabled : Db → Bool
    api_auth_enabled db = text_eq (get_setting db (codes "api_auth_enabled")) (codes "true")

    -- The second way: the header X-API-Key.
    abbrev pub by_header : Text → HeaderMap → Action Db Text
    by_header now headers db =
        if api_auth_enabled db && is_some (get_header (codes "x-api-key") headers)
        then verify_api_key now (header_str (get_header (codes "x-api-key") headers)) db
        else (err unauthorized, db)

    -- The bearer token is a JWT, or else an API key.
    abbrev pub by_token : Text → HeaderMap → Text → AppResult Text → Action Db Text
    by_token now headers token (ok user_id) db = (ok user_id, db)
    by_token now headers token (err e) db =
        if starts_with token (codes "unver_") && api_auth_enabled db
        then verify_api_key now token db
        else by_header now headers db

    abbrev pub bearer : HeaderMap → Option Text
    bearer headers =
        strip_prefix (header_str (get_header (codes "authorization") headers)) (codes "Bearer ")

    abbrev pub by_bearer : Text → HeaderMap → Option Text → Action Db Text
    by_bearer now headers none db = by_header now headers db
    by_bearer now headers (some token) db =
        by_token now headers token
          (validate_access_token crypto token (get_setting db (codes "jwt_secret"))) db

    -- The user that `require_auth` puts into the request.
    unfoldable pub authenticate : Text → HeaderMap → Action Db Text
    authenticate now headers db = by_bearer now headers (bearer headers) db
