-- ===== src/Auth.antt =====
-- Accounts and sessions: backend/src/api/auth.rs. Random values and the times are arguments; the refresh cookie is the value
-- that the browser stores and sends. Logging is left out.
pub mod Sessions
use unver.Prelude.{
  ℕ, Bool, true, false, not, ◌&&◌, ◌||◌, ◌==◌, Option, none, some, List, [], ◌∷◌, ◌++◌, Text, codes,
  text_eq, text_lt, is_some, is_empty, is_alnum, retain, all, length, ltb, find_first,
  if◌then◌else◌,
}
use unver.Security.{
  Crypto, validate_password, validate_username, hash_password, verify_password, issue_access_token,
  hash_token,
}
use unver.Models.{User, RefreshToken, LoginRequest, SetupRequest, ChangePasswordRequest}
use unver.Errors.{
  AppError, AppResult, ok, err, not_found, bad_request, database, unauthorized, forbidden,
  setup_required, rate_limited,
}
use unver.State.{Db, AppState, get_setting, set_setting}
use unver.Action.{Action, pure, lift, ok_or, gets, guarded, modify, reject_if, ◌>>=◌, ◌>>◌}

-- What a request brings from outside: a UUID, a fresh token, the time of SQLite and of Unix, and the
-- time in seven days in RFC 3339.
pub record Fresh : Type 0 where
  pub id : Text
  pub refresh_token : Text
  pub now : Text
  pub unix_now : ℕ
  pub in_seven_days : Text

-- `AuthResponse` with the cookie `unver_refresh`.
pub record Session : Type 0 where
  pub access_token : Text
  pub expires_in : ℕ
  pub cookie : Text

abbrev pub is_set_up : AppState → Bool
is_set_up s = text_eq (get_setting s.db (codes "setup_complete")) (codes "true")

abbrev pub on_db : (Db → Db) → AppState → AppState
on_db f s = record s { db = f s.db }

abbrev pub set : Text → Text → Action AppState (Unit {0})
set key value = modify (on_db (set_setting key value))

unfoldable pub setup_status : Action AppState Bool
setup_status = gets is_set_up

-- The username is unique in the schema, and the id is the primary key.
abbrev pub insert_user : User → Action AppState (Unit {0})
insert_user u s =
    if is_some (find_first (λ v. text_eq v.id u.id || text_eq v.username u.username) s.db.users)
    then (err database, s)
    else (ok tt, on_db (λ db. record db { users = db.users ++ u ∷ [] }) s)

abbrev pub insert_token : RefreshToken → Action AppState (Unit {0})
insert_token t s =
    if is_some (find_first (λ v. text_eq v.id t.id) s.db.refresh_tokens)
    then (err database, s)
    else (ok tt, on_db (λ db. record db { refresh_tokens = db.refresh_tokens ++ t ∷ [] }) s)

abbrev pub delete_tokens : (RefreshToken → Bool) → AppState → AppState
delete_tokens test =
    on_db (λ db. record db { refresh_tokens = retain (λ t. not (test t)) db.refresh_tokens })

abbrev pub dummy_hash : Text
dummy_hash =
    codes
      "$argon2id$v=19$m=19456,t=2,p=1$AAAAAAAAAAAAAAAAAAAAAA$AAAAAAAAAAAAAAAAAAAAAAAAAAAAAAAAAAAAAAAAAAA"

-- The id and the hash that a login is checked against.
abbrev pub credentials : Option User → Text × Text
credentials (some u) = (u.id, u.password_hash)
credentials none = ([], dummy_hash)

abbrev pub set_password : Text → Text → Text → List User → List User
set_password id hash now [] = []
set_password id hash now (u ∷ us) =
    (if text_eq u.id id then record u { password_hash = hash; updated_at = now } else u)
    ∷ set_password id hash now us

abbrev pub session_of : Fresh → Text → Session
session_of fresh access_token = record {
  access_token = access_token;
  expires_in = 3600;
  cookie = fresh.refresh_token;
}

module _ (crypto : Crypto) where
  unfoldable pub do_setup : Fresh → SetupRequest → Action AppState (Unit {0})
  do_setup fresh body = do
    guarded (λ s. if is_set_up s then err forbidden else ok tt)
    lift (validate_username crypto.is_alphanumeric body.username)
    lift (validate_password body.password)
    password_hash ← lift (hash_password crypto body.password)
    insert_user (record {
      id = fresh.id;
      username = body.username;
      password_hash = password_hash;
      created_at = fresh.now;
      updated_at = fresh.now;
    })
    set (codes "setup_complete") (codes "true")
    set (codes "username") body.username

  abbrev pub stored_token : Fresh → Text → RefreshToken
  stored_token fresh user_id = record {
    id = fresh.id;
    user_id = user_id;
    token_hash = hash_token crypto fresh.refresh_token;
    expires_at = fresh.in_seven_days;
  }

  -- The tokens of a user: the access token is signed, the refresh token is stored by its hash.
  abbrev pub open_session : Fresh → Text → Action AppState Session
  open_session fresh user_id = do
    secret ← gets (λ s. get_setting s.db (codes "jwt_secret"))
    access_token ← lift (issue_access_token crypto fresh.unix_now user_id secret)
    insert_token (stored_token fresh user_id)
    pure (session_of fresh access_token)

  -- `allowed` is the answer of the rate limiter.
  unfoldable pub login : Fresh → Bool → LoginRequest → Action AppState Session
  login fresh allowed body = do
    reject_if (not allowed) rate_limited
    guarded (λ s. if is_set_up s then ok tt else err setup_required)
    found ← gets (λ s. credentials (find_first (λ u. text_eq u.username body.username) s.db.users))
    valid ← lift (verify_password crypto body.password found.1)
    reject_if (not valid || is_empty found.0) unauthorized
    open_session fresh found.0

  -- `WHERE token_hash = ? AND expires_at > datetime('now')`
  abbrev pub usable_token : Text → Text → RefreshToken → Bool
  usable_token now token t =
      text_eq t.token_hash (hash_token crypto token) && text_lt now t.expires_at

  unfoldable pub refresh : Fresh → Option Text → Action AppState Session
  refresh fresh cookie = do
    token ← ok_or cookie unauthorized
    found ← gets (λ s. find_first (usable_token fresh.now token) s.db.refresh_tokens)
    row ← ok_or found unauthorized
    modify (delete_tokens (λ t. text_eq t.id row.id))
    open_session fresh row.user_id

  unfoldable pub logout : Option Text → Action AppState (Unit {0})
  logout none s = (ok tt, s)
  logout (some token) s =
      (ok tt, delete_tokens (λ t. text_eq t.token_hash (hash_token crypto token)) s)

  unfoldable pub change_password : Fresh → Text → ChangePasswordRequest → Action AppState (Unit {0})
  change_password fresh user_id body = do
    lift (validate_password body.new_password)
    found ← gets (λ s. find_first (λ u. text_eq u.id user_id) s.db.users)
    row ← ok_or found not_found
    valid ← lift (verify_password crypto body.current_password row.password_hash)
    reject_if (not valid) unauthorized
    hash ← lift (hash_password crypto body.new_password)
    modify (on_db (λ db. record db { users = set_password user_id hash fresh.now db.users }))
    modify (delete_tokens (λ t. text_eq t.user_id user_id))
