-- ===== src/Tests/Crypto.antt =====
-- Stand-ins for the cryptographic libraries, and runs of what uses them.
use unver.Prelude.{
  all, is_alnum, ◌≡◌, refl, sym, ℕ, true, none, some, List, [], ◌∷◌, ◌++◌, Text, codes, text_eq,
  length, starts_with, replicate, Any, if◌then◌else◌,
}
use unver.Prelude.Utf8.{from_utf8}
use unver.Prelude.Assoc.{lookup, insert}
use unver.Models.{SetupRequest, LoginRequest, ChangePasswordRequest}
use unver.Errors.{ok, err, forbidden, is_ok}
use unver.State.{Db, AppState, get_setting, set_setting}
use unver.Security.{
  Crypto, validate_username, validate_password, verify_token_hash, encrypt_data, decrypt_data,
  get_secret_setting, set_secret_setting,
}
use unver.Security.Secrets.{IsCorrect}
use unver.Auth.{Fresh, Session, is_set_up, do_setup, login, refresh, logout, change_password}
use unver.Auth.Sessions.{Admits, do_setup-once, login-Admits}
use unver.Proxy.Headers.{HeaderMap, get_header}
use unver.Access.{create_api_key, verify_api_key, find_api_key, authenticate}
use unver.Access.Grants.{Grants, authenticate-Presents}
use unver.Tests.Data.{app, db}

abbrev pub crypto : Crypto
crypto = record {
  argon2_hash = λ p. some p;
  argon2_verify = λ p h. some (text_eq p h);
  jwt_encode = λ claims secret. some claims.sub;
  jwt_decode = λ token secret.
      if starts_with token (codes "unver_")
      then none
      else some (record { sub = token; exp = 0; iat = 0 });
  is_alphanumeric = λ c. all is_alnum c;
  sha256 = λ t. replicate 32 (length t);
  to_hex = λ v. v;
  from_hex = λ t. some t;
  to_base64 = λ v. v;
  from_base64 = λ t. some t;
  seal = λ key nonce t. some t;
  unseal = λ key nonce c. some c;
}

pub crypto-IsCorrect : IsCorrect crypto
crypto-IsCorrect = record {
  hex_inverse = λ v. refl;
  digest_length = λ t. refl;
  base64_inverse = λ v. refl;
  unseal_inverse = λ k n c t h. sym h;
}

runs : Unit {0}
unfolding validate_username validate_password verify_token_hash encrypt_data decrypt_data
    get_secret_setting set_secret_setting do_setup login refresh logout change_password
    create_api_key verify_api_key find_api_key authenticate get_header from_utf8 lookup insert
    get_setting set_setting
runs = tt

abbrev pub nonce : List ℕ
nonce = replicate 12 7

abbrev pub fresh : Fresh
fresh = record {
  id = codes "u1";
  refresh_token = codes "t";
  now = codes "2024-05-01 12:00:00";
  unix_now = 1714564800;
  in_seven_days = codes "2024-05-08T12:00:00+00:00";
}

encrypts : encrypt_data crypto nonce (codes "key") (codes "s") ≡ ok (nonce ++ codes "key")
unfolding runs
encrypts = refl

stores : (set_secret_setting crypto nonce (codes "ddns_cf_token") (codes "key") db).0 ≡ ok tt
unfolding runs
stores = refl

abbrev setup : SetupRequest
setup = record { username = codes "admin"; password = codes "password" }

sets_up : (do_setup crypto fresh setup app).0 ≡ ok tt
unfolding runs
sets_up = refl

do_setup-once_example :
    do_setup crypto fresh setup (do_setup crypto fresh setup app).1
    ≡ (err forbidden, (do_setup crypto fresh setup app).1)
do_setup-once_example = do_setup-once crypto fresh fresh setup setup app sets_up

-- The administrator has set up the program and logs in.
abbrev pub ready : AppState
ready = (do_setup crypto fresh setup app).1

abbrev request : LoginRequest
request = record { username = codes "admin"; password = codes "password" }

abbrev session : Session
session = record { access_token = codes "u1"; expires_in = 3600; cookie = codes "t" }

logs_in : (login crypto fresh true request ready).0 ≡ ok session
unfolding runs
logs_in = refl

login-Admits_example :
    (true ≡ true)
    × (is_set_up ready ≡ true)
    × Any (Admits crypto fresh request ready session) ready.db.users
login-Admits_example = login-Admits crypto fresh true request ready session logs_in

abbrev change : ChangePasswordRequest
change = record { current_password = codes "password"; new_password = codes "new password" }

changes :
    (change_password crypto fresh (codes "u1") change (login crypto fresh true request ready).1).0
    ≡ ok tt
unfolding runs
changes = refl

abbrev raw_key : Text
raw_key = codes "unver_0123456789abcdefghijABCDEFGHIJ01"

creates_key : is_ok (create_api_key crypto (codes "k1") raw_key (codes "CI") db).0 ≡ true
unfolding runs
creates_key = refl

-- API keys are enabled, and a request presents the key as its bearer token.
abbrev keyed : Db
keyed =
    set_setting (codes "api_auth_enabled") (codes "true")
      (create_api_key crypto (codes "k1") raw_key (codes "CI") db).1

abbrev headers : HeaderMap
headers = (codes "authorization", codes "Bearer " ++ raw_key) ∷ []

lets_in : (authenticate crypto (λ s. some s) (codes "now") headers keyed).0 ≡ ok (codes "apikey:k1")
unfolding runs
lets_in = refl

authenticate-Presents_example : Grants crypto (λ s. some s) headers (codes "apikey:k1") keyed
authenticate-Presents_example =
    authenticate-Presents crypto (λ s. some s) headers (codes "now") (codes "apikey:k1") keyed
      lets_in
