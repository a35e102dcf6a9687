-- ===== src/Tests/Password.antt =====
-- Runs of the reset of the password on concrete data.
use unver.Prelude.{◌≡◌, refl, ap, text_eq_refl, true, some, [], ◌∷◌, ◌++◌, Text, codes}
use unver.Prelude.Trim.{trim, trim_start, trim_end}
use unver.Prelude.Assoc.{lookup, insert}
use unver.Models.{User}
use unver.Errors.{ok}
use unver.State.{get_setting, set_setting}
use unver.Security.{validate_username, validate_password}
use unver.Auth.{is_set_up, do_setup, login, open_session}
use unver.Cli.Password.{reset, do_not_match, first_user, reset_password}
use unver.Cli.Sessions.{
  Reports, IsVerifying, after_reset, as_user, reset_password-Reports, login-reset_password,
}
use unver.Tests.Crypto.{crypto, ready, fresh}

abbrev now : Text
now = codes "2024-06-01 12:00:00"

abbrev admin : User
admin = record {
  id = codes "u1";
  username = codes "admin";
  password_hash = codes "password";
  created_at = codes "2024-05-01 12:00:00";
  updated_at = codes "2024-05-01 12:00:00";
}

abbrev typed : Text
typed = codes "forgotten 2" ++ 10 ∷ []

first : first_user ready.db.users ≡ some admin
unfolding do_setup validate_username validate_password get_setting lookup set_setting
first = refl

resets : (reset_password crypto now (some typed) (some typed) ready).0 ≡ ok reset
unfolding do_setup validate_username validate_password reset_password trim trim_start trim_end
    get_setting lookup set_setting
resets = refl

set_up : is_set_up ready ≡ true
unfolding do_setup validate_username validate_password get_setting set_setting lookup insert
set_up = refl

-- Two lines that differ change nothing.
differs : (reset_password crypto now (some typed) (some (codes "other")) ready).0 ≡ ok do_not_match
unfolding do_setup validate_username validate_password reset_password trim trim_start trim_end
    get_setting lookup set_setting
differs = refl

verifying : IsVerifying crypto
verifying password hash e = let same : password ≡ hash = cc in rw same (ap some (text_eq_refl hash))

reset_password-Reports_example :
    Reports crypto now typed typed admin ready reset
      (reset_password crypto now (some typed) (some typed) ready).1
reset_password-Reports_example =
    reset_password-Reports crypto now typed typed admin ready reset first resets

login-reset_password_example :
    login crypto fresh true
      (as_user crypto now typed typed admin ready fresh)
      (after_reset crypto now typed typed admin ready fresh)
    ≡ open_session crypto fresh (codes "u1") (after_reset crypto now typed typed admin ready fresh)
login-reset_password_example =
    login-reset_password crypto now typed typed admin ready fresh verifying first refl set_up resets
