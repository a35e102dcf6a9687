-- ===== src/Cli/Password.antt =====
-- `reset_password` of backend/src/cli.rs. The two lines that are typed are arguments, `none` where they cannot
-- be read, and so is the time. The database is there and can be opened.
use unver.Prelude.{
  not, Option, none, some, List, [], ◌∷◌, Text, text_eq, length, ltb, if◌then◌else◌,
}
use unver.Prelude.Trim.{trim}
use unver.Models.{User}
use unver.Errors.{internal}
use unver.State.{AppState}
use unver.Action.{Action, pure, lift, ok_or, gets, modify, ◌>>=◌, ◌>>◌}
use unver.Security.{Crypto, hash_password}
use unver.Auth.{on_db, set_password, delete_tokens}

-- What is printed at the end.
pub data Reset : Type 0 where
  do_not_match : Reset
  too_short : Reset
  reset : Reset

-- `SELECT … FROM users LIMIT 1`
abbrev pub first_user : List User → Option User
first_user [] = none
first_user (u ∷ us) = some u

module _ (crypto : Crypto) where
  abbrev pub store_password : Text → Text → Text → Action AppState Reset
  store_password now password id = do
    password_hash ← lift (hash_password crypto password)
    modify (on_db (λ db. record db { users = set_password id password_hash now db.users }))
    modify (delete_tokens (λ t. text_eq t.user_id id))
    pure reset

  abbrev pub check_typed : Text → Text → Text → Text → Action AppState Reset
  check_typed now password confirm id =
      if not (text_eq password (trim confirm))
      then pure do_not_match
      else if ltb (length password) 8
      then pure too_short
      else store_password now password id

  unfoldable pub reset_password : Text → Option Text → Option Text → Action AppState Reset
  reset_password now password confirm = do
    found ← gets (λ s. first_user s.db.users)
    user ← ok_or found internal
    password ← ok_or password internal
    confirm ← ok_or confirm internal
    check_typed now (trim password) confirm user.id
