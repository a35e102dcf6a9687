-- ===== src/Cli/Sessions.antt =====
-- What a reset of the password by backend/src/cli.rs means for logins and sessions.
use unver.Prelude.{
  ◌≡◌, refl, sym, inl, inr, true, false, Option, none, some, List, [], ◌∷◌, Text, text_eq,
  text_eq_refl, is_empty, length, ltb, find_first, text_eq_iff, ltb-false→le, ◌≤◌, Bool-cases,
}
use unver.Prelude.Trim.{trim}
use unver.Models.{User, LoginRequest}
use unver.Errors.{ok}
use unver.State.{AppState, get_setting}
use unver.Action.{Ensures, bind-Ensures, pure-Ensures, lift}
use unver.Security.{Crypto, or_internal, hash_password}
use unver.Auth.{Fresh, is_set_up, on_db, set_password, delete_tokens, open_session, login}
use unver.Cli.Password.{
  Reset, do_not_match, too_short, reset, first_user, store_password, check_typed, reset_password,
}

module _ (crypto : Crypto) (now : Text) where
  abbrev pub stored : Text → Text → AppState → AppState
  stored id hash s =
      delete_tokens (λ t. text_eq t.user_id id)
        (on_db (λ db. record db { users = set_password id hash now db.users }) s)

  -- The state after a reset with this password.
  abbrev pub Stores : Text → Text → AppState → AppState → Type 0
  Stores password id before after =
      (hash : Text) × (crypto.argon2_hash password ≡ some hash) × (after ≡ stored id hash before)

  -- By what is printed: a reset of the first user with a password of eight bytes or more that was typed
  -- twice, or nothing.
  abbrev pub Reports : Text → Text → User → AppState → Reset → AppState → Type 0
  Reports password confirm u before do_not_match after = after ≡ before
  Reports password confirm u before too_short after = after ≡ before
  Reports password confirm u before reset after =
      (trim password ≡ trim confirm)
      × (8 ≤ length (trim password))
      × Stores (trim password) u.id before after

  or_internal-inverse : (o : Option Text) (a : Text) → or_internal o ≡ ok a → o ≡ some a
  or_internal-inverse none a e = cc
  or_internal-inverse (some b) a e = cc

  store_password-Reports :
      (password confirm : Text) (u : User) (s : AppState)
      → trim password ≡ trim confirm
      → 8 ≤ length (trim password)
      → Ensures (Reports password confirm u s) (store_password crypto now (trim password) u.id) s
  unfolding Ensures
  store_password-Reports password confirm u s same long =
      bind-Ensures (Reports password confirm u s) (lift (hash_password crypto (trim password))) _ s
        λ hash e r f.
          let is_reset : reset ≡ r = cc in
          rw (sym is_reset) (
            same,
            long,
            (hash, or_internal-inverse (crypto.argon2_hash (trim password)) hash e, refl),
          )

  check_typed-Reports :
      (password confirm : Text) (u : User) (s : AppState)
      → Ensures
          (Reports password confirm u s)
          (check_typed crypto now (trim password) confirm u.id)
          s
  check_typed-Reports password confirm u s =
      elim (Bool-cases (text_eq (trim password) (trim confirm))) [
        | inr n ↦ rw n (pure-Ensures (Reports password confirm u s) do_not_match s refl)
        | inl y ↦ elim (Bool-cases (ltb (length (trim password)) 8)) [
          | inl short ↦ rw (y, short) (pure-Ensures (Reports password confirm u s) too_short s refl)
          | inr long ↦
              rw (y, long)
                (store_password-Reports password confirm u s
                  ((text_eq_iff (trim password) (trim confirm)).0 y)
                  (ltb-false→le (length (trim password)) 8 long))
        ]
      ]

  -- The state after the command is what its last line says: a reset stores, for the first user, a hash of
  -- the trimmed password, which has eight bytes or more and was typed alike twice, and removes the user's
  -- refresh tokens; else nothing has changed.
  pub reset_password-Reports :
      (password confirm : Text) (u : User) (s : AppState) (r : Reset)
      → first_user s.db.users ≡ some u
      → (reset_password crypto now (some password) (some confirm) s).0 ≡ ok r
      → Reports password confirm u s r
          (reset_password crypto now (some password) (some confirm) s).1
  unfolding reset_password Ensures
  reset_password-Reports password confirm u s r e h =
      rw e (check_typed-Reports password confirm u s r (rw e at h))

-- The first user keeps its name and its id, and its hash is the new one.
first_user-set_password :
    (id hash now : Text) (us : List User) (u : User)
    → first_user us ≡ some u
    → u.id ≡ id
    → find_first (λ v. text_eq v.username u.username) (set_password id hash now us)
      ≡ some (record u { password_hash = hash; updated_at = now })
first_user-set_password id hash now [] u e i = cc
first_user-set_password id hash now (v ∷ us) u e i =
    let same : v ≡ u = cc in
    let named : text_eq u.id id ≡ true = rw i (text_eq_refl id) in
    rw (same, named) (rw (find_first, text_eq_refl u.username) refl)

-- Argon2 accepts a password for the hash that it made of it.
abbrev pub IsVerifying : Crypto → Type 0
IsVerifying crypto =
    (password hash : Text)
    → crypto.argon2_hash password ≡ some hash
    → crypto.argon2_verify password hash ≡ some true

module _ (crypto : Crypto) (now password confirm : Text) (u : User) (s : AppState)
    (fresh : Fresh) where
  abbrev pub after_reset : AppState
  after_reset = (reset_password crypto now (some password) (some confirm) s).1

  abbrev pub as_user : LoginRequest
  as_user = record { username = u.username; password = trim password }

  login-stored :
      (hash : Text) (t : AppState)
      → t ≡ stored crypto now u.id hash s
      → crypto.argon2_verify (trim password) hash ≡ some true
      → first_user s.db.users ≡ some u
      → is_empty u.id ≡ false
      → is_set_up s ≡ true
      → login crypto fresh true as_user t ≡ open_session crypto fresh u.id t
  unfolding login get_setting
  login-stored hash t e v first id ready =
      rw (e, ready, first_user-set_password u.id hash now s.db.users u first refl, v, id) refl

  -- After a reset the first user, whose id is not empty, can log in with the new password, where the
  -- set-up is complete and the rate limiter allows it: the login does what opening a session does.
  pub login-reset_password :
      IsVerifying crypto
      → first_user s.db.users ≡ some u
      → is_empty u.id ≡ false
      → is_set_up s ≡ true
      → (reset_password crypto now (some password) (some confirm) s).0 ≡ ok reset
      → login crypto fresh true as_user after_reset ≡ open_session crypto fresh u.id after_reset
  login-reset_password law first id ready h =
      let (same, long, (hash, made, e)) =
        reset_password-Reports crypto now password confirm u s reset first h in
      login-stored hash after_reset e (law (trim password) hash made) first id ready
