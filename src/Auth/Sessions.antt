-- ===== src/Auth/Sessions.antt =====
-- What the handlers of backend/src/api/auth.rs grant, and what ends a session.
use unver.Prelude.{
  inl, inr, Bool, true, false, not, ◌||◌, some, ◌≡◌, refl, sym, ap, arith, Text, codes, text_eq,
  text_eq_iff, is_empty, retain, find_first, find_first-eq-some, find_first-eq-none, if◌then◌else◌,
  All, All-map, retain-none, Any, Any-map, Option-cases,
}
use unver.Prelude.Assoc.{lookup-insert, lookup-insert_self}
use unver.Models.{User, LoginRequest, SetupRequest, ChangePasswordRequest}
use unver.Errors.{
  AppResult, ok, err, unauthorized, forbidden, not_found, rate_limited, setup_required,
}
use unver.State.{Db, AppState, get_setting, set_setting}
use unver.Action.{
  modify, guarded, lift, gets, ok_or, reject_if, Ensures, bind-Ensures, pure-Ensures, Ensures-map,
  ◌>>◌,
}
use unver.Security.{
  Crypto, validate_password, validate_username, hash_password, verify_password, issue_access_token,
  hash_token,
}
use unver.Auth.{
  Fresh, Session, is_set_up, credentials, delete_tokens, set, validate_username, validate_password,
  on_db, set_password, session_of, stored_token, insert_user, insert_token, open_session,
  usable_token, do_setup, login, refresh, logout, change_password,
}

set_setting-set_up :
    (v : Text) (db : Db)
    → get_setting
        (set_setting (codes "username") v (set_setting (codes "setup_complete") (codes "true") db))
        (codes "setup_complete")
      ≡ codes "true"
unfolding get_setting set_setting
set_setting-set_up v db =
    rw
      (
        lookup-insert (codes "username") (codes "setup_complete"),
        lookup-insert_self (codes "setup_complete"),
      )
      refl

abbrev SetUp : Unit {0} → AppState → Type 0
SetUp _ s = is_set_up s ≡ true

module _ (crypto : Crypto) where
  sets-SetUp :
      (name : Text) (s : AppState)
      → Ensures SetUp (set (codes "setup_complete") (codes "true") >> set (codes "username") name) s
  unfolding Ensures
  sets-SetUp name s u e = rw (set_setting-set_up name s.db) refl

  do_setup-SetUp :
      (fresh : Fresh) (body : SetupRequest) (s : AppState)
      → Ensures SetUp (do_setup crypto fresh body) s
  unfolding do_setup
  do_setup-SetUp fresh body s =
      bind-Ensures SetUp (guarded (λ t. if is_set_up t then err forbidden else ok tt)) _ s (λ _ _.
        bind-Ensures SetUp (lift (validate_username crypto.is_alphanumeric body.username)) _ _
          (λ _ _. bind-Ensures SetUp (lift (validate_password body.password)) _ _ (λ _ _.
            bind-Ensures SetUp (lift (hash_password crypto body.password)) _ _ (λ hash _.
              bind-Ensures SetUp (insert_user _) _ _ (λ _ _. sets-SetUp body.username _)))))

  do_setup-refused :
      (fresh : Fresh) (body : SetupRequest) (s : AppState)
      → is_set_up s ≡ true
      → do_setup crypto fresh body s ≡ (err forbidden, s)
  unfolding do_setup
  do_setup-refused fresh body s e = rw e refl

  -- The set-up succeeds once: whatever is sent after it, it is refused as forbidden and nothing
  -- changes.
  pub do_setup-once :
      (fresh again : Fresh) (body other : SetupRequest) (s : AppState)
      → (do_setup crypto fresh body s).0 ≡ ok tt
      → do_setup crypto again other (do_setup crypto fresh body s).1
        ≡ (err forbidden, (do_setup crypto fresh body s).1)
  unfolding Ensures
  do_setup-once fresh again body other s h =
      do_setup-refused again other _ ((do_setup-SetUp fresh body s) tt h)

  -- After a logout the refresh token of the cookie opens no session: it is refused as unauthorized
  -- and nothing changes.
  pub refresh-logout :
      (fresh : Fresh) (token : Text) (s : AppState)
      → refresh crypto fresh (some token) (logout crypto (some token) s).1
        ≡ (err unauthorized, (logout crypto (some token) s).1)
  unfolding refresh logout
  refresh-logout fresh token s =
      let kept =
        retain (λ t. not (text_eq t.token_hash (hash_token crypto token))) s.db.refresh_tokens in
      rw
        (find_first-eq-none (usable_token crypto fresh.now token) kept (
          All-map (λ t. text_eq t.token_hash (hash_token crypto token) ≡ false) _ (λ t e. rw e refl)
            kept
            (retain-none (λ t. text_eq t.token_hash (hash_token crypto token))
              s.db.refresh_tokens)))
        refl

  abbrev Issues : Fresh → Text → AppState → Session → AppState → Type 0
  Issues fresh user_id s session _ =
      issue_access_token crypto fresh.unix_now user_id (get_setting s.db (codes "jwt_secret"))
      ≡ ok session.access_token

  open_session-Issues :
      (fresh : Fresh) (user_id : Text) (s : AppState)
      → Ensures (Issues fresh user_id s) (open_session crypto fresh user_id) s
  open_session-Issues fresh user_id s =
      bind-Ensures (Issues fresh user_id s) (gets (λ t. get_setting t.db (codes "jwt_secret"))) _ s
        (λ secret e.
          bind-Ensures (Issues fresh user_id s)
            (lift (issue_access_token crypto fresh.unix_now user_id secret)) _ _
            (λ token i.
              bind-Ensures (Issues fresh user_id s)
                (insert_token (stored_token crypto fresh user_id)) _ _
                (λ _ _.
                  pure-Ensures (Issues fresh user_id s) (session_of fresh token) _
                    (let same : get_setting s.db (codes "jwt_secret") ≡ secret = cc in rw same i))))

  -- The user that a login lets in.
  abbrev pub Admits : Fresh → LoginRequest → AppState → Session → User → Type 0
  Admits fresh body s session u =
      (u.username ≡ body.username)
      × (verify_password crypto body.password u.password_hash ≡ ok true)
      × (issue_access_token crypto fresh.unix_now u.id (get_setting s.db (codes "jwt_secret"))
          ≡ ok session.access_token)

  admitted :
      (fresh : Fresh) (allowed : Bool) (body : LoginRequest) (s : AppState) (found : Text × Text)
      (valid : Bool)
      → credentials (find_first (λ u. text_eq u.username body.username) s.db.users) ≡ found
      → verify_password crypto body.password found.1 ≡ ok valid
      → ◌≡◌ {A = AppResult (Unit {0})}
          (if not valid || is_empty found.0 then err unauthorized else ok tt)
          (ok tt)
      → (session : Session)
      → issue_access_token crypto fresh.unix_now found.0 (get_setting s.db (codes "jwt_secret"))
        ≡ ok session.access_token
      → Any (Admits fresh body s session) s.db.users
  admitted fresh allowed body s found valid c v r session i =
      elim (Option-cases (find_first (λ u. text_eq u.username body.username) s.db.users)) [
        | inl e ↦ absurd (ground arith)
        | inr (u, e) ↦
            let same : found ≡ (u.id, u.password_hash) = ground arith in
            let yes : valid ≡ true = ground arith in
            let id : found.0 ≡ u.id = ap (λ (p : Text × Text). p.0) same in
            let hash : found.1 ≡ u.password_hash = ap (λ (p : Text × Text). p.1) same in
            let known : verify_password crypto body.password u.password_hash ≡ ok true = cc in
            let issued : issue_access_token crypto fresh.unix_now u.id
                  (get_setting s.db (codes "jwt_secret"))
                ≡ ok session.access_token =
              rw (sym id) i in
            Any-map
              (λ w (x, m). ((text_eq_iff w.username body.username).0 m, rw x known, rw x issued))
              s.db.users (find_first-eq-some (λ u. text_eq u.username body.username) s.db.users u e)
      ]

  abbrev Grants : Fresh → Bool → LoginRequest → AppState → Session → AppState → Type 0
  Grants fresh allowed body s session _ =
      (allowed ≡ true) × (is_set_up s ≡ true) × Any (Admits fresh body s session) s.db.users

  login-Ensures :
      (fresh : Fresh) (allowed : Bool) (body : LoginRequest) (s : AppState)
      → Ensures (Grants fresh allowed body s) (login crypto fresh allowed body) s
  unfolding login
  login-Ensures fresh allowed body s =
      let Q = Grants fresh allowed body s in
      bind-Ensures Q (reject_if (not allowed) rate_limited) _ s (λ _ e1.
        bind-Ensures Q (guarded (λ t. if is_set_up t then ok tt else err setup_required)) _ _
          (λ _ e2.
            bind-Ensures Q
              (gets
                (λ t. credentials (find_first (λ u. text_eq u.username body.username) t.db.users)))
              _ _
              (λ found e3.
                bind-Ensures Q (lift (verify_password crypto body.password found.1)) _ _
                  (λ valid e4.
                    bind-Ensures Q (reject_if (not valid || is_empty found.0) unauthorized) _ _
                      (λ _ e5.
                        Ensures-map Q (Issues fresh found.0 s) _ _
                          (λ session t i. (
                            ground arith,
                            ground arith,
                            admitted fresh allowed body s found valid (cc) e4 e5 session i,
                          ))
                          (open_session-Issues fresh found.0 s))))))

  -- A login that succeeds was allowed by the rate limiter, came after the set-up, and named a stored
  -- user whose password hash accepts the password; the access token is issued for that user.
  pub login-Admits :
      (fresh : Fresh) (allowed : Bool) (body : LoginRequest) (s : AppState) (session : Session)
      → (login crypto fresh allowed body s).0 ≡ ok session
      → (allowed ≡ true) × (is_set_up s ≡ true) × Any (Admits fresh body s session) s.db.users
  unfolding Ensures
  login-Admits fresh allowed body s session h = login-Ensures fresh allowed body s session h

  abbrev pub Ends : Text → Unit {0} → AppState → Type 0
  Ends user_id _ s = All (λ t. text_eq t.user_id user_id ≡ false) s.db.refresh_tokens

  ends :
      (user_id : Text) (s : AppState)
      → Ensures (Ends user_id) (modify (delete_tokens (λ t. text_eq t.user_id user_id))) s
  unfolding Ensures
  ends user_id s u e = retain-none (λ t. text_eq t.user_id user_id) s.db.refresh_tokens

  change_password-Ensures :
      (fresh : Fresh) (user_id : Text) (body : ChangePasswordRequest) (s : AppState)
      → Ensures (Ends user_id) (change_password crypto fresh user_id body) s
  unfolding change_password
  change_password-Ensures fresh user_id body s =
      bind-Ensures (Ends user_id) (lift (validate_password body.new_password)) _ s (λ _ _.
        bind-Ensures (Ends user_id) (gets (λ t. find_first (λ u. text_eq u.id user_id) t.db.users))
          _ _
          (λ found _. bind-Ensures (Ends user_id) (ok_or found not_found) _ _ (λ row _.
            bind-Ensures (Ends user_id)
              (lift (verify_password crypto body.current_password row.password_hash)) _ _
              (λ valid _.
                bind-Ensures (Ends user_id) (reject_if (not valid) unauthorized) _ _ (λ _ _.
                  bind-Ensures (Ends user_id) (lift (hash_password crypto body.new_password)) _ _
                    (λ hash _.
                      bind-Ensures (Ends user_id)
                        (modify (
                          on_db (λ db. record db {
                            users = set_password user_id hash fresh.now db.users;
                          })))
                        _ _ (λ _ _. ends user_id _)))))))

  -- A password change that succeeds leaves no refresh token of the user.
  pub change_password-ends :
      (fresh : Fresh) (user_id : Text) (body : ChangePasswordRequest) (s : AppState)
      → (change_password crypto fresh user_id body s).0 ≡ ok tt
      → All
          (λ t. text_eq t.user_id user_id ≡ false)
          (change_password crypto fresh user_id body s).1.db.refresh_tokens
  unfolding Ensures
  change_password-ends fresh user_id body s h = change_password-Ensures fresh user_id body s tt h
