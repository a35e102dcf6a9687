-- ===== src/Access/Grants.antt =====
-- Which credentials backend/src/middleware.rs accepts, and that a new API key is one of them.
use unver.Prelude.{
  inl, inr, ◌⊎◌, ◌≡◌, refl, ap, ◌∙◌, strip_prefix, Bool-cases, ◌≤◌, Bool, true, false, ◌&&◌, Option,
  some, List, [], ◌∷◌, ◌++◌, arith, Text, codes, starts_with, text_eq_refl, is_some, length, take,
  le→ltb-false, find_first, find_first-eq-some, All, Any, Any-map, Option-cases,
}
use unver.Models.{ApiKey}
use unver.Errors.{AppResult, is_ok, ok, err}
use unver.State.{Db, get_setting}
use unver.Security.{Crypto, validate_access_token, verify_token_hash}
use unver.Security.Secrets.{IsCorrect, verify_token_hash-hash_token}
use unver.Proxy.Headers.{HeaderMap, get_header}
use unver.Access.{
  has_prefix, new_key, create_api_key, find_api_key, verify_api_key, api_auth_enabled, accept_row,
  bearer, header_str, by_header, by_token, authenticate,
}

strip_prefix-some : (s p rest : Text) → strip_prefix s p ≡ some rest → s ≡ p ++ rest
strip_prefix-some s [] rest h = cc
strip_prefix-some [] (y ∷ p) rest h = absurd (cc)
strip_prefix-some (x ∷ s) (y ∷ p) rest h = let ih = strip_prefix-some s p rest in ground (arith, ih)

module _ (crypto : Crypto) (to_str : Text → Option Text) (headers : HeaderMap) where
  -- The header Authorization is "Bearer " and the token.
  abbrev pub SendsBearer : Text → Type 0
  SendsBearer token =
      (value : Text) × (get_header (codes "authorization") headers ≡ some value)
      × (to_str value ≡ some (codes "Bearer " ++ token))

  abbrev pub SendsKey : Text → Type 0
  SendsKey key =
      SendsBearer key
      ⊎ ((value : Text) × (get_header (codes "x-api-key") headers ≡ some value)
          × (to_str value ≡ some key))

  -- The enabled key whose text the request has sent.
  abbrev pub Presents : Text → ApiKey → Type 0
  Presents user_id k =
      (k.enabled ≡ true)
      × (user_id ≡ codes "apikey:" ++ k.id)
      × ((key : Text) × SendsKey key × (verify_token_hash crypto key k.key_hash ≡ true))

  bearer-SendsBearer :
      (token : Text) → bearer crypto to_str headers ≡ some token → SendsBearer token
  bearer-SendsBearer token h = elim (Option-cases (get_header (codes "authorization") headers)) [
    | inl e ↦ absurd (cc (rw e at h))
    | inr (value, e) ↦ elim (Option-cases (to_str value)) [
      | inl f ↦ absurd (cc (rw (e, f) at h))
      | inr (t, f) ↦
          let split = strip_prefix-some t (codes "Bearer ") token (rw (e, f) at h) in
          (value, e, f ∙ ap some split)
    ]
  ]

  find_api_key-eq-ok :
      (key : Text) (db : Db) (row : ApiKey)
      → find_api_key crypto key db ≡ ok row
      → Any
          (λ k. (k ≡ row) × (k.enabled ≡ true) × (verify_token_hash crypto key k.key_hash ≡ true))
          db.api_keys
  unfolding find_api_key
  find_api_key-eq-ok key db row h =
      elim (Option-cases (find_first (has_prefix (take 10 key)) db.api_keys)) [
        | inl e ↦ absurd (ground arith)
        | inr (r, e) ↦
            let yes : verify_token_hash crypto key r.key_hash ≡ true = ground arith in
            let same : r ≡ row = ground arith in
            Any-map (λ k (x, m). (rw x same, ground arith, rw x yes)) db.api_keys
              (find_first-eq-some (has_prefix (take 10 key)) db.api_keys r e)
      ]

  verify_api_key-Presents :
      (now key user_id : Text) (db : Db)
      → SendsKey key
      → (verify_api_key crypto now key db).0 ≡ ok user_id
      → Any (Presents user_id) db.api_keys
  unfolding verify_api_key
  verify_api_key-Presents now key user_id db sent h = go (find_api_key crypto key db) refl h
    where
      named :
          (row : ApiKey)
          → ◌≡◌ {A = AppResult Text} (ok (codes "apikey:" ++ row.id)) (ok user_id)
          → user_id ≡ codes "apikey:" ++ row.id
      named row k = cc

      go :
          (r : AppResult ApiKey)
          → find_api_key crypto key db ≡ r
          → (accept_row crypto now r db).0 ≡ ok user_id
          → Any (Presents user_id) db.api_keys
      go (err x) e k = cc
      go (ok row) e k =
          Any-map (λ j (x, on, v). (on, rw x (named row k), (key, sent, v))) db.api_keys
            (find_api_key-eq-ok key db row e)

  -- An empty key is refused.
  empty-refused :
      (now user_id : Text) (db : Db) → ¬ ((verify_api_key crypto now [] db).0 ≡ ok user_id)
  unfolding verify_api_key find_api_key
  empty-refused now user_id db h = cc

  key-Presents :
      (now user_id : Text) (db : Db)
      → (verify_api_key crypto now
          (header_str crypto to_str (get_header (codes "x-api-key") headers))
          db).0
        ≡ ok user_id
      → Any (Presents user_id) db.api_keys
  key-Presents now user_id db h = elim (Option-cases (get_header (codes "x-api-key") headers)) [
    | inl e ↦ absurd (empty-refused now user_id db (rw e at h))
    | inr (value, e) ↦ elim (Option-cases (to_str value)) [
      | inl f ↦ absurd (empty-refused now user_id db (rw (e, f) at h))
      | inr (key, f) ↦
          verify_api_key-Presents now key user_id db (inr (value, e, f)) (rw (e, f) at h)
    ]
  ]

  -- A token of the request, or an enabled key of it where keys are enabled.
  abbrev pub Grants : Text → Db → Type 0
  Grants user_id db =
      ((token : Text) × SendsBearer token
        × (validate_access_token crypto token (get_setting db (codes "jwt_secret")) ≡ ok user_id))
      ⊎ ((api_auth_enabled crypto to_str db ≡ true) × Any (Presents user_id) db.api_keys)

  by_header-Presents :
      (now user_id : Text) (db : Db)
      → (by_header crypto to_str now headers db).0 ≡ ok user_id
      → (api_auth_enabled crypto to_str db ≡ true) × Any (Presents user_id) db.api_keys
  by_header-Presents now user_id db h =
      let tested : Bool =
        api_auth_enabled crypto to_str db && is_some (get_header (codes "x-api-key") headers) in
      elim (Bool-cases tested) [
        | inl e ↦ (ground arith, key-Presents now user_id db (rw e at h))
        | inr e ↦ absurd (cc (rw e at h))
      ]

  by_token-Presents :
      (now user_id token : Text) (db : Db) (r : AppResult Text)
      → SendsBearer token
      → validate_access_token crypto token (get_setting db (codes "jwt_secret")) ≡ r
      → (by_token crypto to_str now headers token r db).0 ≡ ok user_id
      → Grants user_id db
  by_token-Presents now user_id token db (ok u) sent e h = inl (token, sent, cc)
  by_token-Presents now user_id token db (err x) sent e h =
      let tested : Bool = starts_with token (codes "unver_") && api_auth_enabled crypto to_str db in
      elim (Bool-cases tested) [
        | inl c ↦
            inr (ground arith, verify_api_key-Presents now token user_id db (inl sent) (rw c at h))
        | inr c ↦ inr (by_header-Presents now user_id db (rw c at h))
      ]

  -- Whoever is let in as `user_id` has sent, as the bearer of the header Authorization, a token that the
  -- JWT secret validates for that user; or API keys are enabled, and the request has sent, as its bearer
  -- or in the header X-API-Key, the text of an enabled key, for whose id the user stands.
  pub authenticate-Presents :
      (now user_id : Text) (db : Db)
      → (authenticate crypto to_str now headers db).0 ≡ ok user_id
      → Grants user_id db
  unfolding authenticate
  authenticate-Presents now user_id db h = elim (Option-cases (bearer crypto to_str headers)) [
    | inl e ↦ inr (by_header-Presents now user_id db (rw e at h))
    | inr (token, e) ↦
        by_token-Presents now user_id token db _ (bearer-SendsBearer token e) refl (rw e at h)
  ]

find_first-append_none :
    {A : Type 0} (test : A → Bool) (xs : List A) (x : A)
    → All (λ y. test y ≡ false) xs
    → test x ≡ true
    → find_first test (xs ++ x ∷ []) ≡ some x
find_first-append_none test [] x a e = rw (find_first, e) refl
find_first-append_none test (y ∷ xs) x (n, a) e =
    rw (find_first, n) (find_first-append_none test xs x a e)

module _ (crypto : Crypto) (correct : IsCorrect crypto) where
  create-keys :
      (id raw_key name : Text) (db : Db)
      → is_ok (create_api_key crypto id raw_key name db).0 ≡ true
      → (create_api_key crypto id raw_key name db).1.api_keys
        ≡ db.api_keys ++ new_key crypto id raw_key name ∷ []
  unfolding create_api_key
  create-keys id raw_key name db h = ground arith

  -- A key that has just been created is accepted, as the user named after its id, if it has at least
  -- six bytes and no enabled key had its prefix, where the libraries are as documented.
  pub verify_api_key-create_api_key :
      (id raw_key name now : Text) (db : Db)
      → 6 ≤ length raw_key
      → All (λ k. has_prefix (take 10 raw_key) k ≡ false) db.api_keys
      → is_ok (create_api_key crypto id raw_key name db).0 ≡ true
      → (verify_api_key crypto now raw_key (create_api_key crypto id raw_key name db).1).0
        ≡ ok (codes "apikey:" ++ id)
  unfolding verify_api_key find_api_key
  verify_api_key-create_api_key id raw_key name now db l a h =
      rw
        (
          create-keys id raw_key name db h,
          le→ltb-false (length raw_key) 6 l,
          find_first-append_none (has_prefix (take 10 raw_key)) db.api_keys
              (new_key crypto id raw_key name) a (ground (arith, text_eq_refl (take 10 raw_key))),
          verify_token_hash-hash_token crypto correct raw_key,
        )
        refl
