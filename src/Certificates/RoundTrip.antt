-- ===== src/Certificates/RoundTrip.antt =====
-- `download_certificate` of backend/src/api/settings.rs after `upload_certificate`.
use unver.Prelude.{
  ℕ, inl, inr, false, List, [], ◌∷◌, some, ◌≡◌, refl, arith, Text, codes, text_eq, text_eq_iff,
  text_eq_refl, is_some, is_empty, find_first, length, unwrap_or, All, Bool-cases, if◌then◌else◌,
}
use unver.Prelude.Utf8.{from_utf8}
use unver.Prelude.Trim.{trim}
use unver.Prelude.Distinct.{Lacks, Distinct, find_first-Lacks}
use unver.Models.{Certificate}
use unver.Errors.{ok}
use unver.State.{Db, AppState, get_setting}
use unver.Security.{Crypto}
use unver.Security.Secrets.{IsCorrect, Result-cases, decrypt_data-encrypt_data}
use unver.Certs.{decrypt_key_from_db, load_certs_to_cache}
use unver.Certificates.{
  Env, has_id, has_domain, replaced, upsert, decrypt, encrypt_key_for_db, manual_row, Upload,
  Uploaded, store, upload_trimmed, upload_certificate, check_upload, download_certificate,
}
use unver.Certificates.Stored.{HasKeyed, id_of}

-- The id under which an upsert stores a domain: that of the row that has it, or the new one.
abbrev stored_id : Text → Text → List Certificate → Text
stored_id domain id [] = id
stored_id domain id (c ∷ cs) = if has_domain domain c then c.id else stored_id domain id cs

abbrev Same : Certificate → Certificate → Type 0
Same row c = (c.domain ≡ row.domain) × (c.cert_pem ≡ row.cert_pem) × (c.key_pem ≡ row.key_pem)

stored_id-ne :
    (k : Text) (row : Certificate) (cs : List Certificate)
    → All (λ c. text_eq k c.id ≡ false) cs
    → text_eq k row.id ≡ false
    → text_eq k (stored_id row.domain row.id cs) ≡ false
stored_id-ne k row [] l e = e
stored_id-ne k row (c ∷ cs) (ec, l) e =
    let rest = stored_id-ne k row cs l e in
    elim (Bool-cases (has_domain row.domain c)) [ inl t ↦ rw t ec | inr t ↦ rw t rest ]

All-sym :
    (k : Text) (cs : List Certificate) → Lacks id_of k cs → All (λ c. text_eq k c.id ≡ false) cs
All-sym k [] l = tt
All-sym k (c ∷ cs) (e, l) = (ground (arith, text_eq_iff c.id k, text_eq_iff k c.id), All-sym k cs l)

-- The row is found under that id.
find_first-upsert :
    (row : Certificate) (cs : List Certificate)
    → Distinct id_of cs
    → Lacks id_of row.id cs
    → (c : Certificate) × (find_first (has_id (stored_id row.domain row.id cs)) (upsert row cs)
        ≡ some c)
      × Same row c
find_first-upsert row [] d l = (row, ground (arith, text_eq_refl row.id), (refl, refl, refl))
find_first-upsert row (c ∷ cs) (lc, d) (ec, l) = elim (Bool-cases (has_domain row.domain c)) [
  | inl t ↦ (
    replaced row c,
    rw t (ground (arith, text_eq_refl c.id)),
    ((text_eq_iff c.domain row.domain).0 t, refl, refl),
  )
  | inr t ↦
      let (found, e, same) = find_first-upsert row cs d l in
      (found, rw t (ground (arith, stored_id-ne c.id row cs (All-sym c.id cs lc) ec, e)), same)
]

module _ (crypto : Crypto) (correct : IsCorrect crypto) where
  decrypt_key-encrypt_key :
      (nonce : List ℕ) (key encrypted : Text) (db : Db)
      → length nonce ≡ 12
      → from_utf8 key ≡ some key
      → encrypt_key_for_db crypto nonce key db ≡ ok encrypted
      → decrypt_key_from_db (decrypt crypto) db encrypted ≡ key
  unfolding encrypt_key_for_db decrypt_key_from_db
  decrypt_key-encrypt_key nonce key encrypted db l t h =
      elim (Bool-cases (is_empty (get_setting db (codes "jwt_secret")))) [
        | inl e ↦ absurd (ground arith)
        | inr e ↦
            rw
              (
                e,
                decrypt_data-encrypt_data crypto correct nonce key
                    (get_setting db (codes "jwt_secret")) encrypted l t (rw e at h),
              )
              refl
      ]

abbrev pub uploaded_id : Env → Text → AppState → Text
uploaded_id env domain s = stored_id domain env.new_id s.db.certificates

module _ (env : Env) (correct : IsCorrect env.crypto) where
  download-row :
      (id : Text) (s : AppState) (row c : Certificate) (key : Text)
      → find_first (has_id id) s.db.certificates ≡ some c
      → Same row c
      → decrypt_key_from_db (decrypt env.crypto) s.db row.key_pem ≡ key
      → (download_certificate env id s).0
        ≡ ok (record { domain = row.domain; cert_pem = row.cert_pem; key_pem = key })
  unfolding download_certificate
  download-row id s row c key e (d, p, k) h = rw (e, d, p, k, h) refl

  abbrev row_of : Text → Text → Text → Text → Certificate
  row_of domain cert_pem encrypted expires_at = manual_row env domain cert_pem encrypted expires_at

  download-store :
      (domain cert_pem key_pem expires_at : Text) (s : AppState) (u : Uploaded)
      → length env.nonce ≡ 12
      → HasKeyed s
      → from_utf8 key_pem ≡ some key_pem
      → (store env domain cert_pem key_pem expires_at s).0 ≡ ok u
      → (download_certificate env
          (uploaded_id env domain s)
          (store env domain cert_pem key_pem expires_at s).1).0
        ≡ ok (record { domain = domain; cert_pem = cert_pem; key_pem = key_pem })
  unfolding store load_certs_to_cache decrypt_key_from_db get_setting
  download-store domain cert_pem key_pem expires_at s u l v t h =
      elim (Result-cases (encrypt_key_for_db env.crypto env.nonce key_pem s.db)) [
        | inl (x, e) ↦ absurd (ground arith)
        | inr (encrypted, e) ↦
            elim (Bool-cases (is_some (find_first (has_id env.new_id) s.db.certificates))) [
              | inl f ↦ absurd (ground arith)
              | inr f ↦
                  let row = row_of domain cert_pem encrypted expires_at in
                  let (c, found, same) =
                    find_first-upsert row s.db.certificates v.0
                      (find_first-Lacks id_of env.new_id s.db.certificates f) in
                  rw (e, f)
                    (download-row (uploaded_id env domain s) _ row c key_pem found same (
                      decrypt_key-encrypt_key env.crypto correct env.nonce key_pem encrypted s.db l
                        t e))
            ]
      ]

  -- A key and a certificate that are uploaded are, trimmed, what a download returns afterwards under the
  -- id of the row of the domain (the new id, or that of a row that had the domain before), if the ids
  -- and the domains were all different and the nonce has 12 bytes.
  pub download_certificate-upload_certificate :
      (body : Upload) (s : AppState) (u : Uploaded)
      → length env.nonce ≡ 12
      → HasKeyed s
      → from_utf8 (trim (unwrap_or body.key_pem [])) ≡ some (trim (unwrap_or body.key_pem []))
      → (upload_certificate env body s).0 ≡ ok u
      → (download_certificate env
          (uploaded_id env (trim (unwrap_or body.domain [])) s)
          (upload_certificate env body s).1).0
        ≡ ok (record {
          domain = trim (unwrap_or body.domain []);
          cert_pem = trim (unwrap_or body.cert_pem []);
          key_pem = trim (unwrap_or body.key_pem []);
        })
  unfolding upload_certificate upload_trimmed
  download_certificate-upload_certificate body s u l v t h =
      let domain = trim (unwrap_or body.domain []) in
      let cert_pem = trim (unwrap_or body.cert_pem []) in
      let key_pem = trim (unwrap_or body.key_pem []) in
      elim (Result-cases (check_upload env domain cert_pem key_pem)) [
        | inl (x, e) ↦ absurd (ground arith)
        | inr (expires_at, e) ↦
            rw e (download-store domain cert_pem key_pem expires_at s u l v t (rw e at h))
      ]
