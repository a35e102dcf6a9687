-- ===== src/Certificates.antt =====
-- The table `certificates`: its handlers in backend/src/api/settings.rs, and `encrypt_key_for_db` of
-- backend/src/ssl.rs. The date of a PEM, random values and the
-- time are parameters. The clean-up of TXT records at the DNS provider, which `delete_certificate`
-- starts in a task of its own, and the log are left out.
pub mod Stored
pub mod RoundTrip
use unver.Prelude.{
  ℕ, Bool, true, false, not, ◌&&◌, ◌||◌, Option, none, some, List, [], ◌∷◌, map, Text, codes,
  text_eq, text_lt, is_empty, is_some, contains, retain, find_first, unwrap_or, if◌then◌else◌,
}
use unver.Prelude.Trim.{trim}
use unver.Models.{Certificate, ProxyRule}
use unver.Errors.{AppResult, ok, err, bad_request, not_found, internal, database}
use unver.State.{Db, AppState, get_setting}
use unver.Action.{Action, to_result, lift, ok_or, gets, reads, modify, pure, for_some, ◌>>=◌, ◌>>◌}
use unver.Security.{Crypto, encrypt_data, decrypt_data}
use unver.Certs.{decrypt_key_from_db, load_certs_to_cache}

-- What a handler takes from outside: a UUID, a nonce, `datetime('now')`, `parse_cert_expiry` and
-- whether a key and a certificate parse.
pub record Env : Type 0 where
  pub crypto : Crypto
  pub new_id : Text
  pub nonce : List ℕ
  pub now : Text
  pub parse_cert_expiry : Text → Option Text
  pub parses : Text → Text → Bool

abbrev pub has_id : Text → Certificate → Bool
has_id id c = text_eq c.id id

abbrev pub has_domain : Text → Certificate → Bool
has_domain domain c = text_eq c.domain domain

abbrev pub on_certs : (List Certificate → List Certificate) → AppState → AppState
on_certs f s = record s { db = record (s.db) { certificates = f s.db.certificates } }

abbrev pub on_rules : (List ProxyRule → List ProxyRule) → AppState → AppState
on_rules f s = record s { db = record (s.db) { proxy_rules = f s.db.proxy_rules } }

abbrev pub update_where : Text → (Certificate → Certificate) → List Certificate → List Certificate
update_where id f [] = []
update_where id f (c ∷ cs) = (if has_id id c then f c else c) ∷ update_where id f cs

-- `ON CONFLICT(domain) DO UPDATE`: the row that is there keeps its id and `created_at`.
abbrev pub replaced : Certificate → Certificate → Certificate
replaced row c = record c {
  cert_pem = row.cert_pem;
  key_pem = row.key_pem;
  expires_at = row.expires_at;
  source = row.source;
  auto_renew = row.auto_renew;
  updated_at = row.updated_at;
}

abbrev pub upsert : Certificate → List Certificate → List Certificate
upsert row [] = row ∷ []
upsert row (c ∷ cs) = if has_domain row.domain c then replaced row c ∷ cs else c ∷ upsert row cs

-- A new id that is in use breaks the primary key.
abbrev pub store_row : Certificate → Action AppState (Unit {0})
store_row row s =
    if is_some (find_first (has_id row.id) s.db.certificates)
    then (err database, s)
    else (ok tt, on_certs (upsert row) s)

-- The three texts of the body, `none` where one is missing or is no text.
pub record Upload : Type 0 where
  pub domain : Option Text
  pub cert_pem : Option Text
  pub key_pem : Option Text

pub record Uploaded : Type 0 where
  pub id : Text
  pub domain : Text
  pub expires_at : Text

pub record Download : Type 0 where
  pub domain : Text
  pub cert_pem : Text
  pub key_pem : Text

-- A row of the list of certificates, which shows no PEM.
pub record Listed : Type 0 where
  pub id : Text
  pub domain : Text
  pub expires_at : Text
  pub auto_renew : Bool
  pub source : Text
  pub created_at : Text
  pub updated_at : Text

abbrev listed : Certificate → Listed
listed c = record {
  id = c.id;
  domain = c.domain;
  expires_at = c.expires_at;
  auto_renew = c.auto_renew;
  source = c.source;
  created_at = c.created_at;
  updated_at = c.updated_at;
}

-- `ORDER BY created_at DESC`
abbrev insert_by_age : Certificate → List Certificate → List Certificate
insert_by_age c [] = c ∷ []
insert_by_age c (d ∷ ds) =
    let rest = insert_by_age c ds in
    if text_lt c.created_at d.created_at then d ∷ rest else c ∷ d ∷ ds

abbrev by_age : List Certificate → List Certificate
by_age [] = []
by_age (c ∷ cs) = insert_by_age c (by_age cs)

unfoldable pub list_certificates : Action AppState (List Listed)
list_certificates = gets (λ s. map listed (by_age s.db.certificates))

abbrev pub find_cert : Text → Action AppState Certificate
find_cert id = do row ← gets (λ s. find_first (has_id id) s.db.certificates); ok_or row not_found

abbrev pub is_bound_to : Text → ProxyRule → Bool
is_bound_to id r = elim (r.cert_id) [ none ↦ false | some c ↦ text_eq c id ]

-- The rules that name the certificate lose it, and their SSL.
abbrev pub unbind : Text → Text → List ProxyRule → List ProxyRule
unbind now id [] = []
unbind now id (r ∷ rs) =
    (if is_bound_to id r
      then record r { ssl_enabled = false; cert_id = none; updated_at = now }
      else r)
    ∷ unbind now id rs

-- The result of `decrypt_data`, `none` on an error.
abbrev or_none : AppResult Text → Option Text
or_none (ok t) = some t
or_none (err e) = none

abbrev pub decrypt : Crypto → Text → Text → Option Text
decrypt crypto stored secret = or_none (decrypt_data crypto stored secret)

unfoldable pub encrypt_key_for_db : Crypto → List ℕ → Text → Db → AppResult Text
encrypt_key_for_db crypto nonce key_pem db =
    let secret = get_setting db (codes "jwt_secret") in
    if is_empty secret then err internal else encrypt_data crypto nonce key_pem secret

module _ (env : Env) where
  open env use {crypto, new_id, nonce, now, parse_cert_expiry, parses}

  abbrev pub reload_cache : Action AppState (Unit {0})
  reload_cache = modify (load_certs_to_cache parses (decrypt crypto) now)

  abbrev pub manual_row : Text → Text → Text → Text → Certificate
  manual_row domain cert_pem key_pem expires_at = record {
    id = new_id;
    domain = domain;
    cert_pem = cert_pem;
    key_pem = key_pem;
    expires_at = expires_at;
    auto_renew = false;
    source = codes "manual";
    created_at = now;
    updated_at = now;
  }

  -- `encrypt_key_for_db` and the rest of the handler.
  unfoldable pub store : Text → Text → Text → Text → Action AppState Uploaded
  store domain cert_pem key_pem expires_at = do
    encrypted ← reads (λ s. encrypt_key_for_db crypto nonce key_pem s.db)
    store_row (manual_row domain cert_pem encrypted expires_at)
    reload_cache
    pure (record { id = new_id; domain = domain; expires_at = expires_at })

  -- The checks, with the date on which the certificate expires.
  unfoldable pub check_upload : Text → Text → Text → AppResult Text
  check_upload domain cert_pem key_pem =
      if is_empty domain || is_empty cert_pem || is_empty key_pem
      then err (bad_request (codes "domain, cert_pem, and key_pem are required"))
      else if not (contains cert_pem (codes "-----BEGIN CERTIFICATE-----"))
      then err (bad_request (codes "Invalid certificate PEM format"))
      else if not (contains key_pem (codes "-----BEGIN"))
      then err (bad_request (codes "Invalid key PEM format"))
      else to_result (parse_cert_expiry cert_pem)
          (bad_request (codes "Unable to parse certificate expiration date"))

  unfoldable pub upload_trimmed : Text → Text → Text → Action AppState Uploaded
  upload_trimmed domain cert_pem key_pem = do
    expires_at ← lift (check_upload domain cert_pem key_pem)
    store domain cert_pem key_pem expires_at

  unfoldable pub upload_certificate : Upload → Action AppState Uploaded
  upload_certificate body =
      upload_trimmed (trim (unwrap_or body.domain [])) (trim (unwrap_or body.cert_pem []))
        (trim (unwrap_or body.key_pem []))

  -- The answer names the domain.
  unfoldable pub delete_certificate : Text → Action AppState Text
  delete_certificate id = do
    row ← find_cert id
    modify (on_certs (retain (λ c. not (has_id id c))))
    modify (on_rules (unbind now id))
    reload_cache
    pure row.domain

  unfoldable pub download_certificate : Text → Action AppState Download
  download_certificate id = do
    row ← find_cert id
    gets (λ s. record {
      domain = row.domain;
      cert_pem = row.cert_pem;
      key_pem = decrypt_key_from_db (decrypt crypto) s.db row.key_pem;
    })

  -- `UPDATE certificates SET auto_renew = ?`
  abbrev pub set_auto_renew : Bool → Certificate → Certificate
  set_auto_renew b c = record c { auto_renew = b; updated_at = now }

  unfoldable pub update_certificate : Text → Option Bool → Action AppState (Unit {0})
  update_certificate id auto_renew =
      for_some auto_renew (λ b. modify (on_certs (update_where id (set_auto_renew b))))
