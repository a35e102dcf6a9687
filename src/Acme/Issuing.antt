-- ===== src/Acme/Issuing.antt =====
-- The issuance and the renewal of certificates of backend/src/ssl.rs, around the validation.
use unver.Prelude.{
  ℕ, zero, suc, Bool, true, false, not, ◌&&◌, ◌||◌, Option, none, some, List, [], ◌∷◌, map, Text,
  codes, text_eq, is_empty, is_some, retain, find_first, if◌then◌else◌,
}
use unver.Models.{Certificate}
use unver.Errors.{AppResult, ok, err}
use unver.State.{Db, AppState, get_setting}
use unver.Security.{Crypto, get_secret_setting, set_secret_setting}
use unver.Certs.{load_certs_to_cache}
use unver.Certificates.{has_domain, has_id, decrypt, encrypt_key_for_db, on_certs}
use unver.Dns.{Answer, good, bad, Call, give, refuse, DnsProvider, ◌>>=◌}
use unver.Acme.{Authorization, authorize, authorize_multi, each, get_acme_url}

pub data OrderStatus : Type 0 where
  ready order_invalid waiting : OrderStatus

-- What the server does with an order: its authorizations, the status at each refresh, the round at which
-- it stops waiting, and the certificate with its key.
pub record Order : Type 0 where
  pub placed : Bool
  pub authorizations : List Authorization
  pub status : ℕ → Option OrderStatus
  pub certificate : Option (Text × Text)

-- `fuel` bounds the refreshes, which have no bound: `none` where it runs out.
unfoldable pub wait_ready : (ℕ → Option OrderStatus) → ℕ → ℕ → Option (Answer (Unit {0}))
wait_ready status zero i = none
wait_ready status (suc fuel) i =
    let later = wait_ready status fuel (suc i) in
    elim (status i) [
      | none ↦ some (bad (codes "Order refresh"))
      | some ready ↦ some (good tt)
      | some order_invalid ↦ some (bad (codes "Order invalid"))
      | some waiting ↦ later
    ]

-- `ON CONFLICT(domain) DO UPDATE`, which leaves `auto_renew` as it was.
abbrev pub renewed : Certificate → Certificate → Certificate
renewed row c = record c {
  cert_pem = row.cert_pem;
  key_pem = row.key_pem;
  expires_at = row.expires_at;
  source = row.source;
  updated_at = row.updated_at;
}

abbrev pub upsert : Certificate → List Certificate → List Certificate
upsert row [] = row ∷ []
upsert row (c ∷ cs) = if has_domain row.domain c then renewed row c ∷ cs else c ∷ upsert row cs

-- What an issuance takes from outside. `in_90_days` is the date that is stored; `register_eab` is the
-- answer of ZeroSSL; `credentials_parse` and `new_credentials` stand for the account.
pub record Env : Type 0 where
  pub crypto : Crypto
  pub new_id : Text
  pub nonces : ℕ → List ℕ
  pub now : Text
  pub in_90_days : Text
  pub parses : Text → Text → Bool
  pub register_eab : Text → Option (Text × Text)
  pub credentials_parse : Text → Bool
  pub new_credentials : Text → Text → Option (Text × Text) → Option Text
  pub order : List Text → Order
  pub fuel : ℕ

abbrev pub acme_row : Env → Text → Text → Text → Certificate
acme_row env domain cert_pem key_pem = record {
  id = env.new_id;
  domain = domain;
  cert_pem = cert_pem;
  key_pem = key_pem;
  expires_at = env.in_90_days;
  auto_renew = true;
  source = codes "acme";
  created_at = env.now;
  updated_at = env.now;
}

-- The certificate that `check_and_renew_certs` looks at, and whether it is issued again;
-- `expires_soon` is also true of a date that does not parse.
abbrev pub is_acme : Text → Certificate → Bool
is_acme domain c = has_domain domain c && text_eq c.source (codes "acme")

unfoldable pub should_renew : (Text → Bool) → List Certificate → Text → Bool
should_renew expires_soon certs domain = elim (find_first (is_acme domain) certs) [
  | none ↦ false
  | some c ↦ expires_soon c.expires_at
]

module _ (env : Env) where
  open env use {crypto, nonces}

  abbrev saved : AppResult (Unit {0}) × Db → Answer (Unit {0}) × Db
  saved (ok u, db) = (good u, db)
  saved (err e, db) = (bad (codes "settings"), db)

  unfoldable pub save : ℕ → Text → Text → Call Db (Unit {0})
  save n key value db = saved (set_secret_setting crypto (nonces n) key value db)

  -- The worker goes on if the credentials cannot be saved.
  abbrev keep_going : Call Db (Unit {0}) → Call Db (Unit {0})
  keep_going m db = (good tt, (m db).1)

  abbrev save_eab : Bool → Text × Text → Call Db (Option (Text × Text))
  save_eab strict (kid, hmac) = do
    a ←
        if strict
        then save 0 (codes "zerossl_eab_kid") kid
        else keep_going (save 0 (codes "zerossl_eab_kid") kid)
    b ←
        if strict
        then save 1 (codes "zerossl_eab_hmac") hmac
        else keep_going (save 1 (codes "zerossl_eab_hmac") hmac)
    give (some (kid, hmac))

  abbrev registered : Bool → Option (Text × Text) → Call Db (Option (Text × Text))
  registered strict none = refuse (codes "ZeroSSL EAB")
  registered strict (some eab) = save_eab strict eab

  unfoldable pub external_account :
      Bool → Text → Option (Text × Text) → Call Db (Option (Text × Text))
  unfolding save
  external_account strict email eab db =
      if text_eq (get_setting db (codes "acme_provider")) (codes "zerossl") && not (is_some eab)
      then registered strict (env.register_eab email) db
      else (good eab, db)

  abbrev create_account : Option Text → Call Db (Unit {0})
  create_account none = refuse (codes "Create account")
  create_account (some creds) = save 2 (codes "acme_credentials") creds

  abbrev account_from : Text → Text → Option (Text × Text) → AppResult Text → Call Db (Unit {0})
  account_from email acme_url eab (err e) = refuse (codes "Settings")
  account_from email acme_url eab (ok creds) =
      if is_empty creds
      then create_account (env.new_credentials email acme_url eab)
      else if env.credentials_parse creds
      then give tt
      else refuse (codes "Parse creds")

  unfoldable pub get_or_create_account : Text → Text → Option (Text × Text) → Call Db (Unit {0})
  unfolding save
  get_or_create_account email acme_url eab db =
      account_from email acme_url eab (get_secret_setting crypto db (codes "acme_credentials")) db

  -- The account, which changes settings only.
  unfoldable pub prepare : Bool → Text → Call Db (Unit {0})
  unfolding external_account get_or_create_account get_acme_url
  prepare strict email db =
      let (acme_url, eab) = get_acme_url crypto db in
      (external_account strict email eab >>= λ eab'. get_or_create_account email acme_url eab') db

  abbrev store_encrypted : Text → Text → AppResult Text → Call AppState (Unit {0})
  store_encrypted domain cert_pem (err e) s = (bad (codes "Encrypt key"), s)
  store_encrypted domain cert_pem (ok encrypted) s =
      if is_some (find_first (has_id env.new_id) s.db.certificates)
      then (bad (codes "DB"), s)
      else (
        good tt,
        load_certs_to_cache env.parses (decrypt crypto) env.now
            (on_certs (upsert (acme_row env domain cert_pem encrypted)) s),
      )

  -- The last step: the certificate of the first domain.
  unfoldable pub store : List Text → Option (Text × Text) → Call AppState (Unit {0})
  store [] certificate s = (bad (codes "domains list is empty"), s)
  store (domain ∷ domains) none s = (bad (codes "Poll cert"), s)
  store (domain ∷ domains) (some (cert_pem, key_pem)) s =
      store_encrypted domain cert_pem (encrypt_key_for_db crypto (nonces 3) key_pem s.db) s

  module _ {W : Type 0} (get_provider : Text → Option (DnsProvider W)) where
    -- What follows the validation.
    abbrev finish :
        List Text
        → Order
        → AppState
        → Answer (Unit {0}) × W
        → Option (Answer (Unit {0})) × (AppState × W)
    finish domains order s (bad e, w) = (some (bad e), (s, w))
    finish domains order s (good u, w) = elim (wait_ready order.status env.fuel 0) [
      | none ↦ (none, (s, w))
      | some (bad e) ↦ (some (bad e), (s, w))
      | some (good u') ↦
          let (answer, t) = store domains order.certificate s in (some answer, (t, w))
    ]

    abbrev with_account :
        (DnsProvider W → Db → Authorization → Call W (Unit {0}))
        → List Text
        → Text
        → AppState
        → W
        → Answer (Unit {0}) × Db
        → Option (Answer (Unit {0})) × (AppState × W)
    with_account validate domains provider_name s w (bad e, db) =
        (some (bad e), (record s { db = db }, w))
    with_account validate domains provider_name s w (good u, db) =
        let t = record s { db = db } in
        let order = env.order domains in
        if not order.placed
        then (some (bad (codes "Order")), (t, w))
        else elim (get_provider provider_name) [
          | none ↦ (some (bad (codes "Unknown DDNS provider")), (t, w))
          | some provider ↦
              finish domains order t (each (validate provider db) order.authorizations w)
        ]

    unfoldable pub issue_certificate_sync :
        Text → List Text → Text → AppState × W → Option (Answer (Unit {0})) × (AppState × W)
    unfolding prepare each authorize wait_ready store
    issue_certificate_sync email domains provider_name (s, w) =
        with_account authorize domains provider_name s w (prepare false email s.db)

    unfoldable pub issue_certificate_multi :
        Text → List Text → Text → AppState × W → Option (Answer (Unit {0})) × (AppState × W)
    unfolding prepare each authorize_multi wait_ready store
    issue_certificate_multi email domains provider_name (s, w) =
        with_account authorize_multi domains provider_name s w (prepare true email s.db)

    -- The domains whose issuance is tried, and the state. Each round reads the certificates again.
    unfoldable pub renew_each :
        (Text → Bool) → Text → Text → List Text → AppState × W → List Text × (AppState × W)
    renew_each expires_soon email provider_name [] (s, w) = ([], (s, w))
    renew_each expires_soon email provider_name (domain ∷ domains) (s, w) =
        if should_renew expires_soon s.db.certificates domain
        then (let (tried, after) =
              renew_each expires_soon email provider_name domains
                (issue_certificate_multi email (domain ∷ []) provider_name (s, w)).1 in
            (domain ∷ tried, after))
        else renew_each expires_soon email provider_name domains (s, w)

    unfoldable pub check_and_renew_certs : (Text → Bool) → AppState × W → List Text × (AppState × W)
    unfolding renew_each issue_certificate_multi
    check_and_renew_certs expires_soon (s, w) =
        let provider_name = get_setting s.db (codes "ddns_provider") in
        let email = get_setting s.db (codes "acme_email") in
        if is_empty provider_name || is_empty email
        then ([], (s, w))
        else renew_each expires_soon email provider_name
            (map (λ r. r.domain) (retain (λ r. r.ssl_enabled && r.enabled) s.db.proxy_rules)) (s, w)
