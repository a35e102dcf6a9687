-- ===== src/Backup/Importing.antt =====
-- `import_config` of backend/src/api/settings.rs.
use unver.Prelude.{
  ℕ, suc, Bool, true, false, not, ◌&&◌, ◌||◌, Option, none, some, List, [], ◌∷◌, ◌++◌, Text, codes,
  text_eq, is_empty, is_some, starts_with, retain, find_first, length, unwrap_or, if◌then◌else◌,
}
use unver.Prelude.Int.{pos}
use unver.Prelude.Assoc.{Assoc, insert}
use unver.Models.{PortGroup, ProxyRule, Certificate}
use unver.Errors.{AppResult, ok, err, bad_request, database}
use unver.State.{Db, AppState}
use unver.Action.{Action}
use unver.Security.{Crypto}
use unver.Certs.{load_certs_to_cache}
use unver.Certificates.{decrypt, encrypt_key_for_db}
use unver.Backup.{Backup, CertEntry, GroupEntry, Imported, RuleEntry, SettingEntry}

abbrev pub text_of : Option Text → Text
text_of o = unwrap_or o []

abbrev pub imported_group : Text → GroupEntry → PortGroup
imported_group now e = record {
  id = text_of e.id;
  name = text_of e.name;
  listen_port = unwrap_or e.listen_port (pos 8443);
  enabled = unwrap_or e.enabled false;
  skip_tls_verify = unwrap_or e.skip_tls_verify false;
  force_https = unwrap_or e.force_https false;
  created_at = now;
  updated_at = now;
}

-- `INSERT OR REPLACE`: the row with the id is deleted, and the new one comes last.
abbrev pub replace_group : PortGroup → List PortGroup → List PortGroup
replace_group g gs = retain (λ h. not (text_eq h.id g.id)) gs ++ g ∷ []

unfoldable pub import_groups : Text → List GroupEntry → List PortGroup → List PortGroup × ℕ
import_groups now [] gs = (gs, 0)
import_groups now (e ∷ es) gs =
    let skipped = import_groups now es gs in
    let (rows, n) = import_groups now es (replace_group (imported_group now e) gs) in
    if is_empty (text_of e.id) || is_empty (text_of e.name) then skipped else (rows, suc n)

module _ (crypto : Crypto) (nonces : ℕ → List ℕ) (now : Text) where
  abbrev pub imported_cert : CertEntry → Text → Certificate
  imported_cert e encrypted = record {
    id = text_of e.id;
    domain = text_of e.domain;
    cert_pem = text_of e.cert_pem;
    key_pem = encrypted;
    expires_at = text_of e.expires_at;
    auto_renew = unwrap_or e.auto_renew true;
    source = unwrap_or e.source (codes "acme");
    created_at = now;
    updated_at = now;
  }

  abbrev pub conflicts : CertEntry → Certificate → Bool
  conflicts e c = text_eq c.id (text_of e.id) || text_eq c.domain (text_of e.domain)

  abbrev pub lacks_field : CertEntry → Bool
  lacks_field e =
      is_empty (text_of e.id)
      || is_empty (text_of e.domain)
      || is_empty (text_of e.cert_pem)
      || is_empty (text_of e.key_pem)

  -- `nonces n` is the nonce of the n-th key that is encrypted; the key is encrypted with the secret of
  -- `db`, the database before the import.
  unfoldable pub import_certs :
      Db → ℕ → List CertEntry → List Certificate → AppResult (List Certificate × ℕ)
  import_certs db n [] cs = ok (cs, n)
  import_certs db n (e ∷ es) cs = elim (lacks_field e) [
    | true ↦ import_certs db n es cs
    | false ↦ elim (encrypt_key_for_db crypto (nonces n) (text_of e.key_pem) db) [
      | err x ↦ err x
      | ok encrypted ↦
          import_certs db (suc n) es
            (retain (λ c. not (conflicts e c)) cs ++ imported_cert e encrypted ∷ [])
    ]
  ]

abbrev pub imported_rule : Text → RuleEntry → ProxyRule
imported_rule now e = record {
  id = text_of e.id;
  name = text_of e.name;
  domain = text_of e.domain;
  target_url = text_of e.target_url;
  rule_type = unwrap_or e.rule_type (codes "proxy");
  redirect_code = e.redirect_code;
  ssl_enabled = unwrap_or e.ssl_enabled false;
  cert_id = e.cert_id;
  force_https = unwrap_or e.force_https false;
  enabled = unwrap_or e.enabled true;
  port_group_id = e.port_group_id;
  status = codes "unknown";
  last_checked_at = none;
  created_at = now;
  updated_at = now;
}

abbrev pub is_skipped : RuleEntry → Bool
is_skipped e =
    is_empty (text_of e.name)
    || is_empty (text_of e.domain)
    || is_empty (text_of e.target_url)
    || is_empty (text_of e.id)

-- `INSERT`: an id that is in use is an error.
unfoldable pub import_rules : Text → List RuleEntry → List ProxyRule → AppResult (List ProxyRule)
import_rules now [] rs = ok rs
import_rules now (e ∷ es) rs = elim (is_skipped e) [
  | true ↦ import_rules now es rs
  | false ↦ elim (is_some (find_first (λ r. text_eq r.id (text_of e.id)) rs)) [
    | true ↦ err database
    | false ↦ import_rules now es (rs ++ imported_rule now e ∷ [])
  ]
]

-- A key that is left out of an import.
abbrev pub is_protected : Text → Bool
is_protected key =
    text_eq key (codes "acme_account_key")
    || text_eq key (codes "setup_complete")
    || text_eq key (codes "jwt_secret")
    || text_eq key (codes "ddns_cf_token")
    || text_eq key (codes "ddns_aliyun_access_key_secret")
    || starts_with key (codes "acme_challenge_")

unfoldable pub import_settings : List SettingEntry → Assoc Text → Assoc Text × ℕ
import_settings [] m = (m, 0)
import_settings (e ∷ es) m =
    let key = text_of e.key in
    let skipped = import_settings es m in
    let (rows, n) = import_settings es (insert key (text_of e.value) m) in
    if not (is_empty key) && not (is_protected key) then (rows, suc n) else skipped

-- The transaction, on the four tables of `db`; an error leaves it without a commit.
module _ (crypto : Crypto) (nonces : ℕ → List ℕ) (now : Text) where
  abbrev pub lacks_all : Backup → Bool
  lacks_all body =
      not (is_some body.proxy_rules)
      && not (is_some body.port_groups)
      && not (is_some body.certificates)
      && not (is_some body.settings)

  abbrev pub rules_after : Option (List RuleEntry) → List ProxyRule → AppResult (List ProxyRule × ℕ)
  rules_after none rs = ok (rs, 0)
  rules_after (some es) rs = elim (import_rules now es []) [
    | err x ↦ err x
    | ok rows ↦ ok (rows, length rows)
  ]

  -- The last steps, which cannot fail.
  abbrev pub committed : Backup → Db → List Certificate × ℕ → List ProxyRule × ℕ → Imported × Db
  committed body db (certs, cert_count) (rules, rule_count) =
      let (groups, pg_count) = import_groups now (unwrap_or body.port_groups []) db.port_groups in
      let (settings, setting_count) = import_settings (unwrap_or body.settings []) db.settings in
      (
        record {
          port_groups = pg_count;
          certificates = cert_count;
          proxy_rules = rule_count;
          settings = setting_count;
        },
        record db {
          port_groups = groups;
          certificates = certs;
          proxy_rules = rules;
          settings = settings;
        },
      )

  unfoldable pub transaction : Backup → Db → AppResult (Imported × Db)
  transaction body db =
      elim (import_certs crypto nonces now db 0 (unwrap_or body.certificates []) db.certificates) [
        | err x ↦ err x
        | ok certs ↦ elim (rules_after body.proxy_rules db.proxy_rules) [
          | err x ↦ err x
          | ok rules ↦ ok (committed body db certs rules)
        ]
      ]

  abbrev finish :
      (Text → Text → Bool) → AppState → AppResult (Imported × Db) → AppResult Imported × AppState
  finish parses s (err x) = (err x, s)
  finish parses s (ok (n, db)) =
      let t = load_certs_to_cache parses (decrypt crypto) now (record s { db = db }) in
      (ok n, record t { reloads = suc t.reloads })

  unfoldable pub import_config : (Text → Text → Bool) → Backup → Action AppState Imported
  import_config parses body s =
      if lacks_all body
      then (
        err (
            bad_request (
              codes
                "Backup must contain at least one of: port_groups, proxy_rules, certificates, settings")),
        s,
      )
      else finish parses s (transaction body s.db)
