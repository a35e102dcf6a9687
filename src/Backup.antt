-- ===== src/Backup.antt =====
-- `export_config` and `import_config` of backend/src/api/settings.rs. A field of the JSON is `none` where
-- it is missing or of another type, and a flag is 0 or 1. The version and the time of a backup are left
-- out, and so is the log.
pub mod Importing
pub mod Secrets
pub mod Restore
use unver.Prelude.{
  ℕ, suc, Bool, true, false, not, ◌&&◌, ◌||◌, Option, none, some, List, [], ◌∷◌, ◌++◌, map, Text,
  codes, text_eq, is_empty, is_some, any, starts_with, retain, find_first, length, unwrap_or,
  if◌then◌else◌,
}
use unver.Prelude.Int.{ℤ, pos}
use unver.Prelude.Assoc.{Assoc, insert}
use unver.Models.{PortGroup, ProxyRule, Certificate}
use unver.Errors.{AppResult, ok, err, bad_request, database}
use unver.State.{Db, AppState}
use unver.Action.{Action}
use unver.Security.{Crypto}
use unver.Certs.{decrypt_key_from_db, load_certs_to_cache}
use unver.Certificates.{decrypt, encrypt_key_for_db}

pub record GroupEntry : Type 0 where
  pub id : Option Text
  pub name : Option Text
  pub listen_port : Option ℤ
  pub enabled : Option Bool
  pub skip_tls_verify : Option Bool
  pub force_https : Option Bool

pub record RuleEntry : Type 0 where
  pub id : Option Text
  pub port_group_id : Option Text
  pub name : Option Text
  pub domain : Option Text
  pub target_url : Option Text
  pub rule_type : Option Text
  pub redirect_code : Option ℤ
  pub cert_id : Option Text
  pub ssl_enabled : Option Bool
  pub force_https : Option Bool
  pub enabled : Option Bool

pub record CertEntry : Type 0 where
  pub id : Option Text
  pub domain : Option Text
  pub cert_pem : Option Text
  pub key_pem : Option Text
  pub expires_at : Option Text
  pub auto_renew : Option Bool
  pub source : Option Text

pub record SettingEntry : Type 0 where
  pub key : Option Text
  pub value : Option Text

pub record Backup : Type 0 where
  pub port_groups : Option (List GroupEntry)
  pub proxy_rules : Option (List RuleEntry)
  pub certificates : Option (List CertEntry)
  pub settings : Option (List SettingEntry)

abbrev pub group_entry : PortGroup → GroupEntry
group_entry g = record {
  id = some g.id;
  name = some g.name;
  listen_port = some g.listen_port;
  enabled = some g.enabled;
  skip_tls_verify = some g.skip_tls_verify;
  force_https = some g.force_https;
}

abbrev pub rule_entry : ProxyRule → RuleEntry
rule_entry r = record {
  id = some r.id;
  port_group_id = r.port_group_id;
  name = some r.name;
  domain = some r.domain;
  target_url = some r.target_url;
  rule_type = some r.rule_type;
  redirect_code = r.redirect_code;
  cert_id = r.cert_id;
  ssl_enabled = some r.ssl_enabled;
  force_https = some r.force_https;
  enabled = some r.enabled;
}

abbrev sensitive_settings : List Text
sensitive_settings =
    codes "jwt_secret"
    ∷ codes "ddns_cf_token"
    ∷ codes "acme_account_key"
    ∷ codes "acme_challenge_"
    ∷ []

abbrev pub is_sensitive : Text → Bool
is_sensitive key = any (λ k. text_eq key k || starts_with key k) sensitive_settings

abbrev setting_entry : Text × Text → SettingEntry
setting_entry (key, value) = record { key = some key; value = some value }

abbrev exported_settings : Assoc Text → List SettingEntry
exported_settings settings = map setting_entry (retain (λ kv. not (is_sensitive kv.0)) settings)

-- The key is exported as plain text.
abbrev pub cert_entry : Crypto → Db → Certificate → CertEntry
cert_entry crypto db c = record {
  id = some c.id;
  domain = some c.domain;
  cert_pem = some c.cert_pem;
  key_pem = some (decrypt_key_from_db (decrypt crypto) db c.key_pem);
  expires_at = some c.expires_at;
  auto_renew = some c.auto_renew;
  source = some c.source;
}

unfoldable pub export_config : Crypto → AppState → Backup
export_config crypto s = record {
  port_groups = some (map group_entry s.db.port_groups);
  proxy_rules = some (map rule_entry s.db.proxy_rules);
  certificates = some (map (cert_entry crypto s.db) s.db.certificates);
  settings = some (exported_settings s.db.settings);
}

pub record Imported : Type 0 where
  pub port_groups : ℕ
  pub certificates : ℕ
  pub proxy_rules : ℕ
  pub settings : ℕ
