-- ===== src/State.antt =====
-- The state that the handlers share, of backend/src/state.rs: the tables of the database, the
-- certificate cache, the reload signal and the connection counters. A statement that SQLite runs
-- succeeds here unless it breaks a constraint of the schema.
use unver.Prelude.{ℕ, List, [], Text, unwrap_or}
use unver.Prelude.Assoc.{Assoc, lookup, insert}
use unver.Models.{ProxyRule, PortGroup, User, RefreshToken, Certificate, ApiKey}

pub record Db : Type 0 where
  pub settings : Assoc Text
  pub users : List User
  pub refresh_tokens : List RefreshToken
  pub port_groups : List PortGroup
  pub proxy_rules : List ProxyRule
  pub certificates : List Certificate
  pub api_keys : List ApiKey

-- A `CertifiedKey`, by the PEM texts that it was made from.
pub record CertifiedKey : Type 0 where
  pub cert_pem : Text
  pub key_pem : Text

pub record AppState : Type 0 where
  pub db : Db
  pub cert_cache : Assoc CertifiedKey
  -- how often `port_group_reload.send(())` was called
  pub reloads : ℕ
  -- rule id → active connections
  pub conn_counter : Assoc ℕ

unfoldable pub get_setting : Db → Text → Text
get_setting db key = unwrap_or (lookup key db.settings) []

unfoldable pub set_setting : Text → Text → Db → Db
set_setting key value db = record db { settings = insert key value db.settings }
