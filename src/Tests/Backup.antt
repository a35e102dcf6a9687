-- ===== src/Tests/Backup.antt =====
-- Exports and imports.
use unver.Prelude.{All, ◌≡◌, refl, true, none, some, [], ◌∷◌, Text, codes, any, text_eq}
use unver.Prelude.Int.{pos}
use unver.Prelude.Assoc.{lookup, insert}
use unver.Errors.{err, database, is_ok}
use unver.State.{AppState, get_setting, set_setting}
use unver.Security.{encrypt_data, decrypt_data}
use unver.Certs.{decrypt_key_from_db, load_certs_to_cache}
use unver.Certificates.{encrypt_key_for_db}
use unver.Backup.{Backup, rule_entry, export_config}
use unver.Backup.Importing.{
  import_groups, import_rules, import_certs, import_settings, transaction, import_config,
}
use unver.Backup.Secrets.{kept_keys, import_config-protects}
use unver.Backup.Restore.{IsWhole, CanEncrypt, export_config-import_config}
use unver.Tests.Data.{app, db, shop_rule}
use unver.Tests.Crypto.{crypto, nonce}

runs : Unit {0}
unfolding lookup insert get_setting set_setting encrypt_data decrypt_data decrypt_key_from_db
    load_certs_to_cache encrypt_key_for_db import_groups import_rules import_certs import_settings
    transaction import_config export_config
runs = tt

abbrev now : Text
now = codes "2024-05-01 12:00:00"

abbrev started : AppState
started = record app {
  db = record db { settings = (codes "jwt_secret", codes "s") ∷ []; proxy_rules = [] };
}

abbrev hostile : Backup
hostile = record {
  port_groups = none;
  proxy_rules = none;
  certificates = none;
  settings = some (record { key = some (codes "jwt_secret"); value = some (codes "mine") } ∷ []);
}

import_config-protects_example :
    All
      (λ key.
        lookup key
          (import_config crypto (λ n. nonce) now (λ c k. true) hostile started).1.db.settings
        ≡ lookup key started.db.settings)
      kept_keys
import_config-protects_example =
    import_config-protects crypto (λ n. nonce) now (λ c k. true) hostile started

abbrev with_account : Backup
with_account = record hostile {
  settings =
      some (record { key = some (codes "acme_credentials"); value = some (codes "theirs") } ∷ []);
}

-- The account key is overwritten.
replaces_account :
    lookup
      (codes "acme_credentials")
      (import_config crypto (λ n. nonce) now (λ c k. true) with_account started).1.db.settings
    ≡ some (codes "theirs")
unfolding runs
replaces_account = refl

app-IsWhole : IsWhole app.db.proxy_rules
app-IsWhole = (((refl, tt), (tt, tt)), (refl, (refl, tt)))

started-CanEncrypt : CanEncrypt crypto started.db
unfolding runs
started-CanEncrypt = (refl, λ key nonce plain. refl)

export_config-import_config_example :
    let after =
      import_config crypto (λ n. nonce) now (λ c k. true) (export_config crypto app) started in
    (is_ok after.0 ≡ true)
    × ((export_config crypto after.1).proxy_rules ≡ (export_config crypto app).proxy_rules)
export_config-import_config_example =
    export_config-import_config crypto (λ n. nonce) now (λ c k. true) app started app-IsWhole
      started-CanEncrypt

-- A rule twice: the import fails, and the rules that it deleted are there.
abbrev twice : Backup
twice = record hostile { proxy_rules = some (rule_entry shop_rule ∷ rule_entry shop_rule ∷ []) }

rolled_back : import_config crypto (λ n. nonce) now (λ c k. true) twice app ≡ (err database, app)
unfolding runs
rolled_back = refl

-- A port is taken from the backup as it is.
abbrev bad_port : Backup
bad_port = record hostile {
  port_groups = some (
      record {
        id = some (codes "g9");
        name = some (codes "x");
        listen_port = some (pos 0);
        enabled = none;
        skip_tls_verify = none;
        force_https = none;
      }
      ∷ []);
}

port_zero :
    any
      (λ g. text_eq g.id (codes "g9"))
      (import_config crypto (λ n. nonce) now (λ c k. true) bad_port app).1.db.port_groups
    ≡ true
unfolding runs
port_zero = refl
