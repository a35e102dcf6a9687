-- ===== src/Tests/Settings.antt =====
-- Runs of saving settings.
use unver.Prelude.{◌<◌, ◌==◌, ◌≡◌, refl, true, none, some, codes, length, arith}
use unver.Prelude.Utf8.{from_utf8}
use unver.Prelude.Int.{parse_uint, parse_digits}
use unver.Errors.{ok}
use unver.Prelude.Assoc.{lookup, insert}
use unver.State.{Db, get_setting, set_setting}
use unver.Security.{get_secret_setting, set_secret_setting, encrypt_data, decrypt_data}
use unver.Settings.{cf_token, is_masked, update_token}
use unver.Settings.Page.{
  AppSettings, UpdateSettings, Env, shown, get_settings, save_settings, update_settings, port_of,
}
use unver.Settings.Saved.{IsOver, update_settings-IsOver}
use unver.Tests.Data.{db}
use unver.Tests.Crypto.{crypto, nonce}

abbrev tokened : Db
tokened = set_setting (codes "ddns_cf_token") (codes "0123456789abcdef") db

long : 8 < length (cf_token crypto tokened)
unfolding get_secret_setting get_setting set_setting lookup insert
long = omega arith

abbrev env : Env
env = record {
  crypto = crypto;
  token_nonce = nonce;
  key_id_nonce = nonce;
  secret_nonce = nonce;
  can_bind = λ port. port == 8080;
}

abbrev change : UpdateSettings
change = record {
  api_auth_enabled = some true;
  acme_email = some (codes "a@b.c");
  ddns_enabled = none;
  ddns_provider = none;
  ddns_cf_token = some (codes "fedcba9876543210");
  ddns_aliyun_access_key_id = some (codes "");
  ddns_aliyun_access_key_secret = none;
  ddns_domain = none;
  ddns_domains = none;
  ddns_interval = some 600;
  ddns_ip_source = none;
  web_port = some 8080;
  web_interface = none;
  panel_lan_only = none;
  trusted_proxy = none;
  acme_provider = none;
}

abbrev page : AppSettings
page = shown crypto tokened (codes "0123456789abcdef")

abbrev changed : Db
changed = (update_settings env change tokened).1

abbrev page_after : AppSettings
page_after = shown crypto changed (codes "fedcba9876543210")

read_before : get_settings crypto tokened ≡ ok page
unfolding get_settings get_secret_setting get_setting set_setting lookup insert
read_before = refl

saved : (update_settings env change tokened).0 ≡ ok page_after
unfolding update_settings save_settings update_token set_secret_setting encrypt_data decrypt_data
    from_utf8 get_settings get_secret_setting get_setting set_setting lookup insert parse_uint
    parse_digits port_of is_masked
saved = refl

update_settings-IsOver_example : IsOver change page page_after
update_settings-IsOver_example =
    update_settings-IsOver env change tokened page page_after
      (
        (λ n e. let same : 600 ≡ n = cc in omega arith),
        (λ n e. let same : 8080 ≡ n = cc in omega arith),
      )
      read_before saved
