-- ===== src/Settings/Page.antt =====
-- `get_settings` and `update_settings` of backend/src/api/settings.rs, with `AppSettings` and
-- `UpdateSettings` of backend/src/models.rs. A setting that is missing is read as the empty text.
use unver.Prelude.{
  ℕ, ◌-◌, ◌^◌, Bool, not, ◌&&◌, ◌==◌, Option, some, List, ◌++◌, Text, codes, text_eq, is_empty,
  unwrap_or, if◌then◌else◌,
}
use unver.Prelude.Int.{decimal, parse_uint}
use unver.Errors.{AppResult, ok, err, bad_request}
use unver.State.{Db, get_setting, set_setting}
use unver.Action.{Action, guarded, reads, modify, for_some, ◌>>◌}
use unver.Security.{Crypto, get_secret_setting, set_secret_setting}
use unver.Settings.{mask_token, or_default, update_token}

pub record AppSettings : Type 0 where
  pub api_auth_enabled : Bool
  pub setup_complete : Bool
  pub acme_email : Text
  pub ddns_enabled : Bool
  pub ddns_provider : Text
  pub ddns_cf_token : Text
  pub ddns_aliyun_access_key_id : Text
  pub ddns_aliyun_access_key_secret : Text
  pub ddns_domain : Text
  pub ddns_domains : Text
  pub ddns_interval : ℕ
  pub ddns_ip_source : Text
  pub username : Text
  pub web_port : ℕ
  pub web_interface : Text
  pub panel_lan_only : Option Bool
  pub trusted_proxy : Option Text
  pub acme_provider : Text

pub record UpdateSettings : Type 0 where
  pub api_auth_enabled : Option Bool
  pub acme_email : Option Text
  pub ddns_enabled : Option Bool
  pub ddns_provider : Option Text
  pub ddns_cf_token : Option Text
  pub ddns_aliyun_access_key_id : Option Text
  pub ddns_aliyun_access_key_secret : Option Text
  pub ddns_domain : Option Text
  pub ddns_domains : Option Text
  pub ddns_interval : Option ℕ
  pub ddns_ip_source : Option Text
  pub web_port : Option ℕ
  pub web_interface : Option Text
  pub panel_lan_only : Option Bool
  pub trusted_proxy : Option Text
  pub acme_provider : Option Text

-- What the handlers take from outside: a nonce for each of the secrets, and whether a socket can be
-- bound to a port.
pub record Env : Type 0 where
  pub crypto : Crypto
  pub token_nonce : List ℕ
  pub key_id_nonce : List ℕ
  pub secret_nonce : List ℕ
  pub can_bind : ℕ → Bool

abbrev pub is_true : Text → Bool
is_true value = text_eq value (codes "true")

abbrev pub flag : Bool → Text
flag b = if b then codes "true" else codes "false"

-- `parse::<u64>().unwrap_or(300)`
unfoldable pub interval_of : Text → ℕ
interval_of value = unwrap_or (parse_uint (2 ^ 64 - 1) value) 300

-- `parse::<u16>().unwrap_or(19688)`
unfoldable pub port_of : Text → ℕ
port_of value = unwrap_or (parse_uint 65535 value) 19688

module _ (crypto : Crypto) where
  abbrev pub shown : Db → Text → AppSettings
  shown db token = record {
    api_auth_enabled = is_true (get_setting db (codes "api_auth_enabled"));
    setup_complete = is_true (get_setting db (codes "setup_complete"));
    acme_email = get_setting db (codes "acme_email");
    ddns_enabled = is_true (get_setting db (codes "ddns_enabled"));
    ddns_provider = get_setting db (codes "ddns_provider");
    ddns_cf_token = mask_token token;
    ddns_aliyun_access_key_id =
        or_default (get_secret_setting crypto db (codes "ddns_aliyun_access_key_id"));
    ddns_aliyun_access_key_secret =
        or_default (get_secret_setting crypto db (codes "ddns_aliyun_access_key_secret"));
    ddns_domain = get_setting db (codes "ddns_domain");
    ddns_domains = get_setting db (codes "ddns_domains");
    ddns_interval = interval_of (get_setting db (codes "ddns_interval"));
    ddns_ip_source = get_setting db (codes "ddns_ip_source");
    username = get_setting db (codes "username");
    web_port = port_of (get_setting db (codes "web_port"));
    web_interface = get_setting db (codes "web_interface");
    panel_lan_only = some (is_true (get_setting db (codes "panel_lan_only")));
    trusted_proxy = some (get_setting db (codes "trusted_proxy"));
    acme_provider = get_setting db (codes "acme_provider");
  }

  unfoldable pub get_settings : Db → AppResult AppSettings
  get_settings db = elim (get_secret_setting crypto db (codes "ddns_cf_token")) [
    | ok token ↦ ok (shown db token)
    | err e ↦ err e
  ]

abbrev pub set_text : Text → Option Text → Action Db (Unit {0})
set_text key value = for_some value λ v. modify (set_setting key v)

abbrev pub set_flag : Text → Option Bool → Action Db (Unit {0})
set_flag key value = for_some value λ b. modify (set_setting key (flag b))

abbrev pub set_number : Text → Option ℕ → Action Db (Unit {0})
set_number key value = for_some value λ n. modify (set_setting key (decimal n))

module _ (env : Env) where
  -- An empty text leaves the stored one.
  abbrev pub set_secret : List ℕ → Text → Option Text → Action Db (Unit {0})
  set_secret nonce key value =
      for_some value λ v db.
        if not (is_empty v) then set_secret_setting env.crypto nonce key v db else (ok tt, db)

  -- The port is tried where it changes.
  abbrev pub check_web_port : ℕ → Db → AppResult (Unit {0})
  check_web_port port db =
      if not (port == port_of (get_setting db (codes "web_port"))) && not (env.can_bind port)
      then err
          (bad_request (codes "Port " ++ (decimal port ++ codes " is occupied by another process")))
      else ok tt

  abbrev pub set_web_port : Option ℕ → Action Db (Unit {0})
  set_web_port value = for_some value λ port.
      guarded (check_web_port port) >> modify (set_setting (codes "web_port") (decimal port))

  unfoldable pub save_settings : UpdateSettings → Action Db (Unit {0})
  save_settings body = do
    set_flag (codes "api_auth_enabled") body.api_auth_enabled
    set_text (codes "acme_email") body.acme_email
    set_flag (codes "ddns_enabled") body.ddns_enabled
    for_some body.ddns_cf_token (update_token env.crypto env.token_nonce)
    set_secret env.key_id_nonce (codes "ddns_aliyun_access_key_id") body.ddns_aliyun_access_key_id
    set_secret env.secret_nonce (codes "ddns_aliyun_access_key_secret")
        body.ddns_aliyun_access_key_secret
    set_text (codes "ddns_domain") body.ddns_domain
    set_number (codes "ddns_interval") body.ddns_interval
    set_text (codes "ddns_ip_source") body.ddns_ip_source
    set_text (codes "ddns_provider") body.ddns_provider
    set_text (codes "ddns_domains") body.ddns_domains
    set_web_port body.web_port
    set_text (codes "web_interface") body.web_interface
    set_flag (codes "panel_lan_only") body.panel_lan_only
    set_text (codes "trusted_proxy") body.trusted_proxy
    set_text (codes "acme_provider") body.acme_provider

  unfoldable pub update_settings : UpdateSettings → Action Db AppSettings
  update_settings body = save_settings body >> reads (get_settings env.crypto)
