-- ===== src/Settings/Saved.antt =====
-- What `get_settings` shows after `update_settings` of backend/src/api/settings.rs.
use unver.Prelude.{
  ℕ, ◌-◌, ◌^◌, ◌≤◌, ◌≡◌, refl, ap, ◌∙◌, Bool, true, false, Option, none, some, [], arith, Text,
  codes, text_eq, unwrap_or, inl, inr,
}
use unver.Prelude.Int.{decimal}
use unver.Prelude.Decimal.{parse_uint-decimal}
use unver.Errors.{ok, err}
use unver.State.{Db, get_setting}
use unver.Action.{Ensures, bind-Ensures}
use unver.Security.{Crypto, get_secret_setting}
use unver.Security.Secrets.{Result-cases}
use unver.Settings.Page.{
  AppSettings, UpdateSettings, Env, is_true, flag, interval_of, port_of, shown, get_settings,
  save_settings, update_settings,
}
use unver.Settings.Turns.{◌⊳◌, plain, given, written, save_settings-Turns}

read-given :
    {A : Type 0} (print : A → Text) (read : Text → A) (o : Option A) (t : Text)
    → ((a : A) → o ≡ some a → read (print a) ≡ a)
    → read (given print o t) ≡ unwrap_or o (read t)
read-given print read none t h = refl
read-given print read (some a) t h = h a refl

is_true-flag : (b : Bool) → is_true (flag b) ≡ b
is_true-flag true = refl
is_true-flag false = refl

-- `r` is the page `old` with the fields that `body` has put over it. The secrets are left aside.
abbrev pub IsOver : UpdateSettings → AppSettings → AppSettings → Type 0
IsOver body old r =
    (r.api_auth_enabled ≡ unwrap_or body.api_auth_enabled old.api_auth_enabled)
    × (r.setup_complete ≡ old.setup_complete)
    × (r.acme_email ≡ unwrap_or body.acme_email old.acme_email)
    × (r.ddns_enabled ≡ unwrap_or body.ddns_enabled old.ddns_enabled)
    × (r.ddns_provider ≡ unwrap_or body.ddns_provider old.ddns_provider)
    × (r.ddns_domain ≡ unwrap_or body.ddns_domain old.ddns_domain)
    × (r.ddns_domains ≡ unwrap_or body.ddns_domains old.ddns_domains)
    × (r.ddns_interval ≡ unwrap_or body.ddns_interval old.ddns_interval)
    × (r.ddns_ip_source ≡ unwrap_or body.ddns_ip_source old.ddns_ip_source)
    × (r.username ≡ old.username)
    × (r.web_port ≡ unwrap_or body.web_port old.web_port)
    × (r.web_interface ≡ unwrap_or body.web_interface old.web_interface)
    × (r.panel_lan_only ≡ some (unwrap_or body.panel_lan_only (unwrap_or old.panel_lan_only false)))
    × (r.trusted_proxy ≡ some (unwrap_or body.trusted_proxy (unwrap_or old.trusted_proxy [])))
    × (r.acme_provider ≡ unwrap_or body.acme_provider old.acme_provider)

-- Every number of the body fits its type.
abbrev pub IsSized : UpdateSettings → Type 0
IsSized body =
    ((n : ℕ) → body.ddns_interval ≡ some n → n ≤ 2 ^ 64 - 1)
    × ((n : ℕ) → body.web_port ≡ some n → n ≤ 65535)

interval_of-decimal : (n : ℕ) → n ≤ 2 ^ 64 - 1 → interval_of (decimal n) ≡ n
unfolding interval_of
interval_of-decimal n l = rw (parse_uint-decimal (2 ^ 64 - 1) n (omega arith) l) refl

port_of-decimal : (n : ℕ) → n ≤ 65535 → port_of (decimal n) ≡ n
unfolding port_of
port_of-decimal n l = rw (parse_uint-decimal 65535 n (omega arith) l) refl

abbrev Holds : UpdateSettings → Db → Db → Type 0
Holds body db d =
    (key : Text)
    → text_eq (codes "ddns_cf_token") key ≡ false
    → text_eq (codes "ddns_aliyun_access_key_id") key ≡ false
    → text_eq (codes "ddns_aliyun_access_key_secret") key ≡ false
    → get_setting d key ≡ written key body (get_setting db key)

shown-IsOver :
    (crypto : Crypto) (body : UpdateSettings) (db d : Db) (t u : Text)
    → IsSized body
    → Holds body db d
    → IsOver body (shown crypto db t) (shown crypto d u)
unfolding ◌⊳◌
shown-IsOver crypto body db d t u (sized, small) h = (
  ap is_true (h (codes "api_auth_enabled") refl refl refl)
      ∙ read-given flag is_true body.api_auth_enabled _ (λ b e. is_true-flag b),
  ap is_true (h (codes "setup_complete") refl refl refl),
  h (codes "acme_email") refl refl refl ∙ read-given plain plain body.acme_email _ (λ v e. refl),
  ap is_true (h (codes "ddns_enabled") refl refl refl)
      ∙ read-given flag is_true body.ddns_enabled _ (λ b e. is_true-flag b),
  h (codes "ddns_provider") refl refl refl
      ∙ read-given plain plain body.ddns_provider _ (λ v e. refl),
  h (codes "ddns_domain") refl refl refl ∙ read-given plain plain body.ddns_domain _ (λ v e. refl),
  h (codes "ddns_domains") refl refl refl
      ∙ read-given plain plain body.ddns_domains _ (λ v e. refl),
  ap interval_of (h (codes "ddns_interval") refl refl refl)
      ∙ read-given decimal interval_of body.ddns_interval _
          (λ n e. interval_of-decimal n (sized n e)),
  h (codes "ddns_ip_source") refl refl refl
      ∙ read-given plain plain body.ddns_ip_source _ (λ v e. refl),
  h (codes "username") refl refl refl,
  ap port_of (h (codes "web_port") refl refl refl)
      ∙ read-given decimal port_of body.web_port _ (λ n e. port_of-decimal n (small n e)),
  h (codes "web_interface") refl refl refl
      ∙ read-given plain plain body.web_interface _ (λ v e. refl),
  ap (λ v. some (is_true v)) (h (codes "panel_lan_only") refl refl refl)
      ∙ ap some (read-given flag is_true body.panel_lan_only _ (λ b e. is_true-flag b)),
  ap some (
      h (codes "trusted_proxy") refl refl refl
      ∙ read-given plain plain body.trusted_proxy _ (λ v e. refl)),
  h (codes "acme_provider") refl refl refl
      ∙ read-given plain plain body.acme_provider _ (λ v e. refl),
)

get_settings-shown :
    (crypto : Crypto) (db : Db) (r : AppSettings)
    → get_settings crypto db ≡ ok r
    → (token : Text) × (r ≡ shown crypto db token)
unfolding get_settings
get_settings-shown crypto db r e =
    elim (Result-cases (get_secret_setting crypto db (codes "ddns_cf_token"))) [
      | inl (x, failed) ↦
          let now : get_settings crypto db ≡ err x = rw (get_settings, failed) refl in absurd cc
      | inr (token, found) ↦
          let now : get_settings crypto db ≡ ok (shown crypto db token) =
            rw (get_settings, found) refl in
          (token, cc)
    ]

saved-Ensures :
    (env : Env) (body : UpdateSettings) (db : Db)
    → Ensures
        (λ r d. (get_settings env.crypto d ≡ ok r) × Holds body db d)
        (update_settings env body)
        db
unfolding update_settings Ensures
saved-Ensures env body db =
    let goal : AppSettings → Db → Type 0 =
      λ r d. (get_settings env.crypto d ≡ ok r) × Holds body db d in
    bind-Ensures goal (save_settings env body) _ db λ a e r f.
      (f, λ key n n_id n_secret. (save_settings-Turns key env body n n_id n_secret).turns db a e)

-- Where `update_settings` succeeds, the page that it returns is the page as it was before, with the
-- fields of the body put over it, if the numbers of the body fit their types; the secrets are left aside.
pub update_settings-IsOver :
    (env : Env) (body : UpdateSettings) (db : Db) (old r : AppSettings)
    → IsSized body
    → get_settings env.crypto db ≡ ok old
    → (update_settings env body db).0 ≡ ok r
    → IsOver body old r
unfolding Ensures
update_settings-IsOver env body db old r sized before e =
    let (now, holds) = saved-Ensures env body db r e in
    let (t, same) = get_settings-shown env.crypto db old before in
    let (u, result) = get_settings-shown env.crypto (update_settings env body db).1 r now in
    rw (same, result)
      (shown-IsOver env.crypto body db (update_settings env body db).1 t u sized holds)
