-- ===== src/Settings/Frame.antt =====
-- What `update_settings` of backend/src/api/settings.rs does not touch.
use unver.Prelude.{
  ℕ, ◌≡◌, refl, ap, Bool, true, false, Option, List, [], ◌∷◌, ◌++◌, Text, codes, text_eq,
  text_eq_iff, any, Bool-cases, inl, inr, if◌then◌else◌,
}
use unver.Prelude.Assoc.{lookup-insert}
use unver.Errors.{ok}
use unver.State.{Db, get_setting, set_setting}
use unver.Action.{
  Action, modify, for_some, Keeps, Chain, ◌▸◌, bind-Keeps, modify-Keeps, for_some-Keeps,
  reads-Keeps, guarded-Keeps, gets-Keeps,
}
use unver.Security.{Crypto, encrypt_data, set_secret_setting}
use unver.Prelude.Int.{decimal}
use unver.Settings.{update_token}
use unver.Settings.Page.{
  UpdateSettings, Env, flag, set_text, set_flag, set_number, set_secret, set_web_port,
  check_web_port, get_settings, save_settings, update_settings,
}

-- The settings that the page of settings can change.
abbrev pub editable : List Text
editable =
    codes "api_auth_enabled"
    ∷ codes "acme_email"
    ∷ codes "ddns_enabled"
    ∷ codes "ddns_cf_token"
    ∷ codes "ddns_aliyun_access_key_id"
    ∷ codes "ddns_aliyun_access_key_secret"
    ∷ codes "ddns_domain"
    ∷ codes "ddns_interval"
    ∷ codes "ddns_ip_source"
    ∷ codes "ddns_provider"
    ∷ codes "ddns_domains"
    ∷ codes "web_port"
    ∷ codes "web_interface"
    ∷ codes "panel_lan_only"
    ∷ codes "trusted_proxy"
    ∷ codes "acme_provider"
    ∷ []

abbrev pub is_editable : Text → Bool
is_editable key = any (text_eq key) editable

-- All tables but that of the settings.
abbrev pub other_tables : Db → Db
other_tables db = record db { settings = [] }

module _ (writes : Text → Bool) (key : Text) (fixed : writes key ≡ false) (before : Db) where
  abbrev pub Same : Db → Type 0
  Same db = (get_setting db key ≡ get_setting before key) × (other_tables db ≡ other_tables before)

  set_setting-Same :
      (k v : Text) → writes k ≡ true → (db : Db) → Same db → Same (set_setting k v db)
  unfolding get_setting set_setting
  set_setting-Same k v e db (h, t) = elim (Bool-cases (text_eq k key)) [
    | inl y ↦ let same : k ≡ key = (text_eq_iff k key).0 y in absurd (cc (ap writes same, e, fixed))
    | inr n ↦ (rw (lookup-insert k key v db.settings, n) h, t)
  ]

  modify-Same : (k v : Text) → writes k ≡ true → Keeps Same (modify (set_setting k v))
  modify-Same k v e = modify-Keeps Same (set_setting k v) (set_setting-Same k v e)

  set_text-Same : (k : Text) (o : Option Text) → writes k ≡ true → Chain Same (set_text k o)
  set_text-Same k o e = record { keeps = for_some-Keeps Same o _ λ v. modify-Same k v e }

  set_flag-Same : (k : Text) (o : Option Bool) → writes k ≡ true → Chain Same (set_flag k o)
  set_flag-Same k o e = record { keeps = for_some-Keeps Same o _ λ b. modify-Same k (flag b) e }

  set_number-Same : (k : Text) (o : Option ℕ) → writes k ≡ true → Chain Same (set_number k o)
  set_number-Same k o e = record {
    keeps = for_some-Keeps Same o _ λ n. modify-Same k (decimal n) e;
  }

  set_secret_setting-Same :
      (crypto : Crypto) (nonce : List ℕ) (k v : Text)
      → writes k ≡ true
      → Keeps Same (set_secret_setting crypto nonce k v)
  unfolding set_secret_setting
  set_secret_setting-Same crypto nonce k v e =
      bind-Keeps Same _ _ (gets-Keeps Same (λ db. get_setting db (codes "jwt_secret"))) λ secret.
        bind-Keeps Same _ _ (reads-Keeps Same (λ db. encrypt_data crypto nonce v secret))
          λ encrypted. modify-Same k (codes "enc:" ++ encrypted) e

  when-Same :
      (test : Db → Bool) (m : Action Db (Unit {0}))
      → Keeps Same m
      → Keeps Same (λ db. if test db then m db else (ok tt, db))
  unfolding Keeps
  when-Same test m h db s = elim (Bool-cases (test db)) [ inl e ↦ rw e (h db s) | inr e ↦ rw e s ]

  pub update_token-Same :
      (crypto : Crypto) (nonce : List ℕ) (token : Text)
      → writes (codes "ddns_cf_token") ≡ true
      → Keeps Same (update_token crypto nonce token)
  unfolding update_token
  update_token-Same crypto nonce token e =
      when-Same _ _ (set_secret_setting-Same crypto nonce (codes "ddns_cf_token") token e)

  module _ (env : Env) where
    pub set_secret-Same :
        (nonce : List ℕ) (k : Text) (o : Option Text)
        → writes k ≡ true
        → Chain Same (set_secret env nonce k o)
    set_secret-Same nonce k o e = record {
      keeps =
          for_some-Keeps Same o _
            λ v. when-Same _ _ (set_secret_setting-Same env.crypto nonce k v e);
    }

    set_web_port-Same :
        (o : Option ℕ) → writes (codes "web_port") ≡ true → Chain Same (set_web_port env o)
    set_web_port-Same o e = record {
      keeps = for_some-Keeps Same o _ λ port.
          bind-Keeps Same _ _ (guarded-Keeps Same (check_web_port env port))
            λ _. modify-Same (codes "web_port") (decimal port) e;
    }

    token-Same :
        (o : Option Text)
        → writes (codes "ddns_cf_token") ≡ true
        → Chain Same (for_some o (update_token env.crypto env.token_nonce))
    token-Same o e = record {
      keeps = for_some-Keeps Same o _ λ v. update_token-Same env.crypto env.token_nonce v e;
    }

    save_settings-Same :
        (body : UpdateSettings)
        → ((k : Text) → is_editable k ≡ true → writes k ≡ true)
        → Chain Same (save_settings env body)
    unfolding save_settings
    save_settings-Same body all =
        set_flag-Same (codes "api_auth_enabled") body.api_auth_enabled (all _ refl)
        ▸ set_text-Same (codes "acme_email") body.acme_email (all _ refl)
        ▸ set_flag-Same (codes "ddns_enabled") body.ddns_enabled (all _ refl)
        ▸ token-Same body.ddns_cf_token (all _ refl)
        ▸ set_secret-Same env.key_id_nonce (codes "ddns_aliyun_access_key_id")
            body.ddns_aliyun_access_key_id (all _ refl)
        ▸ set_secret-Same env.secret_nonce (codes "ddns_aliyun_access_key_secret")
            body.ddns_aliyun_access_key_secret (all _ refl)
        ▸ set_text-Same (codes "ddns_domain") body.ddns_domain (all _ refl)
        ▸ set_number-Same (codes "ddns_interval") body.ddns_interval (all _ refl)
        ▸ set_text-Same (codes "ddns_ip_source") body.ddns_ip_source (all _ refl)
        ▸ set_text-Same (codes "ddns_provider") body.ddns_provider (all _ refl)
        ▸ set_text-Same (codes "ddns_domains") body.ddns_domains (all _ refl)
        ▸ set_web_port-Same body.web_port (all _ refl)
        ▸ set_text-Same (codes "web_interface") body.web_interface (all _ refl)
        ▸ set_flag-Same (codes "panel_lan_only") body.panel_lan_only (all _ refl)
        ▸ set_text-Same (codes "trusted_proxy") body.trusted_proxy (all _ refl)
        ▸ set_text-Same (codes "acme_provider") body.acme_provider (all _ refl)

    update_settings-Same :
        (body : UpdateSettings)
        → ((k : Text) → is_editable k ≡ true → writes k ≡ true)
        → Keeps Same (update_settings env body)
    unfolding update_settings
    update_settings-Same body all =
        bind-Keeps Same _ _ (save_settings-Same body all).keeps
          λ _. reads-Keeps Same (get_settings env.crypto)

-- Whatever is sent to `update_settings`, and whether it succeeds or fails, it changes no setting but
-- the sixteen of the page, so neither the JWT secret, nor the user name, nor whether the set-up is
-- complete, and no other table.
pub update_settings-frame :
    (env : Env) (body : UpdateSettings) (key : Text) (db : Db)
    → is_editable key ≡ false
    → (get_setting (update_settings env body db).1 key ≡ get_setting db key)
      × (other_tables (update_settings env body db).1 ≡ other_tables db)
unfolding Keeps
update_settings-frame env body key db fixed =
    update_settings-Same is_editable key fixed db env body (λ k e. e) db (refl, refl)
