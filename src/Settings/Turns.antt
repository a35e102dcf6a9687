-- ===== src/Settings/Turns.antt =====
-- What each setting becomes in `save_settings`, the writes of `update_settings` of
-- backend/src/api/settings.rs.
use unver.Prelude.{
  ℕ, ◌≡◌, refl, ap, ◌∙◌, Bool, false, Option, none, some, List, Text, codes, text_eq, text_eq_refl,
  Bool-cases, inl, inr, if◌then◌else◌,
}
use unver.Prelude.Assoc.{lookup-insert}
use unver.Prelude.Int.{decimal}
use unver.State.{Db, get_setting, set_setting}
use unver.Action.{
  Action, Keeps, Ensures, Ensures-map, bind-Ensures, modify, guarded, for_some, for_some-Keeps,
  ◌>>◌,
}
use unver.Settings.{update_token}
use unver.Settings.Page.{
  UpdateSettings, Env, flag, set_secret, set_web_port, check_web_port, save_settings,
}
use unver.Settings.Frame.{Same, update_token-Same, set_secret-Same}

abbrev pub plain : Text → Text
plain t = t

abbrev pub given : {A : Type 0} → (A → Text) → Option A → Text → Text
given print none old = old
given print (some a) old = print a

-- What the setting `key` becomes where `k` is set to an optional value.
abbrev over : {A : Type 0} → Text → (A → Text) → Option A → Text → Text → Text
over k print o key old = if text_eq k key then given print o old else old

infixr 6 ◌⊳◌
unfoldable pub ◌⊳◌ : (Text → Text) → (Text → Text) → Text → Text
◌⊳◌ f g old = g (f old)

abbrev pub Reads : Text → Text → Unit {0} → Db → Type 0
Reads key value a db = get_setting db key ≡ value

-- Where the action succeeds, the setting becomes what `w` says.
pub record Turns (key : Text) (w : Text → Text) (m : Action Db (Unit {0})) : Type 0 where
  pub turns : (db : Db) → Ensures (Reads key (w (get_setting db key))) m db

then-Turns :
    (key : Text) (w v : Text → Text) (m k : Action Db (Unit {0})) (db : Db)
    → Turns key w m
    → Turns key v k
    → Ensures (Reads key ((w ⊳ v) (get_setting db key))) (m >> k) db
unfolding ◌⊳◌ Ensures
then-Turns key w v m k db h g =
    let goal = Reads key (v (w (get_setting db key))) in
    bind-Ensures goal m (λ _. k) db
      λ a e.
        Ensures-map goal (Reads key (v (get_setting (m db).1 key))) k (m db).1
          (λ b t q. q ∙ ap v (h.turns db a e)) (g.turns (m db).1)

infixr 6 ◌▹◌
◌▹◌ :
    {key : Text} {w v : Text → Text} {m k : Action Db (Unit {0})}
    → Turns key w m
    → Turns key v k
    → Turns key (w ⊳ v) (m >> k)
◌▹◌ {key = key} {w = w} {v = v} {m = m} {k = k} h g = record {
  turns = λ db. then-Turns key w v m k db h g;
}

module _ (key : Text) where
  set-turns :
      {A : Type 0} (k : Text) (print : A → Text) (o : Option A) (db : Db)
      → Ensures
          (Reads key (over k print o key (get_setting db key)))
          (for_some o λ a. modify (set_setting k (print a)))
          db
  unfolding Ensures get_setting set_setting
  set-turns k print none db a e = elim (Bool-cases (text_eq k key)) [
    | inl y ↦ rw y refl
    | inr n ↦ rw n refl
  ]
  set-turns k print (some v) db a e = elim (Bool-cases (text_eq k key)) [
    | inl y ↦ rw (lookup-insert k key (print v) db.settings, y) refl
    | inr n ↦ rw (lookup-insert k key (print v) db.settings, n) refl
  ]

  set-Turns :
      {A : Type 0} (k : Text) (print : A → Text) (o : Option A)
      → Turns key (over k print o key) (for_some o λ a. modify (set_setting k (print a)))
  set-Turns k print o = record { turns = set-turns k print o }

  kept-Turns :
      (writes : Text → Bool) (fixed : writes key ≡ false) (m : Action Db (Unit {0}))
      → ((before : Db) → Keeps (Same writes key fixed before) m)
      → Turns key plain m
  unfolding Ensures Keeps
  kept-Turns writes fixed m h = record { turns = λ db a e. (h db db (refl, refl)).0 }

  port-turns :
      (env : Env) (o : Option ℕ) (db : Db)
      → Ensures
          (Reads key (over (codes "web_port") decimal o key (get_setting db key)))
          (set_web_port env o)
          db
  port-turns env none db = set-turns (codes "web_port") decimal none db
  port-turns env (some port) db =
      bind-Ensures _ (guarded (check_web_port env port)) _ db
        λ a e. set-turns (codes "web_port") decimal (some port) db

  port-Turns :
      (env : Env) (o : Option ℕ)
      → Turns key (over (codes "web_port") decimal o key) (set_web_port env o)
  port-Turns env o = record { turns = port-turns env o }

  secret-Turns :
      (env : Env) (nonce : List ℕ) (k : Text) (o : Option Text)
      → text_eq k key ≡ false
      → Turns key plain (set_secret env nonce k o)
  secret-Turns env nonce k o n =
      kept-Turns (text_eq k) n (set_secret env nonce k o)
        λ before. (set_secret-Same (text_eq k) key n before env nonce k o (text_eq_refl k)).keeps

  token-Turns :
      (env : Env) (o : Option Text)
      → text_eq (codes "ddns_cf_token") key ≡ false
      → Turns key plain (for_some o (update_token env.crypto env.token_nonce))
  token-Turns env o n =
      let writes = text_eq (codes "ddns_cf_token") in
      kept-Turns writes n (for_some o (update_token env.crypto env.token_nonce)) λ before.
        for_some-Keeps (Same writes key n before) o _
          λ v. update_token-Same writes key n before env.crypto env.token_nonce v refl

  -- What the setting becomes where it is none of the secrets.
  abbrev pub written : UpdateSettings → Text → Text
  written body =
      over (codes "api_auth_enabled") flag body.api_auth_enabled key
      ⊳ over (codes "acme_email") plain body.acme_email key
      ⊳ over (codes "ddns_enabled") flag body.ddns_enabled key
      ⊳ plain
      ⊳ plain
      ⊳ plain
      ⊳ over (codes "ddns_domain") plain body.ddns_domain key
      ⊳ over (codes "ddns_interval") decimal body.ddns_interval key
      ⊳ over (codes "ddns_ip_source") plain body.ddns_ip_source key
      ⊳ over (codes "ddns_provider") plain body.ddns_provider key
      ⊳ over (codes "ddns_domains") plain body.ddns_domains key
      ⊳ over (codes "web_port") decimal body.web_port key
      ⊳ over (codes "web_interface") plain body.web_interface key
      ⊳ over (codes "panel_lan_only") flag body.panel_lan_only key
      ⊳ over (codes "trusted_proxy") plain body.trusted_proxy key
      ⊳ over (codes "acme_provider") plain body.acme_provider key

  pub save_settings-Turns :
      (env : Env) (body : UpdateSettings)
      → text_eq (codes "ddns_cf_token") key ≡ false
      → text_eq (codes "ddns_aliyun_access_key_id") key ≡ false
      → text_eq (codes "ddns_aliyun_access_key_secret") key ≡ false
      → Turns key (written body) (save_settings env body)
  unfolding save_settings
  save_settings-Turns env body n n_id n_secret =
      set-Turns (codes "api_auth_enabled") flag body.api_auth_enabled
      ▹ set-Turns (codes "acme_email") plain body.acme_email
      ▹ set-Turns (codes "ddns_enabled") flag body.ddns_enabled
      ▹ token-Turns env body.ddns_cf_token n
      ▹ secret-Turns env env.key_id_nonce (codes "ddns_aliyun_access_key_id")
          body.ddns_aliyun_access_key_id n_id
      ▹ secret-Turns env env.secret_nonce (codes "ddns_aliyun_access_key_secret")
          body.ddns_aliyun_access_key_secret n_secret
      ▹ set-Turns (codes "ddns_domain") plain body.ddns_domain
      ▹ set-Turns (codes "ddns_interval") decimal body.ddns_interval
      ▹ set-Turns (codes "ddns_ip_source") plain body.ddns_ip_source
      ▹ set-Turns (codes "ddns_provider") plain body.ddns_provider
      ▹ set-Turns (codes "ddns_domains") plain body.ddns_domains
      ▹ port-Turns env body.web_port
      ▹ set-Turns (codes "web_interface") plain body.web_interface
      ▹ set-Turns (codes "panel_lan_only") flag body.panel_lan_only
      ▹ set-Turns (codes "trusted_proxy") plain body.trusted_proxy
      ▹ set-Turns (codes "acme_provider") plain body.acme_provider
