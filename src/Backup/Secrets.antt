-- ===== src/Backup/Secrets.antt =====
-- The settings that an import of backend/src/api/settings.rs leaves alone.
use unver.Prelude.{
  All, codes, inl, inr, Bool, true, false, List, [], ◌∷◌, ◌≡◌, refl, ap, ◌∙◌, unwrap_or, arith, ℕ,
  Text, text_eq, text_eq_iff, is_empty, Bool-cases,
}
use unver.Prelude.Assoc.{Assoc, lookup, insert, lookup-insert}
use unver.Errors.{ok}
use unver.Security.{Crypto}
use unver.State.{Db, AppState}
use unver.Security.Secrets.{Result-cases}
use unver.Certs.{load_certs_to_cache}
use unver.Backup.{SettingEntry, Backup, Imported}
use unver.Backup.Importing.{
  lacks_all, committed, text_of, is_protected, import_settings, import_certs, rules_after,
  transaction, import_config,
}

module _ (key : Text) (protected : is_protected key ≡ true) where
  insert-lookup :
      (other value : Text) (m : Assoc Text)
      → is_protected other ≡ false
      → lookup key (insert other value m) ≡ lookup key m
  insert-lookup other value m h = elim (Bool-cases (text_eq other key)) [
    | inl e ↦ let same : other ≡ key = (text_eq_iff other key).0 e in absurd (cc)
    | inr e ↦ rw (lookup-insert other key value m, e) refl
  ]

  import_settings-lookup :
      (es : List SettingEntry) (m : Assoc Text) → lookup key (import_settings es m).0 ≡ lookup key m
  unfolding import_settings
  import_settings-lookup [] m = refl
  import_settings-lookup (e ∷ es) m =
      let key' = text_of e.key in
      let later = import_settings-lookup es m in
      let stored = import_settings-lookup es (insert key' (text_of e.value) m) in
      elim (Bool-cases (is_protected key')) [
        | inl p ↦ elim (Bool-cases (is_empty key')) [
          | inl q ↦ rw (p, q) later
          | inr q ↦ rw (p, q) later
        ]
        | inr p ↦ elim (Bool-cases (is_empty key')) [
          | inl q ↦ rw (p, q) later
          | inr q ↦ rw (p, q) (stored ∙ insert-lookup key' (text_of e.value) m p)
        ]
      ]

module _ (crypto : Crypto) (nonces : ℕ → List ℕ) (now : Text) where
  transaction-settings :
      (body : Backup) (db : Db) (r : Imported × Db)
      → transaction crypto nonces now body db ≡ ok r
      → r.1.settings ≡ (import_settings (unwrap_or body.settings []) db.settings).0
  unfolding transaction
  transaction-settings body db r h =
      elim (Result-cases
        (import_certs crypto nonces now db 0 (unwrap_or body.certificates []) db.certificates)) [
          | inl (x, e) ↦ absurd (ground arith)
          | inr (certs, e) ↦
              elim (Result-cases (rules_after crypto nonces now body.proxy_rules db.proxy_rules)) [
                | inl (x, f) ↦ absurd (ground arith)
                | inr (rules, f) ↦
                    let same : ok (committed crypto nonces now body db certs rules) ≡ ok r =
                      rw (transaction, e, f) at h in
                    cc
              ]
        ]

import_config-lookup :
    (crypto : Crypto) (nonces : ℕ → List ℕ) (now : Text) (parses : Text → Text → Bool)
    (body : Backup) (s : AppState) (key : Text)
    → is_protected key ≡ true
    → lookup key (import_config crypto nonces now parses body s).1.db.settings
      ≡ lookup key s.db.settings
unfolding import_config load_certs_to_cache
import_config-lookup crypto nonces now parses body s key p =
    elim (Bool-cases (lacks_all crypto nonces now body)) [
      | inl e ↦ rw e refl
      | inr e ↦ elim (Result-cases (transaction crypto nonces now body s.db)) [
        | inl (x, f) ↦ rw (e, f) refl
        | inr ((n, db), f) ↦
            rw (e, f)
              (ap (lookup key) (transaction-settings crypto nonces now body s.db (n, db) f)
                ∙ import_settings-lookup key p (unwrap_or body.settings []) s.db.settings)
      ]
    ]

-- The keys under which the program keeps the secret of the tokens, the mark that the set-up is done, the
-- token of Cloudflare and the secret of Aliyun.
abbrev pub kept_keys : List Text
kept_keys =
    codes "jwt_secret"
    ∷ codes "setup_complete"
    ∷ codes "ddns_cf_token"
    ∷ codes "ddns_aliyun_access_key_secret"
    ∷ []

-- An import leaves the secret of the tokens, the mark that the set-up is done, the token of Cloudflare and
-- the secret of Aliyun as they were, whatever the backup holds and whether the import succeeds or not.
pub import_config-protects :
    (crypto : Crypto) (nonces : ℕ → List ℕ) (now : Text) (parses : Text → Text → Bool)
    (body : Backup) (s : AppState)
    → All
        (λ key.
          lookup key (import_config crypto nonces now parses body s).1.db.settings
          ≡ lookup key s.db.settings)
        kept_keys
import_config-protects crypto nonces now parses body s =
    let kept : (key : Text) → is_protected key ≡ true → _ =
      import_config-lookup crypto nonces now parses body s in
    (
      kept (codes "jwt_secret") refl,
      (
        kept (codes "setup_complete") refl,
        (
          kept (codes "ddns_cf_token") refl,
          (kept (codes "ddns_aliyun_access_key_secret") refl, tt),
        ),
      ),
    )
