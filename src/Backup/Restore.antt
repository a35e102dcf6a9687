-- ===== src/Backup/Restore.antt =====
-- An import of what `export_config` of backend/src/api/settings.rs returned.
use mathlib.Core.List.{append_assoc, append-nil}
use unver.Prelude.{
  ℕ, suc, inl, inr, Bool, true, false, not, List, [], ◌∷◌, ◌++◌, map, some, ◌≡◌, refl, ◌∙◌, ap,
  Text, codes, text_eq, is_empty, is_some, find_first-eq-none, All, retain, All-always, All-append,
  All-zip, Bool-cases, Option-cases,
}
use unver.Prelude.Distinct.{Lacks, Distinct, text_eq_sym}
use unver.Models.{ProxyRule, Certificate}
use unver.Errors.{ok, is_ok}
use unver.State.{Db, AppState, get_setting}
use unver.Security.{Crypto, derive_key, encrypt_data}
use unver.Certs.{load_certs_to_cache}
use unver.Certificates.{encrypt_key_for_db}
use unver.Backup.{CertEntry, rule_entry, cert_entry, export_config}
use unver.Backup.Importing.{
  text_of, imported_rule, is_skipped, import_rules, import_certs, lacks_field, conflicts,
  imported_cert, transaction, import_config,
}

abbrev rule_id : ProxyRule → Text
rule_id r = r.id

-- The ids are all different, and no rule lacks its id, name, domain or target.
abbrev pub IsWhole : List ProxyRule → Type 0
IsWhole rs = Distinct rule_id rs × All (λ r. is_skipped (rule_entry r) ≡ false) rs

-- The rule as the import stores it.
abbrev pub restored : Text → ProxyRule → ProxyRule
restored now r = imported_rule now (rule_entry r)

module _ (now : Text) where
  later_apart :
      (r : ProxyRule) (rs done : List ProxyRule)
      → Lacks rule_id r.id rs
      → All (λ q. Lacks rule_id q.id done) rs
      → All (λ q. Lacks rule_id q.id (done ++ restored now r ∷ [])) rs
  later_apart r rs done l a =
      All-zip (λ q. text_eq q.id r.id ≡ false) (λ q. Lacks rule_id q.id done)
        (λ q. Lacks rule_id q.id (done ++ restored now r ∷ []))
        (λ q e d.
          All-append (λ x. text_eq x.id q.id ≡ false) done (restored now r ∷ []) d
            (text_eq_sym q.id r.id e, tt))
        rs l a

  import_rules-exported :
      (rs done : List ProxyRule)
      → IsWhole rs
      → All (λ q. Lacks rule_id q.id done) rs
      → import_rules now (map rule_entry rs) done ≡ ok (done ++ map (restored now) rs)
  unfolding import_rules
  import_rules-exported [] done w a = rw (append-nil done) refl
  import_rules-exported (r ∷ rs) done ((l, d), (w, ws)) (f, a) =
      let rest =
        import_rules-exported rs (done ++ restored now r ∷ []) (d, ws)
          (later_apart r rs done l a) in
      rw (w, find_first-eq-none (λ q. text_eq q.id r.id) done f)
        (rest ∙ rw (append_assoc done (restored now r ∷ []) (map (restored now) rs)) refl)

-- Encryption with a secret that is set succeeds.
abbrev pub CanEncrypt : Crypto → Db → Type 0
CanEncrypt crypto db =
    (is_empty (get_setting db (codes "jwt_secret")) ≡ false)
    × ((key nonce : List ℕ) (plain : Text) → is_some (crypto.seal key nonce plain) ≡ true)

module _ (crypto : Crypto) (nonces : ℕ → List ℕ) (now : Text) (db : Db)
    (can : CanEncrypt crypto db) where
  encrypts :
      (nonce : List ℕ) (key : Text) → (t : Text) × (encrypt_key_for_db crypto nonce key db ≡ ok t)
  unfolding encrypt_key_for_db encrypt_data
  encrypts nonce key =
      let secret = get_setting db (codes "jwt_secret") in
      elim (Option-cases (crypto.seal (derive_key crypto secret) nonce key)) [
        | inl e ↦ absurd (cc (can.1 (derive_key crypto secret) nonce key))
        | inr (c, e) ↦ (crypto.to_base64 (nonce ++ c), rw (can.0, e) refl)
      ]

  -- A list of certificates is always taken.
  import_certs-total :
      (n : ℕ) (es : List CertEntry) (cs : List Certificate)
      → (r : List Certificate × ℕ) × (import_certs crypto nonces now db n es cs ≡ ok r)
  unfolding import_certs
  import_certs-total n [] cs = ((cs, n), refl)
  import_certs-total n (e ∷ es) cs =
      let skipped = import_certs-total n es cs in
      let (encrypted, h) = encrypts (nonces n) (text_of e.key_pem) in
      let (r, stored) = import_certs-total (suc n) es (
        retain (λ c. not (conflicts crypto nonces now e c)) cs
        ++ imported_cert crypto nonces now e encrypted ∷ []) in
      elim (Bool-cases (lacks_field crypto nonces now e)) [
        | inl t ↦ (skipped.0, rw (import_certs, t) skipped.1)
        | inr t ↦ (r, rw (import_certs, t, h) stored)
      ]

-- A backup that was exported from a database whose rules have different ids, and ids, names, domains
-- and targets that are not empty, is imported without an error wherever the secret is set and
-- encryption succeeds, and an export from there has the same rules as the backup.
pub export_config-import_config :
    (crypto : Crypto) (nonces : ℕ → List ℕ) (now : Text) (parses : Text → Text → Bool)
    (s t : AppState)
    → IsWhole s.db.proxy_rules
    → CanEncrypt crypto t.db
    → let after = import_config crypto nonces now parses (export_config crypto s) t in
      (is_ok after.0 ≡ true)
      × ((export_config crypto after.1).proxy_rules ≡ (export_config crypto s).proxy_rules)
unfolding import_config export_config transaction load_certs_to_cache
export_config-import_config crypto nonces now parses s t w can =
    let (certs, e) =
      import_certs-total crypto nonces now t.db can 0
        (map (cert_entry crypto s.db) s.db.certificates) t.db.certificates in
    let f =
      import_rules-exported now s.db.proxy_rules [] w (All-always _ (λ q. tt) s.db.proxy_rules) in
    rw (transaction, e, f) (refl, ap some (map-map s.db.proxy_rules))
  where
    map-map : (rs : List ProxyRule) → map rule_entry (map (restored now) rs) ≡ map rule_entry rs
    map-map [] = refl
    map-map (r ∷ rs) = ap (λ es. rule_entry r ∷ es) (map-map rs)
