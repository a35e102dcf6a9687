-- ===== src/Tests/Certs.antt =====
-- Runs of the certificate cache.
use unver.Prelude.{
  true, false, Bool, Option, none, some, ◌≡◌, refl, ◌↔◌, ◌⊎◌, inl, inr, [], Text, codes, Any,
  is_some, lowercase,
}
use unver.Prelude.Assoc.{lookup, insert}
use unver.State.{AppState, CertifiedKey, get_setting}
use unver.Certs.{
  cert_covers_domain, resolve, wildcard_of, applies, certified, is_wildcard, usable, ssl_rules,
  load_certs_to_cache, decrypt_key_from_db,
}
use unver.Certs.Covers.{Covers, cert_covers_domain_iff}
use unver.Certs.Adding.{IsSource}
use unver.Certs.Cache.{load, resolve-load_sound, resolve-load_total}
use unver.Tests.Data.{app}

abbrev no_decrypt : Text → Text → Option Text
no_decrypt stored secret = none

abbrev all_parse : Text → Text → Bool
all_parse cert key = true

abbrev now : Text
now = codes "2024-05-01 12:00:00"

abbrev shop : Text
shop = codes "shop.example.com"

abbrev exact : CertifiedKey
exact = record { cert_pem = codes "E"; key_pem = codes "k1" }

certs : Unit {0}
unfolding resolve load_certs_to_cache applies cert_covers_domain lookup insert decrypt_key_from_db
    get_setting
certs = tt

abbrev loaded : AppState
loaded = load no_decrypt all_parse now app

serves_exact : resolve loaded.cert_cache (some (codes "SHOP.example.com")) ≡ some exact
unfolding certs
serves_exact = refl

exact-IsSource :
    IsSource all_parse shop
      (ssl_rules app.db)
      (record { id = codes "c2"; domain = shop; cert_pem = codes "E"; key_pem = codes "k1" })
unfolding certs
exact-IsSource = (refl, inl (refl, refl))

cert_covers_domain_iff_example :
    (cert_covers_domain (codes "*.example.com") shop ≡ true) ↔ Covers (codes "*.example.com") shop
cert_covers_domain_iff_example = cert_covers_domain_iff (codes "*.example.com") shop

cached : is_some (lookup shop loaded.cert_cache) ≡ true
unfolding certs
cached = refl

-- The rule is deleted, and the certificate stays.
abbrev without_rules : AppState
without_rules = record loaded { db = record (app.db) { proxy_rules = [] } }

in_usable :
    Any
      (λ c. IsSource all_parse shop (ssl_rules app.db) c × (is_wildcard c ≡ false))
      (usable no_decrypt now app.db)
unfolding certs
in_usable = inr (inl ((refl, inl (refl, refl)), refl))

resolve-load_sound_example :
    (k : Text) × ((k ≡ lowercase (codes "SHOP.example.com"))
      ⊎ (wildcard_of (lowercase (codes "SHOP.example.com")) ≡ some k))
    × Any
        (λ c. IsSource all_parse k (ssl_rules app.db) c × (exact ≡ certified c))
        (usable no_decrypt now app.db)
resolve-load_sound_example =
    resolve-load_sound no_decrypt all_parse now app (codes "SHOP.example.com") exact refl
      serves_exact

in_usable_lower :
    Any
      (IsSource all_parse (lowercase (codes "SHOP.example.com")) (ssl_rules app.db))
      (usable no_decrypt now app.db)
unfolding certs
in_usable_lower = inr (inl (refl, inl (refl, refl)))

resolve-load_total_example :
    is_some (resolve loaded.cert_cache (some (codes "SHOP.example.com"))) ≡ true
resolve-load_total_example =
    resolve-load_total no_decrypt all_parse now app (codes "SHOP.example.com") in_usable_lower
