-- ===== src/Certs.antt =====
-- The certificates that TLS termination serves: `load_certs_to_cache`, `cert_covers_domain` and
-- `decrypt_key_from_db` of backend/src/ssl.rs, and `CertResolver::resolve` of backend/src/proxy.rs.
-- Domains are ASCII, as `validate_domain` and rustls's server names are, so that `to_lowercase` is
-- ASCII lower case. AES-GCM decryption and the PEM parser are parameters.
pub mod Covers
pub mod Adding
pub mod Cache
use unver.Prelude.{
  Bool, true, false, not, ◌&&◌, ◌||◌, Option, none, some, List, [], ◌∷◌, ◌++◌, map, Text, codes,
  text_eq, text_lt, is_empty, starts_with, strip_prefix, from_char, eq_ignore_case, lowercase,
  retain, if◌then◌else◌,
}
use unver.Prelude.Assoc.{Assoc, lookup, insert}
use unver.Models.{ProxyRule, Certificate}
use unver.State.{Db, CertifiedKey, AppState, get_setting}

-- `rest.eq_ignore_ascii_case(&rule_domain[dot + 1..])`, from the dot on.
abbrev same_parent : Text → Option Text → Bool
same_parent rest (some (dot ∷ parent)) = eq_ignore_case rest parent
same_parent rest _ = false

abbrev covers_wildcard : Option Text → Text → Bool
covers_wildcard none rule_domain = false
covers_wildcard (some rest) rule_domain = same_parent rest (from_char rule_domain b'.')

unfoldable pub cert_covers_domain : Text → Text → Bool
cert_covers_domain cert_domain rule_domain =
    if eq_ignore_case cert_domain rule_domain
    then true
    else covers_wildcard (strip_prefix cert_domain (codes "*.")) rule_domain

-- The wildcard name that is looked up for a name with a dot.
abbrev pub wildcard_of : Text → Option Text
wildcard_of sni = elim (from_char sni b'.') [ none ↦ none | some rest ↦ some (b'*' ∷ rest) ]

abbrev lookup_wildcard : Option Text → Assoc CertifiedKey → Option CertifiedKey
lookup_wildcard none cache = none
lookup_wildcard (some wildcard) cache = lookup wildcard cache

abbrev or_wildcard : Option CertifiedKey → Text → Assoc CertifiedKey → Option CertifiedKey
or_wildcard (some ck) sni cache = some ck
or_wildcard none sni cache = lookup_wildcard (wildcard_of sni) cache

-- `CertResolver::resolve`, from the server name of the ClientHello.
unfoldable pub resolve : Assoc CertifiedKey → Option Text → Option CertifiedKey
resolve cache none = none
resolve cache (some name) = let sni = lowercase name in or_wildcard (lookup sni cache) sni cache

-- A certificate whose key has been decrypted.
pub record Loaded : Type 0 where
  pub id : Text
  pub domain : Text
  pub cert_pem : Text
  pub key_pem : Text

abbrev pub certified : Loaded → CertifiedKey
certified c = record { cert_pem = c.cert_pem; key_pem = c.key_pem }

abbrev is_unbound : Option Text → Bool
is_unbound none = true
is_unbound (some s) = is_empty s

abbrev is_bound_to : Option Text → Text → Bool
is_bound_to none id = false
is_bound_to (some s) id = text_eq s id

-- The `covers` of the inner loop.
unfoldable pub applies : Loaded → ProxyRule → Bool
unfolding cert_covers_domain
applies c rule =
    if is_bound_to rule.cert_id c.id
    then true
    else if is_unbound rule.cert_id
    then cert_covers_domain c.domain rule.domain
    else false

pub add_rules : Loaded → List ProxyRule → Assoc CertifiedKey → Assoc CertifiedKey
add_rules c [] cache = cache
add_rules c (rule ∷ rules) cache =
    add_rules c rules
      (if applies c rule then insert (lowercase rule.domain) (certified c) cache else cache)

abbrev pub is_wildcard : Loaded → Bool
is_wildcard c = starts_with c.domain (codes "*.")

-- `sort_by_key(!starts_with("*."))`, which is stable: the wildcard certificates first.
abbrev pub wildcards_first : List Loaded → List Loaded
wildcards_first cs = retain is_wildcard cs ++ retain (λ c. not (is_wildcard c)) cs

abbrev pub ssl_rules : Db → List ProxyRule
ssl_rules db = retain (λ r. r.ssl_enabled && r.enabled) db.proxy_rules

-- `decrypt_data stored secret` of security.rs, `None` on an error.
module _ (decrypt : Text → Text → Option Text) where
  -- A value that does not decrypt is taken as plain text.
  abbrev plain_or : Text → Option Text → Text
  plain_or stored none = stored
  plain_or stored (some plain) = plain

  unfoldable pub decrypt_key_from_db : Db → Text → Text
  decrypt_key_from_db db stored =
      let secret = get_setting db (codes "jwt_secret") in
      if is_empty secret then stored else plain_or stored (decrypt stored secret)

  abbrev pub decrypt_row : Db → Certificate → Loaded
  decrypt_row db row = record {
    id = row.id;
    domain = row.domain;
    cert_pem = row.cert_pem;
    key_pem = decrypt_key_from_db db row.key_pem;
  }

  -- The certificates whose date is above `now` as a text, in the order in which they are cached.
  abbrev pub unsorted : Text → Db → List Loaded
  unsorted now db = map (decrypt_row db) (retain (λ c. text_lt now c.expires_at) db.certificates)

  abbrev pub usable : Text → Db → List Loaded
  usable now db = wildcards_first (unsorted now db)

-- `parses cert_pem key_pem` says that `load_cert_into_cache` returns a key.
module _ (parses : Text → Text → Bool) where
  pub add_certs : List Loaded → List ProxyRule → Assoc CertifiedKey → Assoc CertifiedKey
  add_certs [] rules cache = cache
  add_certs (c ∷ cs) rules cache =
      add_certs cs rules (if parses c.cert_pem c.key_pem then add_rules c rules cache else cache)

  -- `now` is SQLite's `datetime('now')`.
  unfoldable pub load_certs_to_cache : (Text → Text → Option Text) → Text → AppState → AppState
  unfolding add_certs add_rules
  load_certs_to_cache decrypt now s = record s {
    cert_cache = add_certs (usable decrypt now s.db) (ssl_rules s.db) s.cert_cache;
  }
