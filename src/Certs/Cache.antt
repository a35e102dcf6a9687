-- ===== src/Certs/Cache.antt =====
-- What the certificate cache holds after `load_certs_to_cache` of backend/src/ssl.rs, and what a
-- handshake gets from it.
use unver.Prelude.{
  Bool, true, false, ◌≡◌, refl, ap, ◌⊎◌, inl, inr, Option, some, [], arith, Text, Any, lowercase,
  Option-cases, is_some,
}
use unver.Prelude.Assoc.{Assoc, lookup, lookup-nil}
use unver.State.{CertifiedKey, AppState}
use unver.Certs.{
  certified, is_wildcard, ssl_rules, usable, unsorted, load_certs_to_cache, resolve, wildcard_of,
}
use unver.Certs.Adding.{IsSource, add_certs-keeps, add_certs_sound, add_certs_total, exact_wins}

-- The entry that a handshake is given, and its key.
resolve_key :
    (cache : Assoc CertifiedKey) (name : Text) (v : CertifiedKey)
    → resolve cache (some name) ≡ some v
    → (k : Text) × ((k ≡ lowercase name) ⊎ (wildcard_of (lowercase name) ≡ some k))
      × (lookup k cache ≡ some v)
unfolding resolve
resolve_key cache name v h = elim (Option-cases (lookup (lowercase name) cache)) [
  | inr (w, e) ↦ (lowercase name, inl refl, ground arith)
  | inl e ↦ elim (Option-cases (wildcard_of (lowercase name))) [
    | inl n ↦ ground arith
    | inr (k, n) ↦ (k, inr n, ground arith)
  ]
]

module _ (decrypt : Text → Text → Option Text) (parses : Text → Text → Bool) (now : Text) where
  abbrev pub load : AppState → AppState
  load = load_certs_to_cache parses decrypt now

  -- A reload never takes a name out of the cache: the certificate of a rule that was deleted,
  -- disabled or moved to another domain is still served.
  pub load_certs-keeps :
      (s : AppState) (k : Text)
      → is_some (lookup k s.cert_cache) ≡ true
      → is_some (lookup k (load s).cert_cache) ≡ true
  unfolding load_certs_to_cache
  load_certs-keeps s k h =
      add_certs-keeps parses k (ssl_rules s.db) (usable decrypt now s.db) s.cert_cache h

  -- Every entry of the cache was there before, or it is of an unexpired certificate that parses and
  -- applies to an enabled rule with SSL whose domain, in lower case, is the key.
  pub load_certs_sound :
      (s : AppState) (k : Text) (v : CertifiedKey)
      → lookup k (load s).cert_cache ≡ some v
      → (lookup k s.cert_cache ≡ some v)
        ⊎ Any
            (λ c. IsSource parses k (ssl_rules s.db) c × (v ≡ certified c))
            (usable decrypt now s.db)
  unfolding load_certs_to_cache
  load_certs_sound s k v h =
      add_certs_sound parses k (ssl_rules s.db) (usable decrypt now s.db) s.cert_cache v h

  -- If an unexpired certificate that is no wildcard parses and applies to an enabled SSL rule of a
  -- domain, then a reload leaves a certificate for that domain, and it is no wildcard.
  pub load_certs-exact_wins :
      (s : AppState) (k : Text)
      → Any
          (λ c. IsSource parses k (ssl_rules s.db) c × (is_wildcard c ≡ false))
          (usable decrypt now s.db)
      → (v : CertifiedKey) × (lookup k (load s).cert_cache ≡ some v)
        × Any (λ c. (v ≡ certified c) × (is_wildcard c ≡ false)) (usable decrypt now s.db)
  unfolding load_certs_to_cache
  load_certs-exact_wins s k h =
      exact_wins parses k (ssl_rules s.db) (unsorted decrypt now s.db) s.cert_cache h

  -- A handshake that is given a certificate, from a cache filled by one load, is given one of a
  -- certificate that parses, whose date of expiry is above the time of the load as a text (SQLite's
  -- comparison, in which a day of RFC 3339 is above every time of that day), and that applies to an enabled SSL rule whose domain is the server
  -- name or the wildcard of its parent, in lower case.
  pub resolve-load_sound :
      (s : AppState) (name : Text) (v : CertifiedKey)
      → s.cert_cache ≡ []
      → resolve (load s).cert_cache (some name) ≡ some v
      → (k : Text) × ((k ≡ lowercase name) ⊎ (wildcard_of (lowercase name) ≡ some k))
        × Any
            (λ c. IsSource parses k (ssl_rules s.db) c × (v ≡ certified c))
            (usable decrypt now s.db)
  resolve-load_sound s name v empty h =
      let (k, which, e) = resolve_key (load s).cert_cache name v h in
      (
        k,
        which,
        elim (load_certs_sound s k v e) [
          | inl old ↦ cc (lookup-nil {V = CertifiedKey} k, ap (lookup k) empty)
          | inr new ↦ new
        ],
      )

  -- A rule with SSL whose certificate is usable gets a certificate in every handshake that names the
  -- rule's domain, in whatever case.
  pub resolve-load_total :
      (s : AppState) (name : Text)
      → Any (IsSource parses (lowercase name) (ssl_rules s.db)) (usable decrypt now s.db)
      → is_some (resolve (load s).cert_cache (some name)) ≡ true
  unfolding load_certs_to_cache resolve
  resolve-load_total s name h = ground (
    arith,
    add_certs_total parses (lowercase name) (ssl_rules s.db) (usable decrypt now s.db) s.cert_cache
        h,
  )
