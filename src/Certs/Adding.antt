-- ===== src/Certs/Adding.antt =====
-- What `add_rules` and `add_certs`, the loops of `load_certs_to_cache` of backend/src/ssl.rs, put into
-- the certificate cache.
use unver.Prelude.{
  Bool, true, false, not, ◌≡◌, refl, ◌⊎◌, inl, inr, some, List, [], ◌∷◌, ◌++◌, arith, Text, Any,
  Any-map, Any-none, Any-retain, Any-retain_of, Any-append_right, Any-append_split, not-true,
  text_eq, text_eq_iff, lowercase, retain, Bool-cases, Option-cases, is_some, if◌then◌else◌,
}
use unver.Prelude.Assoc.{Assoc, lookup, insert, lookup-insert}
use unver.Models.{ProxyRule}
use unver.State.{CertifiedKey}
use unver.Certs.{Loaded, certified, applies, add_rules, is_wildcard, wildcards_first, add_certs}

-- The rule's domain is the key, and the certificate applies to the rule.
abbrev pub Serves : Text → Loaded → ProxyRule → Type 0
Serves k c r = (applies c r ≡ true) × (lowercase r.domain ≡ k)

module _ (k : Text) where
  add_rules-keeps :
      (c : Loaded) (rules : List ProxyRule) (cache : Assoc CertifiedKey)
      → is_some (lookup k cache) ≡ true
      → is_some (lookup k (add_rules c rules cache)) ≡ true
  unfolding add_rules
  add_rules-keeps c [] cache h = h
  add_rules-keeps c (r ∷ rules) cache h =
      add_rules-keeps c rules _
        (ground (arith, lookup-insert (lowercase r.domain) k (certified c) cache))

  -- What is at a key after the rules of one certificate.
  add_rules_sound :
      (c : Loaded) (rules : List ProxyRule) (cache : Assoc CertifiedKey) (v : CertifiedKey)
      → lookup k (add_rules c rules cache) ≡ some v
      → (lookup k cache ≡ some v) ⊎ ((v ≡ certified c) × Any (Serves k c) rules)
  unfolding add_rules
  add_rules_sound c [] cache v h = inl h
  add_rules_sound c (r ∷ rules) cache v h = elim (add_rules_sound c rules _ v h) [
    | inr (e, s) ↦ inr (e, inr s)
    | inl e ↦ step (Bool-cases (applies c r)) e
  ]
    where
      step :
          (applies c r ≡ true) ⊎ (applies c r ≡ false)
          → lookup k
              (if applies c r then insert (lowercase r.domain) (certified c) cache else cache)
            ≡ some v
          → (lookup k cache ≡ some v) ⊎ ((v ≡ certified c) × Any (Serves k c) (r ∷ rules))
      step (inl a) e = elim (Bool-cases (text_eq (lowercase r.domain) k)) [
        | inl same ↦ inr (
          ground (arith, lookup-insert (lowercase r.domain) k (certified c) cache),
          inl (a, (text_eq_iff (lowercase r.domain) k).0 same),
        )
        | inr other ↦ inl (ground (arith, lookup-insert (lowercase r.domain) k (certified c) cache))
      ]
      step (inr a) e = inl (rw a at e)

  add_rules-stays :
      (c : Loaded) (rules : List ProxyRule) (cache : Assoc CertifiedKey)
      → lookup k cache ≡ some (certified c)
      → lookup k (add_rules c rules cache) ≡ some (certified c)
  unfolding add_rules
  add_rules-stays c [] cache h = h
  add_rules-stays c (r ∷ rules) cache h =
      add_rules-stays c rules _
        (ground (arith, lookup-insert (lowercase r.domain) k (certified c) cache))

  -- If the certificate serves the key, it stands there afterwards.
  add_rules_complete :
      (c : Loaded) (rules : List ProxyRule) (cache : Assoc CertifiedKey)
      → Any (Serves k c) rules
      → lookup k (add_rules c rules cache) ≡ some (certified c)
  unfolding add_rules
  add_rules_complete c [] cache h = absurd h
  add_rules_complete c (r ∷ rules) cache (inr h) = add_rules_complete c rules _ h
  add_rules_complete c (r ∷ rules) cache (inl (a, e)) = add_rules-stays c rules _ (
      ground (
        arith,
        text_eq_iff (lowercase r.domain) k,
        lookup-insert (lowercase r.domain) k (certified c) cache,
      ))

-- The certificate parses, and serves the key by one of the rules.
abbrev pub IsSource : (Text → Text → Bool) → Text → List ProxyRule → Loaded → Type 0
IsSource parses k rules c = (parses c.cert_pem c.key_pem ≡ true) × Any (Serves k c) rules

module _ (parses : Text → Text → Bool) (k : Text) (rules : List ProxyRule) where
  pub add_certs-keeps :
      (cs : List Loaded) (cache : Assoc CertifiedKey)
      → is_some (lookup k cache) ≡ true
      → is_some (lookup k (add_certs parses cs rules cache)) ≡ true
  unfolding add_certs
  add_certs-keeps [] cache h = h
  add_certs-keeps (c ∷ cs) cache h =
      add_certs-keeps cs _ (ground (arith, add_rules-keeps k c rules cache))

  pub add_certs_sound :
      (cs : List Loaded) (cache : Assoc CertifiedKey) (v : CertifiedKey)
      → lookup k (add_certs parses cs rules cache) ≡ some v
      → (lookup k cache ≡ some v) ⊎ Any (λ c. IsSource parses k rules c × (v ≡ certified c)) cs
  unfolding add_certs
  add_certs_sound [] cache v h = inl h
  add_certs_sound (c ∷ cs) cache v h = elim (add_certs_sound cs _ v h) [
    | inr s ↦ inr (inr s)
    | inl e ↦ step (parses c.cert_pem c.key_pem) refl e
  ]
    where
      step :
          (b : Bool)
          → parses c.cert_pem c.key_pem ≡ b
          → lookup k (if b then add_rules c rules cache else cache) ≡ some v
          → (lookup k cache ≡ some v)
            ⊎ Any (λ d. IsSource parses k rules d × (v ≡ certified d)) (c ∷ cs)
      step true p e = elim (add_rules_sound k c rules cache v e) [
        | inl old ↦ inl old
        | inr (same, s) ↦ inr (inl ((p, s), same))
      ]
      step false p e = inl e

  -- Where some certificate of the list serves the key, there is an entry,
  pub add_certs_total :
      (cs : List Loaded) (cache : Assoc CertifiedKey)
      → Any (IsSource parses k rules) cs
      → is_some (lookup k (add_certs parses cs rules cache)) ≡ true
  unfolding add_certs
  add_certs_total [] cache h = absurd h
  add_certs_total (c ∷ cs) cache (inr h) = add_certs_total cs _ h
  add_certs_total (c ∷ cs) cache (inl (p, s)) =
      add_certs-keeps cs _ (ground (arith, add_rules_complete k c rules cache s))

  -- and it comes from the list.
  add_certs_complete :
      (cs : List Loaded) (cache : Assoc CertifiedKey) (v : CertifiedKey)
      → Any (IsSource parses k rules) cs
      → lookup k (add_certs parses cs rules cache) ≡ some v
      → Any (λ c. IsSource parses k rules c × (v ≡ certified c)) cs
  unfolding add_certs
  add_certs_complete [] cache v h e = absurd h
  add_certs_complete (c ∷ cs) cache v (inr h) e = inr (add_certs_complete cs _ v h e)
  add_certs_complete (c ∷ cs) cache v (inl (p, s)) e = elim (add_certs_sound cs _ v e) [
    | inr later ↦ inr later
    | inl old ↦ inl ((p, s), ground (arith, add_rules_complete k c rules cache s))
  ]

  add_certs-append :
      (cs ds : List Loaded) (cache : Assoc CertifiedKey)
      → add_certs parses (cs ++ ds) rules cache
        ≡ add_certs parses ds rules (add_certs parses cs rules cache)
  unfolding add_certs
  add_certs-append [] ds cache = refl
  add_certs-append (c ∷ cs) ds cache = add_certs-append cs ds _

  pub exact_wins :
      (cs : List Loaded) (cache : Assoc CertifiedKey)
      → Any (λ c. IsSource parses k rules c × (is_wildcard c ≡ false)) (wildcards_first cs)
      → (v : CertifiedKey) × (lookup k (add_certs parses (wildcards_first cs) rules cache) ≡ some v)
        × Any (λ c. (v ≡ certified c) × (is_wildcard c ≡ false)) (wildcards_first cs)
  exact_wins cs cache h =
      let wild = retain is_wildcard cs in
      let exact = retain (λ c. not (is_wildcard c)) cs in
      let before = add_certs parses wild rules cache in
      let source : Any (IsSource parses k rules) exact =
        elim (Any-append_split (λ c. IsSource parses k rules c × (is_wildcard c ≡ false)) wild exact
          h) [
            | inl w ↦
                absurd
                  (Any-none cs (Any-map (λ c ((p, f), t). cc) cs (Any-retain is_wildcard _ cs w)))
            | inr x ↦ Any-map (λ c (p, q). p) exact x
          ] in
      let e = add_certs-append wild exact cache in
      elim (Option-cases (lookup k (add_certs parses exact rules before))) [
        | inl gone ↦ cc (add_certs_total exact before source)
        | inr (v, found) ↦ (
          v,
          rw e found,
          Any-append_right (λ c. (v ≡ certified c) × (is_wildcard c ≡ false)) wild exact
              (Any-retain_of (λ c. not (is_wildcard c)) _ cs
                (Any-map (λ c ((p, q), n). ((q, not-true _ n), n)) cs
                  (Any-retain (λ c. not (is_wildcard c)) _ cs
                    (add_certs_complete exact before v source found)))),
        )
      ]
