-- ===== src/Diagnosis/Readiness.antt =====
-- What `test_certificate_setup` of backend/src/api/settings.rs reports, and when it panics.
use unver.Prelude.{
  sym, ap, ◌∙◌, ℕ, ◌<◌, ◌≡◌, refl, inl, inr, ◌↔◌, Bool, true, false, not, ◌&&◌, ◌||◌, ◌==◌, leb,
  ltb, Option, none, some, List, [], ◌∷◌, Text, codes, is_empty, length, get_elem?, contains_char,
  before_char, Bool-cases, Option-cases, ==_iff, get_elem?-total, ◌≤◌, arith,
}
use unver.State.{Db, get_setting}
use unver.Dns.{Answer, good, bad}
use unver.Diagnosis.{
  at_sign, is_char_boundary, shown_length, mask_email, Probes, is_success, Results,
  test_certificate_setup, tested,
}

-- The byte at the place of the first `@` is one.
elem-before_char :
    (s : Text) (c : ℕ) → contains_char s c ≡ true → get_elem? s (length (before_char s c)) ≡ some c
elem-before_char [] c h = cc
elem-before_char (x ∷ s) c h = elim (Bool-cases (x == c)) [
  | inl e ↦ let same : x ≡ c = (==_iff x c).0 e in rw (before_char, e, same) refl
  | inr n ↦ rw (before_char, n) (elem-before_char s c (rw (contains_char, n) at h))
]

length-before_char : (s : Text) (c : ℕ) → length (before_char s c) ≤ length s
length-before_char [] c = omega arith
length-before_char (x ∷ s) c =
    let rest = length-before_char s c in
    elim (Bool-cases (x == c)) [
      | inl e ↦ rw (before_char, e) (omega arith)
      | inr n ↦ rw (before_char, n) (omega arith)
    ]

boundary_zero : (s : Text) → is_char_boundary s 0 ≡ true
boundary_zero [] = refl
boundary_zero (x ∷ s) = refl

boundary_ascii :
    (s : Text) (i c : ℕ) → get_elem? s i ≡ some c → c < 128 → is_char_boundary s i ≡ true
boundary_ascii s i c e l = rw (is_char_boundary, e) (ground arith)

-- A slice up to the first `@` ends before a character.
boundary-at_sign : (s : Text) → is_char_boundary s (at_sign s) ≡ true
boundary-at_sign s = elim (Bool-cases (contains_char s b'@')) [
  | inl y ↦
      let e =
        boundary_ascii s (length (before_char s b'@')) b'@' (elem-before_char s b'@' y)
          (omega arith) in
      rw (at_sign, y) e
  | inr n ↦ rw (at_sign, n) (boundary_zero s)
]

-- A byte that continues a character of UTF-8.
abbrev pub Continues : Option ℕ → Type 0
Continues none = ⊥
Continues (some b) = (leb 0x80 b && ltb b 0xc0) ≡ true

boundary-third :
    (s : Text) → 3 < length s → is_char_boundary s 3 ≡ false ↔ Continues (get_elem? s 3)
boundary-third s l = let (b, e) = get_elem?-total s 3 l in rw e (ground arith)

at_sign-length : (s : Text) → at_sign s ≤ length s
at_sign-length s = let l = length-before_char s b'@' in ground arith

shown-boundary :
    (s : Text)
    → is_char_boundary s (shown_length s) ≡ false ↔ ((3 < at_sign s) × Continues (get_elem? s 3))
shown-boundary s = elim (Bool-cases (leb (at_sign s) 3)) [
  | inl y ↦ rw y ((λ f. absurd (cc (boundary-at_sign s))), λ (l, c). absurd (ground arith))
  | inr n ↦
      let l : 3 < at_sign s = ground arith in
      let third = boundary-third s (let m = at_sign-length s in omega arith) in
      rw n ((λ f. (l, third.0 f)), λ (l', c). third.1 c)
]

mask_email-panics : (s : Text) → mask_email s ≡ none ↔ ((3 < at_sign s) × Continues (get_elem? s 3))
unfolding mask_email
mask_email-panics [] = (λ e. absurd (cc), λ (l, c). absurd c)
mask_email-panics (x ∷ t) =
    let b = shown-boundary (x ∷ t) in
    elim (Bool-cases (is_char_boundary (x ∷ t) (shown_length (x ∷ t)))) [
      | inl y ↦ rw (mask_email, y) (λ e. absurd (cc), λ h. absurd (cc (b.1 h)))
      | inr n ↦ rw (mask_email, n) (λ e. b.0 n, λ h. refl)
    ]

-- The test of the certificates panics exactly if the stored e-mail address has its first `@` after the
-- third byte, and the fourth byte continues a character: the slice of the first three bytes then ends
-- inside that character.
pub test_certificate_setup-panics :
    (probes : Probes) (db : Db) (http_port domain : Text)
    → (test_certificate_setup probes db http_port domain ≡ none) ↔ (
        (3 < at_sign (get_setting db (codes "acme_email")))
        × Continues (get_elem? (get_setting db (codes "acme_email")) 3))
unfolding test_certificate_setup
test_certificate_setup-panics probes db http_port domain =
    let p = mask_email-panics (get_setting db (codes "acme_email")) in
    elim (Option-cases (mask_email (get_setting db (codes "acme_email")))) [
      | inl e ↦ rw (test_certificate_setup, e) (λ h. p.0 e, λ h. refl)
      | inr (m, e) ↦ rw (test_certificate_setup, e) (λ h. absurd (cc), λ h. absurd (cc (p.1 h)))
    ]

-- The server answered with a status that passes the test.
abbrev pub answers : (ℕ → Bool) → Answer ℕ → Bool
answers p (bad e) = false
answers p (good status) = p status

abbrev pub resolves : Answer (List Text) → Bool
resolves (bad e) = false
resolves (good ips) = ltb 0 (length ips)

module _ (probes : Probes) (http_port : Text) where
  -- The directory is up, and a domain that is given resolves and answers.
  abbrev pub is_reached : Text → Bool
  is_reached domain =
      answers is_success probes.directory
      && (is_empty domain
          || (resolves (probes.lookup_host domain)
              && answers (λ status. is_success status || status == 404)
                  (probes.get_challenge domain http_port)))

  -- Before the tests nothing is marked as reached.
  abbrev IsFresh : Results → Type 0
  IsFresh r =
      (r.letsencrypt_reachable ≡ false) × (r.dns_resolves ≡ false) × (r.domain_reachable ≡ false)

  tested-ready :
      (domain : Text) (r : Results)
      → IsFresh r
      → (tested probes domain http_port r).1 ≡ (r.acme_configured && is_reached domain)
  tested-ready domain r (a, b, c) = ground arith

abbrev verdict : Option (Results × Bool) → Bool
verdict none = false
verdict (some (r, ready)) = ready

-- Where the test of the certificates answers, `ready` is true exactly if an e-mail address is stored, the
-- directory of the certificate authority answers with a success, and the domain, if one is given,
-- resolves to an address and answers with a success or 404.
pub test_certificate_setup-ready :
    (probes : Probes) (db : Db) (http_port domain : Text) (results : Results) (ready : Bool)
    → test_certificate_setup probes db http_port domain ≡ some (results, ready)
    → ready
      ≡ (not (is_empty (get_setting db (codes "acme_email"))) && is_reached probes http_port domain)
unfolding test_certificate_setup
test_certificate_setup-ready probes db http_port domain results ready h =
    elim (Option-cases (mask_email (get_setting db (codes "acme_email")))) [
      | inl e ↦ absurd (cc (rw (test_certificate_setup, e) at h))
      | inr (m, e) ↦
          let same = rw (test_certificate_setup, e) at h in
          let t =
            tested-ready probes http_port domain
              (record {
                acme_configured = not (is_empty (get_setting db (codes "acme_email")));
                acme_email = m;
                domain = domain;
                letsencrypt_reachable = false;
                dns_resolves = false;
                resolved_ips = [];
                domain_reachable = false;
                warnings = [];
                errors = [];
              })
              (refl, refl, refl) in
          sym (ap verdict same) ∙ t
    ]
