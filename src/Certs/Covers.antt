-- ===== src/Certs/Covers.antt =====
-- Which domains a certificate covers.
use unver.Prelude.{
  true, ◌≡◌, ◌≢◌, refl, ap, ◌↔◌, ◌⊎◌, inl, inr, some, [], ◌∷◌, ◌++◌, arith, Text, codes, All, ◌==◌,
  ==_iff, text_eq_iff, strip_prefix, from_char, eq_ignore_case, eq_ignore_case-lowercase, lowercase,
  Bool-cases, Option-cases,
}
use unver.Certs.{cert_covers_domain, covers_wildcard, same_parent}

abbrev pub NoDot : Text → Type 0
NoDot = All (λ c. c ≢ b'.')

-- The same name up to case, or a wildcard and a name with one more label in front of its parent.
abbrev pub Covers : Text → Text → Type 0
Covers cert_domain rule_domain =
    (lowercase cert_domain ≡ lowercase rule_domain)
    ⊎ ((label parent host : Text) × NoDot label
        × (rule_domain ≡ label ++ b'.' ∷ parent)
        × (cert_domain ≡ codes "*." ++ host)
        × (lowercase host ≡ lowercase parent))

same_case : (s t : Text) → (eq_ignore_case s t ≡ true) ↔ (lowercase s ≡ lowercase t)
same_case s t = rw eq_ignore_case-lowercase (text_eq_iff (lowercase s) (lowercase t))

strip_prefix-eq-some : (s p r : Text) → (strip_prefix s p ≡ some r) ↔ (s ≡ p ++ r)
strip_prefix-eq-some s [] r = (λ e. cc, λ e. cc)
strip_prefix-eq-some [] (c ∷ p) r = (λ e. cc, λ e. cc)
strip_prefix-eq-some (x ∷ s) (c ∷ p) r = (
  λ e. ground (arith, (strip_prefix-eq-some s p r).0),
  λ e. ground (arith, (strip_prefix-eq-some s p r).1),
)

from_char-append :
    (label rest : Text) → NoDot label → from_char (label ++ b'.' ∷ rest) b'.' ≡ some (b'.' ∷ rest)
from_char-append [] rest h = refl
from_char-append (c ∷ label) rest (n, h) = ground (arith, from_char-append label rest h)

from_char_split :
    (s t : Text)
    → from_char s b'.' ≡ some t
    → (label parent : Text) × NoDot label × (s ≡ label ++ b'.' ∷ parent) × (t ≡ b'.' ∷ parent)
from_char_split [] t e = cc
from_char_split (c ∷ s) t e = elim (Bool-cases (c == b'.')) [
  | inl dot ↦ ([], s, tt, ap (λ x. x ∷ s) ((==_iff c b'.').0 dot), ground arith)
  | inr other ↦
      let (label, parent, n, split, rest) = from_char_split s t (ground arith) in
      (c ∷ label, parent, (ground arith, n), ap (λ x. c ∷ x) split, rest)
]

abbrev CoversWild : Text → Text → Type 0
CoversWild cert_domain rule_domain =
    (label parent host : Text) × NoDot label
    × (rule_domain ≡ label ++ b'.' ∷ parent)
    × (cert_domain ≡ codes "*." ++ host)
    × (lowercase host ≡ lowercase parent)

covers_wildcard_sound :
    (c d : Text) → covers_wildcard (strip_prefix c (codes "*.")) d ≡ true → CoversWild c d
covers_wildcard_sound c d h = elim (Option-cases (strip_prefix c (codes "*."))) [
  | inl e ↦ cc (ap (λ o. covers_wildcard o d) e)
  | inr (host, e) ↦ elim (Option-cases (from_char d b'.')) [
    | inl e' ↦ cc (ap (λ o. covers_wildcard o d) e, ap (same_parent host) e')
    | inr (t, e') ↦
        let (label, parent, n, split, rest) = from_char_split d t e' in
        let same : same_parent host (some (b'.' ∷ parent)) ≡ true = rw (e, e', rest) at h in
        (
          label,
          parent,
          host,
          n,
          split,
          (strip_prefix-eq-some c (codes "*.") host).0 e,
          (same_case host parent).0 same,
        )
  ]
]

covers_wildcard_complete :
    (c d : Text) → CoversWild c d → covers_wildcard (strip_prefix c (codes "*.")) d ≡ true
covers_wildcard_complete c d (label, parent, host, n, split, wild, same) =
    rw ((strip_prefix-eq-some c (codes "*.") host).1 wild, split, from_char-append label parent n)
      ((same_case host parent).1 same)

-- A certificate covers a rule's domain exactly when they are the same name up to ASCII case, or the
-- certificate is a wildcard and the domain is one label in front of the wildcard's parent.
pub cert_covers_domain_iff : (c d : Text) → (cert_covers_domain c d ≡ true) ↔ Covers c d
unfolding cert_covers_domain
cert_covers_domain_iff c d = (to, from)
  where
    to : cert_covers_domain c d ≡ true → Covers c d
    to h = elim (Bool-cases (eq_ignore_case c d)) [
      | inl e ↦ inl ((same_case c d).0 e)
      | inr e ↦ inr (covers_wildcard_sound c d (rw e at h))
    ]

    from : Covers c d → cert_covers_domain c d ≡ true
    from (inl e) = rw ((same_case c d).1 e)
    from (inr w) = elim (Bool-cases (eq_ignore_case c d)) [
      | inl e ↦ rw e
      | inr e ↦ rw e (covers_wildcard_complete c d w)
    ]
