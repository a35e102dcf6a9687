-- ===== src/Acme/Renewal.antt =====
-- Which certificates `check_and_renew_certs` of backend/src/ssl.rs has issued again.
use unver.Prelude.{
  inl, inr, Bool, false, ◌≡◌, refl, ap, List, [], ◌∷◌, Option, none, some, Text, find_first,
  Bool-cases, Option-cases,
}
use unver.Models.{Certificate}
use unver.State.{AppState}
use unver.Certificates
use unver.Certificates.{has_id, update_where, set_auto_renew, update_certificate}
use unver.Acme.Issuing.{is_acme, should_renew}

abbrev dates : Option Certificate → Option Text
dates none = none
dates (some c) = some c.expires_at

module _ (env : Certificates.Env) (id domain : Text) (b : Bool) where
  -- The certificate of a domain has the same date before and after.
  found_date :
      (cs : List Certificate)
      → dates (find_first (is_acme domain) (update_where id (set_auto_renew env b) cs))
        ≡ dates (find_first (is_acme domain) cs)
  found_date [] = refl
  found_date (c ∷ cs) =
      let rest = found_date cs in
      elim (Bool-cases (has_id id c)) [
        | inl t ↦ elim (Bool-cases (is_acme domain c)) [
          | inl e ↦ rw (update_where, find_first, t, e) (rw t refl)
          | inr e ↦ rw (update_where, find_first, t, e) rest
        ]
        | inr t ↦ elim (Bool-cases (is_acme domain c)) [
          | inl e ↦ rw (update_where, find_first, t, e) (rw t refl)
          | inr e ↦ rw (update_where, find_first, t, e) rest
        ]
      ]

abbrev renews : (Text → Bool) → Option Text → Bool
renews expires_soon none = false
renews expires_soon (some date) = expires_soon date

should_renew-dates :
    (expires_soon : Text → Bool) (cs : List Certificate) (domain : Text)
    → should_renew expires_soon cs domain
      ≡ renews expires_soon (dates (find_first (is_acme domain) cs))
unfolding should_renew
should_renew-dates expires_soon cs domain = elim (Option-cases (find_first (is_acme domain) cs)) [
  | inl e ↦ rw (should_renew, e) refl
  | inr (c, e) ↦ rw (should_renew, e) refl
]

-- Whether the renewal has a domain's certificate issued again does not depend on `auto_renew`: it is the
-- same before and after an update of that flag of any certificate.
pub should_renew-update_certificate :
    (env : Certificates.Env) (expires_soon : Text → Bool) (id domain : Text) (b : Option Bool)
    (s : AppState)
    → should_renew expires_soon (update_certificate env id b s).1.db.certificates domain
      ≡ should_renew expires_soon s.db.certificates domain
unfolding update_certificate
should_renew-update_certificate env expires_soon id domain none s = refl
should_renew-update_certificate env expires_soon id domain (some b) s =
    let cs = s.db.certificates in
    rw
      (
        should_renew-dates expires_soon cs domain,
        should_renew-dates expires_soon (update_where id (set_auto_renew env b) cs) domain,
      )
      (ap (renews expires_soon) (found_date env id domain b cs))
