-- ===== src/Certificates/Stored.antt =====
-- What the handlers of the table `certificates`, of backend/src/api/settings.rs, store and keep.
use unver.Prelude.{
  inl, inr, ◌⊎◌, Bool, false, not, List, [], ◌∷◌, Option, ◌≡◌, refl, Text, unwrap_or, text_eq,
  is_some, find_first, retain, All, All-map, All-always, retain-none, Bool-cases, Option-cases,
}
use unver.Prelude.Distinct.{Lacks, Distinct, find_first-Lacks, retain-Distinct, text_eq_sym}
use unver.Models.{Certificate, ProxyRule}
use unver.Errors.{err, not_found}
use unver.State.{AppState}
use unver.Action.{
  Keeps, bind-Keeps, ok_or-Keeps, gets-Keeps, modify-Keeps, for_some-Keeps, reads-Keeps, pure-Keeps,
}
use unver.Certs.{load_certs_to_cache}
use unver.Prelude.Trim.{trim}
use unver.Certificates.{
  Uploaded, check_upload, encrypt_key_for_db, on_certs, on_rules, Env, has_id, has_domain, replaced,
  upsert, update_where, set_auto_renew, store_row, find_cert, reload_cache, manual_row, is_bound_to,
  unbind, Upload, store, upload_trimmed, upload_certificate, delete_certificate, update_certificate,
}

abbrev pub id_of : Certificate → Text
id_of c = c.id

abbrev domain_of : Certificate → Text
domain_of c = c.domain

-- The ids are all different, and so are the domains.
abbrev pub IsKeyed : List Certificate → Type 0
IsKeyed cs = Distinct id_of cs × Distinct domain_of cs

abbrev pub HasKeyed : AppState → Type 0
HasKeyed s = IsKeyed s.db.certificates

module _ (key : Certificate → Text) (row : Certificate) where
  -- An upsert brings no key but the row's,
  upsert-Lacks :
      ((c : Certificate) → key (replaced row c) ≡ key c)
      → (k : Text) (cs : List Certificate) → Lacks key k cs
      → text_eq (key row) k ≡ false
      → Lacks key k (upsert row cs)
  upsert-Lacks same k [] l e = (e, tt)
  upsert-Lacks same k (c ∷ cs) (ec, l) e =
      let rest = upsert-Lacks same k cs l e in
      elim (Bool-cases (has_domain row.domain c)) [
        | inl t ↦ rw (t, All) (cc (same c, ec), l)
        | inr t ↦ rw (t, All) (ec, rest)
      ]

  -- A key that a row with another domain has is not the row's.
  Differs : Certificate → Type 0
  Differs c = has_domain row.domain c ≡ false → text_eq (key row) (key c) ≡ false

  -- and keeps keys apart where the row's differs from those that stay.
  upsert-Distinct :
      ((c : Certificate) → key (replaced row c) ≡ key c)
      → (cs : List Certificate) → Distinct key cs
      → All Differs cs
      → Distinct key (upsert row cs)
  unfolding Differs
  upsert-Distinct same [] d a = (tt, tt)
  upsert-Distinct same (c ∷ cs) (l, d) (ac, a) =
      let rest = upsert-Distinct same cs d a in
      elim (Bool-cases (has_domain row.domain c)) [
        | inl t ↦ rw (t, same c, Distinct) (l, d)
        | inr t ↦ rw (t, Distinct) (upsert-Lacks same (key c) cs l (ac t), rest)
      ]

pub upsert-IsKeyed :
    (row : Certificate) (cs : List Certificate)
    → IsKeyed cs
    → is_some (find_first (has_id row.id) cs) ≡ false
    → IsKeyed (upsert row cs)
unfolding Differs
upsert-IsKeyed row cs (i, d) h = (
  upsert-Distinct id_of row (λ c. refl) cs i
      (All-map _ _ (λ c e _. text_eq_sym c.id row.id e) cs (find_first-Lacks id_of row.id cs h)),
  upsert-Distinct domain_of row (λ c. refl) cs d
      (All-always _ (λ c e. text_eq_sym c.domain row.domain e) cs),
)

pub store_row-Keeps : (row : Certificate) → Keeps HasKeyed (store_row row)
unfolding Keeps
store_row-Keeps row s v =
    elim (Bool-cases (is_some (find_first (has_id row.id) s.db.certificates))) [
      | inl e ↦ rw e v
      | inr e ↦ rw e (upsert-IsKeyed row s.db.certificates v e)
    ]

update_where-Lacks :
    (key : Certificate → Text) (id : Text) (f : Certificate → Certificate)
    → ((c : Certificate) → key (f c) ≡ key c)
    → (k : Text) (cs : List Certificate) → Lacks key k cs
    → Lacks key k (update_where id f cs)
update_where-Lacks key id f same k [] l = tt
update_where-Lacks key id f same k (c ∷ cs) (e, l) =
    let rest = update_where-Lacks key id f same k cs l in
    elim (Bool-cases (has_id id c)) [
      | inl t ↦ rw (t, All, same c) (e, rest)
      | inr t ↦ rw (t, All) (e, rest)
    ]

update_where-Distinct :
    (key : Certificate → Text) (id : Text) (f : Certificate → Certificate)
    → ((c : Certificate) → key (f c) ≡ key c)
    → (cs : List Certificate) → Distinct key cs
    → Distinct key (update_where id f cs)
update_where-Distinct key id f same [] d = tt
update_where-Distinct key id f same (c ∷ cs) (l, d) =
    let rest = update_where-Distinct key id f same cs d in
    let kept = update_where-Lacks key id f same (key c) cs l in
    elim (Bool-cases (has_id id c)) [
      | inl t ↦ rw (t, Distinct, same c) (kept, rest)
      | inr t ↦ rw (t, Distinct) (kept, rest)
    ]

module _ (env : Env) where
  reload-Keeps : Keeps HasKeyed (reload_cache env)
  unfolding Keeps load_certs_to_cache
  reload-Keeps s v = v

  abbrev answer : Text → Text → Uploaded
  answer domain expires_at = record { id = env.new_id; domain = domain; expires_at = expires_at }

  upload-Keeps : (body : Upload) → Keeps HasKeyed (upload_certificate env body)
  unfolding upload_certificate upload_trimmed store
  upload-Keeps body =
      let domain = trim (unwrap_or body.domain []) in
      let cert_pem = trim (unwrap_or body.cert_pem []) in
      let key_pem = trim (unwrap_or body.key_pem []) in
      bind-Keeps HasKeyed _ _ (reads-Keeps HasKeyed λ s. check_upload env domain cert_pem key_pem)
        λ expires_at.
          bind-Keeps HasKeyed _ _
            (reads-Keeps HasKeyed λ s. encrypt_key_for_db env.crypto env.nonce key_pem s.db)
            λ encrypted.
              bind-Keeps HasKeyed _ _
                (store_row-Keeps (manual_row env domain cert_pem encrypted expires_at))
                λ _.
                  bind-Keeps HasKeyed _ _ reload-Keeps
                    λ _. pure-Keeps HasKeyed (answer domain expires_at)

  find_cert-Keeps : (id : Text) → Keeps HasKeyed (find_cert id)
  find_cert-Keeps id =
      bind-Keeps HasKeyed _ _ (gets-Keeps HasKeyed (λ s. find_first (has_id id) s.db.certificates))
        λ row. ok_or-Keeps HasKeyed row not_found

  delete-Keeps : (id : Text) → Keeps HasKeyed (delete_certificate env id)
  unfolding delete_certificate
  delete-Keeps id = bind-Keeps HasKeyed _ _ (find_cert-Keeps id) λ row.
      bind-Keeps HasKeyed _ _
        (modify-Keeps HasKeyed (on_certs (retain (λ c. not (has_id id c)))) λ s v. (
          retain-Distinct id_of _ s.db.certificates v.0,
          retain-Distinct domain_of _ s.db.certificates v.1,
        ))
        λ _.
          bind-Keeps HasKeyed _ _ (modify-Keeps HasKeyed (on_rules (unbind env.now id)) λ s v. v)
            λ _. bind-Keeps HasKeyed _ _ reload-Keeps λ _. pure-Keeps HasKeyed row.domain

  update-Keeps : (id : Text) (b : Option Bool) → Keeps HasKeyed (update_certificate env id b)
  unfolding update_certificate
  update-Keeps id b = for_some-Keeps HasKeyed b _ λ b.
      modify-Keeps HasKeyed (on_certs (update_where id (set_auto_renew env b))) λ s v. (
        update_where-Distinct id_of id (set_auto_renew env b) (λ c. refl) s.db.certificates v.0,
        update_where-Distinct domain_of id (set_auto_renew env b) (λ c. refl) s.db.certificates v.1,
      )

-- A handler runs, whatever its input and its result.
pub data Step (s : AppState) : AppState → Type 0 where
  uploads : (env : Env) (body : Upload) → Step s (upload_certificate env body s).1
  deletes : (env : Env) (id : Text) → Step s (delete_certificate env id s).1
  updates : (env : Env) (id : Text) (b : Option Bool) → Step s (update_certificate env id b s).1

pub data Reach (s : AppState) : AppState → Type 0 where
  here : Reach s s
  next : {t u : AppState} → Reach s t → Step t u → Reach s u

Step-HasKeyed : {s t : AppState} → Step s t → HasKeyed s → HasKeyed t
unfolding Keeps
Step-HasKeyed (uploads env body) v = upload-Keeps env body _ v
Step-HasKeyed (deletes env id) v = delete-Keeps env id _ v
Step-HasKeyed (updates env id b) v = update-Keeps env id b _ v

-- From certificates whose ids are all different and whose domains are all different, the handlers that
-- upload, delete and update reach only such tables, whatever they are sent and whether they succeed.
pub Reach-HasKeyed : {s t : AppState} → HasKeyed s → Reach s t → HasKeyed t
Reach-HasKeyed v here = v
Reach-HasKeyed v (next r st) = Step-HasKeyed st (Reach-HasKeyed v r)

unbind-none :
    (now id : Text) (rs : List ProxyRule) → All (λ r. is_bound_to id r ≡ false) (unbind now id rs)
unbind-none now id [] = tt
unbind-none now id (r ∷ rs) =
    let rest = unbind-none now id rs in
    elim (Bool-cases (is_bound_to id r)) [
      | inl e ↦ rw (e, All) (refl, rest)
      | inr e ↦ rw (e, All) (e, rest)
    ]

-- A delete that succeeds leaves no certificate with the id and no rule that is bound to it; one that
-- fails changes nothing, and the error is `NotFound`.
pub delete-unbinds :
    (env : Env) (id : Text) (s : AppState)
    → let after = (delete_certificate env id s).1 in
      (All (λ c. has_id id c ≡ false) after.db.certificates
        × All (λ r. is_bound_to id r ≡ false) after.db.proxy_rules)
      ⊎ (delete_certificate env id s ≡ (err not_found, s))
unfolding delete_certificate load_certs_to_cache
delete-unbinds env id s = elim (Option-cases (find_first (has_id id) s.db.certificates)) [
  | inl e ↦ inr (rw e)
  | inr (c, e) ↦
      inl
        (rw e (retain-none (has_id id) s.db.certificates, unbind-none env.now id s.db.proxy_rules))
]
