-- ===== src/Rules/Keeping.antt =====
-- The handlers of backend/src/api/proxies.rs keep the domains valid.
use unver.Prelude.{
  inl, inr, ◌≡◌, refl, Bool, true, false, not, List, [], ◌∷◌, arith, Text, is_some, find_first, All,
  All-append, retain-All, Bool-cases,
}
use unver.Models.{ProxyRule, CreateProxyRule, UpdateProxyRule}
use unver.Errors.{AppResult, ok, err, not_found}
use unver.State.{AppState}
use unver.Action.{
  Keeps, bind-Keeps, for_some-Keeps, ok_or-Keeps, gets-Keeps, modify-Keeps, Keeps, lift, ◌>>◌,
}
use unver.Certs.{load_certs_to_cache}
use unver.Rules.{
  Env, has_id, get, update_where, set_where, insert_row, new_row, validate_domain, validate_rule,
  refresh_certs, refresh_if, create, update_route, update, set_name, set_domain, set_target_url,
  set_ssl_enabled, set_force_https, set_enabled, set_port_group_id, set_rule_type, set_cert_id,
  set_redirect_code, delete_row, delete,
}

abbrev pub IsNamed : ProxyRule → Type 0
IsNamed r = validate_domain r.domain ≡ ok tt

abbrev pub HasNames : AppState → Type 0
HasNames s = All IsNamed s.db.proxy_rules

update_where-Names :
    (id : Text) (f : ProxyRule → ProxyRule)
    → ((r : ProxyRule) → IsNamed r → IsNamed (f r))
    → (rs : List ProxyRule) → All IsNamed rs
    → All IsNamed (update_where id f rs)
update_where-Names id f k [] a = tt
update_where-Names id f k (r ∷ rs) (p, a) =
    let rest = update_where-Names id f k rs a in
    elim (Bool-cases (has_id id r)) [ inl e ↦ rw e (k r p, rest) | inr e ↦ rw e (p, rest) ]

set-Keeps :
    (id : Text) (f : ProxyRule → ProxyRule)
    → ((r : ProxyRule) → IsNamed r → IsNamed (f r))
    → Keeps HasNames (set_where id f)
unfolding Keeps
set-Keeps id f k s a = update_where-Names id f k s.db.proxy_rules a

get-Keeps : (id : Text) → Keeps HasNames (get id)
unfolding get
get-Keeps id =
    bind-Keeps HasNames _ _ (gets-Keeps HasNames (λ s. find_first (has_id id) s.db.proxy_rules))
      (λ row. ok_or-Keeps HasNames row not_found)

module _ (env : Env) where
  refresh-Keeps : Keeps HasNames (refresh_certs env)
  unfolding Keeps load_certs_to_cache
  refresh-Keeps s a = a

  lift-Keeps : (r : AppResult (Unit {0})) → Keeps HasNames (lift r)
  unfolding Keeps
  lift-Keeps r s a = a

  insert-Keeps :
      (body : CreateProxyRule)
      → validate_rule env body.rule_type body.domain body.target_url ≡ ok tt
      → Keeps HasNames (insert_row (new_row env body))
  unfolding Keeps validate_rule
  insert-Keeps body v s a =
      elim (Bool-cases (is_some (find_first (has_id env.new_id) s.db.proxy_rules))) [
        | inl e ↦ rw e a
        | inr e ↦
            rw e (All-append IsNamed s.db.proxy_rules (new_row env body ∷ []) a (ground arith, tt))
      ]

  refresh_if-Keeps : (b : Bool) → Keeps HasNames (refresh_if env b)
  unfolding Keeps load_certs_to_cache
  refresh_if-Keeps true s a = a
  refresh_if-Keeps false s a = a

  stored-Keeps :
      (body : CreateProxyRule)
      → validate_rule env body.rule_type body.domain body.target_url ≡ ok tt
      → Keeps HasNames
          (insert_row (new_row env body) >> (refresh_if env body.ssl_enabled >> get env.new_id))
  stored-Keeps body v =
      bind-Keeps HasNames _ _ (insert-Keeps body v) (λ _.
        bind-Keeps HasNames _ _ (refresh_if-Keeps body.ssl_enabled) (λ _. get-Keeps env.new_id))

  pub create-Keeps : (body : CreateProxyRule) → Keeps HasNames (create env body)
  unfolding create Keeps
  create-Keeps body s a = go (validate_rule env body.rule_type body.domain body.target_url) refl
    where
      go :
          (r : AppResult (Unit {0}))
          → validate_rule env body.rule_type body.domain body.target_url ≡ r
          → HasNames
              ((lift r
                  >> (insert_row (new_row env body)
                      >> (refresh_if env body.ssl_enabled >> get env.new_id)))
                s).1
      go (ok tt) e = stored-Keeps body e s a
      go (err x) e = a

  domain-Keeps :
      (id v : Text)
      → Keeps HasNames
          (lift (validate_domain v) >> (set_where id (set_domain env v) >> refresh_certs env))
  unfolding Keeps load_certs_to_cache
  domain-Keeps id v s a = go (validate_domain v) refl
    where
      go :
          (r : AppResult (Unit {0}))
          → validate_domain v ≡ r
          → HasNames ((lift r >> (set_where id (set_domain env v) >> refresh_certs env)) s).1
      go (ok tt) e = update_where-Names id (set_domain env v) (λ r p. e) s.db.proxy_rules a
      go (err x) e = a

  route-Keeps : (id : Text) (body : UpdateProxyRule) → Keeps HasNames (update_route env id body)
  route-Keeps id body =
      bind-Keeps HasNames _ _ (for_some-Keeps HasNames body.target_url _ (λ v. lift-Keeps _)) (λ _.
        bind-Keeps HasNames _ _
          (for_some-Keeps HasNames body.name _ (λ v. set-Keeps id (set_name env v) (λ r p. p)))
          (λ _.
            bind-Keeps HasNames _ _ (for_some-Keeps HasNames body.domain _ (λ v. domain-Keeps id v))
              (λ _.
                for_some-Keeps HasNames body.target_url _
                  (λ v. set-Keeps id (set_target_url env v) (λ r p. p)))))

  then-refresh-Keeps :
      (id : Text) (f : ProxyRule → ProxyRule)
      → ((r : ProxyRule) → IsNamed r → IsNamed (f r))
      → Keeps HasNames (set_where id f >> refresh_certs env)
  then-refresh-Keeps id f k = bind-Keeps HasNames _ _ (set-Keeps id f k) (λ _. refresh-Keeps)

  pub update-Keeps : (id : Text) (body : UpdateProxyRule) → Keeps HasNames (update env id body)
  unfolding update
  update-Keeps id body =
      bind-Keeps HasNames _ _ (gets-Keeps HasNames (λ s. find_first (has_id id) s.db.proxy_rules))
        (λ row. bind-Keeps HasNames _ _ (ok_or-Keeps HasNames row not_found) (λ _.
          bind-Keeps HasNames _ _ (route-Keeps id body) (λ _.
            bind-Keeps HasNames _ _
              (for_some-Keeps HasNames body.ssl_enabled _
                (λ v. then-refresh-Keeps id (set_ssl_enabled env v) (λ r p. p)))
              (λ _.
                bind-Keeps HasNames _ _
                  (for_some-Keeps HasNames body.force_https _
                    (λ v. set-Keeps id (set_force_https env v) (λ r p. p)))
                  (λ _.
                    bind-Keeps HasNames _ _
                      (for_some-Keeps HasNames body.enabled _
                        (λ v. then-refresh-Keeps id (set_enabled env v) (λ r p. p)))
                      (λ _.
                        bind-Keeps HasNames _ _
                          (for_some-Keeps HasNames body.port_group_id _
                            (λ v. set-Keeps id (set_port_group_id env v) (λ r p. p)))
                          (λ _.
                            bind-Keeps HasNames _ _
                              (for_some-Keeps HasNames body.rule_type _
                                (λ v. set-Keeps id (set_rule_type env v) (λ r p. p)))
                              (λ _.
                                bind-Keeps HasNames _ _
                                  (for_some-Keeps HasNames body.cert_id _
                                    (λ v. then-refresh-Keeps id (set_cert_id env v) (λ r p. p)))
                                  (λ _.
                                    bind-Keeps HasNames _ _
                                      (for_some-Keeps HasNames body.redirect_code _
                                        (λ v. set-Keeps id (set_redirect_code env v) (λ r p. p)))
                                      (λ _. get-Keeps id))))))))))

  pub delete-Keeps : (id : Text) → Keeps HasNames (delete env id)
  unfolding delete
  delete-Keeps id =
      bind-Keeps HasNames _ _ (gets-Keeps HasNames (λ s. find_first (has_id id) s.db.proxy_rules))
        (λ row. bind-Keeps HasNames _ _ (ok_or-Keeps HasNames row not_found) (λ _.
          bind-Keeps HasNames _ _
            (modify-Keeps HasNames (delete_row env id)
              (λ s a. retain-All (λ r. not (has_id id r)) IsNamed s.db.proxy_rules a))
            (λ _. refresh-Keeps)))
