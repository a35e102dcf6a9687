-- ===== src/Rules/Names.antt =====
-- What the handlers of backend/src/api/proxies.rs store: valid domains, and rules that the proxy of
-- backend/src/proxy.rs finds.
use unver.Prelude.{
  inl, inr, ◌≡◌, refl, ◌∙◌, Bool, true, false, List, [], ◌∷◌, ◌++◌, arith, Text, text_eq_refl,
  is_some, find_first, Bool-cases,
}
use unver.Models.{ProxyRule, CreateProxyRule, UpdateProxyRule}
use unver.Errors.{ok}
use unver.State.{AppState}
use unver.Action.{Keeps, Ensures, bind-Ensures, Keeps, lift}
use unver.Certs.{load_certs_to_cache}
use unver.Proxy.{matches, find_rule}
use unver.Rules.{
  Env, has_id, get, insert_row, new_row, validate_rule, refresh_if, create, update, delete,
}
use unver.Rules.Keeping.{HasNames, create-Keeps, update-Keeps, delete-Keeps}

-- A handler runs, whatever its input and its result.
pub data Step (s : AppState) : AppState → Type 0 where
  creates : (env : Env) (body : CreateProxyRule) → Step s (create env body s).1
  updates : (env : Env) (id : Text) (body : UpdateProxyRule) → Step s (update env id body s).1
  deletes : (env : Env) (id : Text) → Step s (delete env id s).1

pub data Reach (s : AppState) : AppState → Type 0 where
  here : Reach s s
  next : {t u : AppState} → Reach s t → Step t u → Reach s u

Step-HasNames : {s t : AppState} → Step s t → HasNames s → HasNames t
unfolding Keeps
Step-HasNames (creates env body) a = create-Keeps env body _ a
Step-HasNames (updates env id body) a = update-Keeps env id body _ a
Step-HasNames (deletes env id) a = delete-Keeps env id _ a

-- From rules whose domains all pass `validate_domain`, the handlers reach only such rules, whatever they
-- are sent, in whatever order, and whether they succeed or fail.
pub Reach-HasNames : {s t : AppState} → HasNames s → Reach s t → HasNames t
Reach-HasNames a here = a
Reach-HasNames a (next r st) = Step-HasNames st (Reach-HasNames a r)

find_first-append :
    {A : Type 0} (test : A → Bool) (xs : List A) (x : A)
    → test x ≡ true
    → is_some (find_first test (xs ++ x ∷ [])) ≡ true
find_first-append test [] x e = rw (find_first, e) refl
find_first-append test (y ∷ xs) x e = elim (Bool-cases (test y)) [
  | inl t ↦ rw (find_first, t) refl
  | inr t ↦ rw (find_first, t) (find_first-append test xs x e)
]

abbrev Holds : List ProxyRule → ProxyRule → AppState → Type 0
Holds rs row s = s.db.proxy_rules ≡ rs

get-Ensures :
    (rs : List ProxyRule) (id : Text) (s : AppState)
    → s.db.proxy_rules ≡ rs
    → Ensures (Holds rs) (get id) s
unfolding Ensures get
get-Ensures rs id s h row e = h

insert_row-rules :
    (r : ProxyRule) (s : AppState)
    → (insert_row r s).0 ≡ ok tt
    → (insert_row r s).1.db.proxy_rules ≡ s.db.proxy_rules ++ r ∷ []
insert_row-rules r s h = elim (Bool-cases (is_some (find_first (has_id r.id) s.db.proxy_rules))) [
  | inl e ↦ absurd (ground arith)
  | inr e ↦ rw e refl
]

refresh_if-rules :
    (env : Env) (b : Bool) (s : AppState) → (refresh_if env b s).1.db.proxy_rules ≡ s.db.proxy_rules
unfolding load_certs_to_cache
refresh_if-rules env true s = refl
refresh_if-rules env false s = refl

create-Ensures :
    (env : Env) (body : CreateProxyRule) (s : AppState)
    → Ensures (Holds (s.db.proxy_rules ++ new_row env body ∷ [])) (create env body) s
unfolding create
create-Ensures env body s =
    let Q = Holds (s.db.proxy_rules ++ new_row env body ∷ []) in
    bind-Ensures Q (lift (validate_rule env body.rule_type body.domain body.target_url)) _ s (λ _ _.
      bind-Ensures Q (insert_row (new_row env body)) _ _ (λ _ e.
        bind-Ensures Q (refresh_if env body.ssl_enabled) _ _ (λ _ _. get-Ensures _ env.new_id _ (
          refresh_if-rules env body.ssl_enabled (insert_row (new_row env body) s).1
          ∙ insert_row-rules (new_row env body) s e))))

create-rules :
    (env : Env) (body : CreateProxyRule) (s : AppState) (row : ProxyRule)
    → (create env body s).0 ≡ ok row
    → (create env body s).1.db.proxy_rules ≡ s.db.proxy_rules ++ new_row env body ∷ []
unfolding Ensures
create-rules env body s row h = create-Ensures env body s row h

-- A rule that has been created enabled is found: for its domain and its port group the proxy has a
-- rule.
pub find_rule-create :
    (env : Env) (body : CreateProxyRule) (s : AppState) (row : ProxyRule)
    → body.enabled ≡ true
    → (create env body s).0 ≡ ok row
    → is_some (find_rule (create env body s).1.db body.domain body.port_group_id) ≡ true
unfolding find_rule
find_rule-create env body s row on h = rw (create-rules env body s row h) (
    find_first-append (matches body.domain body.port_group_id) s.db.proxy_rules (new_row env body)
      (rw (text_eq_refl body.domain, text_eq_refl body.port_group_id) on))
