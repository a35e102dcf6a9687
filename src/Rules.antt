-- ===== src/Rules.antt =====
-- The proxy rules: the handlers and the validation of backend/src/api/proxies.rs. The URL parser is a
-- parameter, as is what the certificate cache needs.
pub mod Keeping
pub mod Names
use unver.Prelude.{
  ℕ, suc, Bool, true, false, not, ◌&&◌, ◌||◌, ◌==◌, Option, none, some, List, [], ◌∷◌, ◌++◌, map,
  Text, codes, text_eq, is_some, is_empty, is_alnum, contains, contains_char, split_on, all, length,
  retain, ltb, leb, find_first, if◌then◌else◌, text_lt,
}
use unver.Prelude.Int.{ℤ, pos}
use unver.Models.{ProxyRule, CreateProxyRule, UpdateProxyRule}
use unver.Errors.{AppResult, ok, err, not_found, bad_request, database}
use unver.State.{Db, AppState}
use unver.Action.{Action, lift, ok_or, gets, modify, for_some, ◌>>=◌, ◌>>◌}
use unver.Certs.{load_certs_to_cache}
use unver.Conn.{active_connections}

-- `Url::parse` with `scheme` and `host_str`.
pub record Url : Type 0 where
  pub scheme : Text
  pub host : Option Text

pub record Env : Type 0 where
  pub new_id : Text
  pub now : Text
  pub parse_url : Text → Option Url
  pub decrypt : Text → Text → Option Text
  pub parses : Text → Text → Bool

unfoldable pub validate_tcp_backend : Text → AppResult (Unit {0})
validate_tcp_backend addr =
    if is_empty addr
    then err (bad_request (codes "TCP backend required"))
    else if not (contains_char addr b':')
    then err (bad_request (codes "TCP backend must be host:port"))
    else ok tt

-- A label of a domain. A byte of a character beyond ASCII is not in the class, like the character.
abbrev pub is_label : Text → Bool
is_label part =
    not (is_empty part) && leb (length part) 63 && all (λ c. is_alnum c || c == b'-') part

unfoldable pub validate_domain : Text → AppResult (Unit {0})
validate_domain domain =
    if is_empty domain || ltb 253 (length domain)
    then err (bad_request (codes "Invalid domain"))
    else if contains domain (codes "://")
        || contains_char domain b'/'
        || contains_char domain b'\\'
        || contains_char domain b' '
    then err (bad_request (codes "Domain must be a hostname without scheme or path"))
    else if not (all is_label (split_on b'.' domain))
    then err (bad_request (codes "Invalid domain label"))
    else ok tt

-- `ORDER BY created_at DESC`; `text_lt` is the order of the column.
abbrev insert_by_age : ProxyRule → List ProxyRule → List ProxyRule
insert_by_age r [] = r ∷ []
insert_by_age r (q ∷ qs) =
    let rest = insert_by_age r qs in
    if text_lt r.created_at q.created_at then q ∷ rest else r ∷ q ∷ qs

abbrev by_age : List ProxyRule → List ProxyRule
by_age [] = []
by_age (r ∷ rs) = insert_by_age r (by_age rs)

-- Each rule with its active connections.
unfoldable pub list : Action AppState (List (ProxyRule × ℕ))
list = gets (λ s. map (λ r. (r, active_connections r.id s.conn_counter)) (by_age s.db.proxy_rules))

abbrev pub has_id : Text → ProxyRule → Bool
has_id id r = text_eq r.id id

unfoldable pub get : Text → Action AppState ProxyRule
get id = do row ← gets (λ s. find_first (has_id id) s.db.proxy_rules); ok_or row not_found

abbrev pub on_rules : (List ProxyRule → List ProxyRule) → AppState → AppState
on_rules f s = record s { db = record (s.db) { proxy_rules = f s.db.proxy_rules } }

abbrev pub update_where : Text → (ProxyRule → ProxyRule) → List ProxyRule → List ProxyRule
update_where id f [] = []
update_where id f (r ∷ rs) = (if has_id id r then f r else r) ∷ update_where id f rs

abbrev pub set_where : Text → (ProxyRule → ProxyRule) → Action AppState (Unit {0})
set_where id f = modify (on_rules (update_where id f))

abbrev pub insert_row : ProxyRule → Action AppState (Unit {0})
insert_row r s =
    if is_some (find_first (has_id r.id) s.db.proxy_rules)
    then (err database, s)
    else (ok tt, on_rules (λ rs. rs ++ r ∷ []) s)

-- A row with the defaults of the schema.
abbrev pub new_row : Env → CreateProxyRule → ProxyRule
new_row env body = record {
  id = env.new_id;
  name = body.name;
  domain = body.domain;
  target_url = body.target_url;
  rule_type = body.rule_type;
  redirect_code = body.redirect_code;
  ssl_enabled = body.ssl_enabled;
  cert_id = body.cert_id;
  force_https = body.force_https;
  enabled = body.enabled;
  port_group_id = some body.port_group_id;
  status = codes "unknown";
  last_checked_at = none;
  created_at = env.now;
  updated_at = env.now;
}

module _ (env : Env) where
  open env use {now, parse_url}

  unfoldable pub validate_target_url : Text → AppResult (Unit {0})
  validate_target_url url = elim (parse_url url) [
    | none ↦ err (bad_request (codes "Target URL is not valid"))
    | some parsed ↦
        if not (text_eq parsed.scheme (codes "http") || text_eq parsed.scheme (codes "https"))
        then err (bad_request (codes "Target URL must start with http:// or https://"))
        else if not (is_some parsed.host)
        then err (bad_request (codes "Target URL must include a host"))
        else if ltb 2048 (length url)
        then err (bad_request (codes "Target URL too long"))
        else ok tt
  ]

  abbrev pub validate_target : Text → Text → AppResult (Unit {0})
  validate_target rule_type target_url =
      if text_eq rule_type (codes "proxy") || text_eq rule_type (codes "redirect")
      then validate_target_url target_url
      else if text_eq rule_type (codes "tcp")
      then validate_tcp_backend target_url
      else err (bad_request (codes "Invalid rule_type"))

  abbrev and_then : AppResult (Unit {0}) → AppResult (Unit {0}) → AppResult (Unit {0})
  and_then (ok tt) r = r
  and_then (err e) r = err e

  unfoldable pub validate_rule : Text → Text → Text → AppResult (Unit {0})
  validate_rule rule_type domain target_url =
      and_then (validate_domain domain) (validate_target rule_type target_url)

  abbrev pub refresh_certs : Action AppState (Unit {0})
  refresh_certs = modify (load_certs_to_cache env.parses env.decrypt now)

  abbrev pub refresh_if : Bool → Action AppState (Unit {0})
  refresh_if b s = (ok tt, if b then load_certs_to_cache env.parses env.decrypt now s else s)

  unfoldable pub create : CreateProxyRule → Action AppState ProxyRule
  create body = do
    lift (validate_rule body.rule_type body.domain body.target_url)
    insert_row (new_row env body)
    refresh_if body.ssl_enabled
    get env.new_id

  abbrev pub set_name : Text → ProxyRule → ProxyRule
  set_name v r = record r { name = v; updated_at = now }

  abbrev pub set_domain : Text → ProxyRule → ProxyRule
  set_domain v r = record r { domain = v; updated_at = now }

  abbrev pub set_target_url : Text → ProxyRule → ProxyRule
  set_target_url v r = record r { target_url = v; updated_at = now }

  abbrev pub set_ssl_enabled : Bool → ProxyRule → ProxyRule
  set_ssl_enabled v r = record r { ssl_enabled = v; updated_at = now }

  abbrev pub set_force_https : Bool → ProxyRule → ProxyRule
  set_force_https v r = record r { force_https = v; updated_at = now }

  abbrev pub set_enabled : Bool → ProxyRule → ProxyRule
  set_enabled v r = record r { enabled = v; updated_at = now }

  abbrev pub set_port_group_id : Text → ProxyRule → ProxyRule
  set_port_group_id v r = record r { port_group_id = some v; updated_at = now }

  abbrev pub set_rule_type : Text → ProxyRule → ProxyRule
  set_rule_type v r = record r { rule_type = v; updated_at = now }

  abbrev pub set_cert_id : Text → ProxyRule → ProxyRule
  set_cert_id v r = record r { cert_id = some v; updated_at = now }

  abbrev pub set_redirect_code : ℤ → ProxyRule → ProxyRule
  set_redirect_code v r = record r { redirect_code = some v; updated_at = now }

  -- The first half of `update`, up to the new target.
  abbrev pub update_route : Text → UpdateProxyRule → Action AppState (Unit {0})
  update_route id body = do
    for_some body.target_url (λ v. lift (validate_target_url v))
    for_some body.name (λ v. set_where id (set_name v))
    for_some body.domain
        (λ v. lift (validate_domain v) >> (set_where id (set_domain v) >> refresh_certs))
    for_some body.target_url (λ v. set_where id (set_target_url v))

  unfoldable pub update : Text → UpdateProxyRule → Action AppState ProxyRule
  update id body = do
    row ← gets (λ s. find_first (has_id id) s.db.proxy_rules)
    _ ← ok_or row not_found
    update_route id body
    for_some body.ssl_enabled (λ v. set_where id (set_ssl_enabled v) >> refresh_certs)
    for_some body.force_https (λ v. set_where id (set_force_https v))
    for_some body.enabled (λ v. set_where id (set_enabled v) >> refresh_certs)
    for_some body.port_group_id (λ v. set_where id (set_port_group_id v))
    for_some body.rule_type (λ v. set_where id (set_rule_type v))
    for_some body.cert_id (λ v. set_where id (set_cert_id v) >> refresh_certs)
    for_some body.redirect_code (λ v. set_where id (set_redirect_code v))
    get id

  abbrev pub delete_row : Text → AppState → AppState
  delete_row id = on_rules (retain (λ r. not (has_id id r)))

  unfoldable pub delete : Text → Action AppState (Unit {0})
  delete id = do
    row ← gets (λ s. find_first (has_id id) s.db.proxy_rules)
    _ ← ok_or row not_found
    modify (delete_row id)
    refresh_certs
