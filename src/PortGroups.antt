-- ===== src/PortGroups.antt =====
-- The port groups: the handlers of backend/src/api/port_groups.rs on the tables `port_groups` and
-- `proxy_rules`, and `reload_listeners` of backend/src/proxy.rs, which opens a listener for each
-- enabled group. A new UUID, the time and whether the system lets a port be bound are parameters.
pub mod Valid
pub mod Handlers
pub mod Listeners
use unver.Prelude.{
  ℕ, suc, Bool, true, false, not, Option, none, some, List, [], ◌∷◌, ◌++◌, map, Text, codes,
  text_eq, is_some, retain, find_first, if◌then◌else◌, ◌&&◌,
}
use unver.Prelude.Int.{ℤ, int_eq, int_leb, from_one_to, as_u16, int_decimal}
use unver.Prelude.Assoc.{Assoc, insert}
use unver.Models.{PortGroup, CreatePortGroup, UpdatePortGroup, ProxyRule}
use unver.Errors.{AppResult, ok, err, not_found, bad_request, database}
use unver.State.{Db, AppState}
use unver.Action.{Action, ok_or, gets, guarded, modify, reject_if, for_some, ◌>>=◌, ◌>>◌}

-- What a handler takes from outside.
pub record Env : Type 0 where
  pub new_id : Text
  pub now : Text
  pub can_bind : ℤ → Bool

abbrev pub has_id : Text → PortGroup → Bool
has_id id g = text_eq g.id id

abbrev pub on_groups : (List PortGroup → List PortGroup) → AppState → AppState
on_groups f s = record s { db = record (s.db) { port_groups = f s.db.port_groups } }

-- `UPDATE port_groups SET … WHERE id = ?`
abbrev pub update_where : Text → (PortGroup → PortGroup) → List PortGroup → List PortGroup
update_where id f [] = []
update_where id f (g ∷ gs) = (if has_id id g then f g else g) ∷ update_where id f gs

abbrev pub set_where : Text → (PortGroup → PortGroup) → Action AppState (Unit {0})
set_where id f = modify (on_groups (update_where id f))

-- `port_group_reload.send(())`
abbrev pub send_reload : Action AppState (Unit {0})
send_reload = modify (λ s. record s { reloads = suc s.reloads })

-- `ORDER BY listen_port ASC`
abbrev pub insert_by_port : PortGroup → List PortGroup → List PortGroup
insert_by_port g [] = g ∷ []
insert_by_port g (h ∷ gs) =
    let rest = insert_by_port g gs in
    if int_leb g.listen_port h.listen_port then g ∷ h ∷ gs else h ∷ rest

abbrev pub by_port : List PortGroup → List PortGroup
by_port [] = []
by_port (g ∷ gs) = insert_by_port g (by_port gs)

unfoldable pub list : Action AppState (List PortGroup)
list = gets (λ s. by_port s.db.port_groups)

unfoldable pub get : Text → Action AppState PortGroup
get id = do row ← gets (λ s. find_first (has_id id) s.db.port_groups); ok_or row not_found

-- `SELECT … WHERE port_group_id = ?`
abbrev pub in_group : Text → ProxyRule → Bool
in_group id r = elim r.port_group_id [ none ↦ false | some g ↦ text_eq g id ]

abbrev pub out_of_range : ℤ → Bool
out_of_range port = not (from_one_to 65535 port)

abbrev pub port_in_use : ℤ → Text
port_in_use port = codes "Port " ++ int_decimal port ++ codes " is already in use"

abbrev pub port_occupied : ℤ → Text
port_occupied port = codes "Port " ++ int_decimal port ++ codes " is occupied by another process"

abbrev pub new_row : Env → CreatePortGroup → PortGroup
new_row env body = record {
  id = env.new_id;
  name = body.name;
  listen_port = body.listen_port;
  enabled = body.enabled;
  skip_tls_verify = body.skip_tls_verify;
  force_https = body.force_https;
  created_at = env.now;
  updated_at = env.now;
}

-- `INSERT INTO port_groups`, which the primary key can refuse.
abbrev pub insert_row : PortGroup → Action AppState (Unit {0})
insert_row g s =
    if is_some (find_first (has_id g.id) s.db.port_groups)
    then (err database, s)
    else (ok tt, on_groups (λ gs. gs ++ g ∷ []) s)

-- The checks in front of the insertion.
unfoldable pub check_new : Env → ℤ → AppState → AppResult (Unit {0})
check_new env port s =
    if out_of_range port
    then err (bad_request (codes "Port must be 1-65535"))
    else if is_some (find_first (λ g. int_eq g.listen_port port) s.db.port_groups)
    then err (bad_request (port_in_use port))
    else if not (env.can_bind port)
    then err (bad_request (port_occupied port))
    else ok tt

unfoldable pub create : Env → CreatePortGroup → Action AppState PortGroup
create env body = do
  guarded (check_new env body.listen_port)
  insert_row (new_row env body)
  send_reload
  get env.new_id

-- Another group has the port.
abbrev pub conflicts : Text → ℤ → PortGroup → Bool
conflicts id port g = int_eq g.listen_port port && not (has_id id g)

-- The checks in front of a change of the port.
unfoldable pub check_port : Env → Text → ℤ → AppState → AppResult (Unit {0})
check_port env id port s =
    if out_of_range port
    then err (bad_request (codes "Port must be 1-65535"))
    else elim (find_first (has_id id) s.db.port_groups) [
      | none ↦ err not_found
      | some current ↦
          if int_eq port current.listen_port
          then ok tt
          else if is_some (find_first (conflicts id port) s.db.port_groups)
          then err (bad_request (port_in_use port))
          else if not (env.can_bind port)
          then err (bad_request (port_occupied port))
          else ok tt
    ]

abbrev pub set_name : Env → Text → PortGroup → PortGroup
set_name env name g = record g { name = name; updated_at = env.now }

abbrev pub set_port : Env → ℤ → PortGroup → PortGroup
set_port env port g = record g { listen_port = port; updated_at = env.now }

-- The changes behind the port, and the reload.
abbrev pub set_flags : Env → Text → UpdatePortGroup → Action AppState (Unit {0})
set_flags env id body = do
  for_some body.enabled (λ b. set_where id (λ g. record g { enabled = b; updated_at = env.now }))
  for_some body.skip_tls_verify
      (λ b. set_where id (λ g. record g { skip_tls_verify = b; updated_at = env.now }))
  for_some body.force_https
      (λ b. set_where id (λ g. record g { force_https = b; updated_at = env.now }))
  send_reload

unfoldable pub update : Env → Text → UpdatePortGroup → Action AppState PortGroup
update env id body = do
  row ← gets (λ s. find_first (has_id id) s.db.port_groups)
  _ ← ok_or row not_found
  for_some body.name (λ n. set_where id (set_name env n))
  for_some body.listen_port (λ p. guarded (check_port env id p) >> set_where id (set_port env p))
  set_flags env id body
  get id

-- `DELETE FROM port_groups WHERE id = ?`, then the rules of the group.
abbrev pub delete_rows : Text → AppState → AppState
delete_rows id s = record s {
  db = record (s.db) {
    port_groups = retain (λ g. not (has_id id g)) s.db.port_groups;
    proxy_rules = retain (λ r. not (in_group id r)) s.db.proxy_rules;
  };
}

unfoldable pub delete : Text → Action AppState (Unit {0})
delete id = do
  row ← gets (λ s. find_first (has_id id) s.db.port_groups)
  _ ← ok_or row not_found
  modify (delete_rows id)
  send_reload

-- The listeners of `run_proxy_engine`: group → port, its `skip_tls_verify` and its `force_https`.
pub record Listener : Type 0 where
  pub port : ℕ
  pub skip_tls : Bool
  pub force_https : Bool

abbrev pub listener_of : PortGroup → Listener
listener_of g = record {
  port = as_u16 g.listen_port;
  skip_tls = g.skip_tls_verify;
  force_https = g.force_https;
}

abbrev pub spawn_listeners : List PortGroup → Assoc Listener → Assoc Listener
spawn_listeners [] listeners = listeners
spawn_listeners (g ∷ gs) listeners = spawn_listeners gs (insert g.id (listener_of g) listeners)

unfoldable pub reload_listeners : Db → Assoc Listener → Assoc Listener
reload_listeners db listeners =
    spawn_listeners (by_port (retain (λ g. g.enabled) db.port_groups)) listeners

-- A turn of the loop of `run_proxy_engine`: all listeners are aborted, then opened again.
unfoldable pub reload : Db → Assoc Listener → Assoc Listener
unfolding reload_listeners
reload db listeners = reload_listeners db []
