-- ===== src/Tests/PortGroups.antt =====
-- Runs of the handlers of port groups.
use unver.Prelude.{true, false, some, ◌≡◌, refl, [], codes, Any}
use unver.Prelude.Int.{pos}
use unver.Prelude.Assoc.{lookup, insert}
use unver.Models.{CreatePortGroup}
use unver.Errors.{err, bad_request}
use unver.PortGroups.{Env, Listener, create, update, delete, get, check_new, check_port, reload}
use unver.PortGroups.Valid.{HasValid}
use unver.PortGroups.Handlers.{creates, deletes, here, next, Reach-HasValid}
use unver.PortGroups.Listeners.{IsFor, reload-IsFor}
use unver.Tests.Data.{app, db}

abbrev env : Env
env = record { new_id = codes "g2"; now = codes "2024-05-01 12:00:00"; can_bind = λ p. true }

abbrev body : CreatePortGroup
body = record {
  name = codes "HTTP";
  listen_port = pos 80;
  enabled = true;
  skip_tls_verify = false;
  force_https = true;
}

port_groups : Unit {0}
unfolding create update delete get check_new check_port reload lookup insert
port_groups = tt

app-HasValid : HasValid app
app-HasValid = (refl, tt, tt)

refuses_port :
    (create env (record body { listen_port = pos 8443 }) app).0
    ≡ err (bad_request (codes "Port 8443 is already in use"))
unfolding port_groups
refuses_port = refl

-- A group is created, and another deleted.
Reach-HasValid_example : HasValid (delete (codes "g1") (create env body app).1).1
Reach-HasValid_example =
    Reach-HasValid app-HasValid (next (next here (creates env body)) (deletes (codes "g1")))

abbrev listener : Listener
listener = record { port = 8443; skip_tls = false; force_https = false }

listens : lookup (codes "g1") (reload db []) ≡ some listener
unfolding port_groups
listens = refl

reload-IsFor_example : Any (IsFor (codes "g1") listener) db.port_groups
reload-IsFor_example = reload-IsFor db [] (codes "g1") listener app-HasValid listens
