-- ===== src/Tests/Rules.antt =====
-- Runs of the handlers of proxy rules, and of the dispatch of connections.
use unver.Prelude.{◌≡◌, refl, true, false, none, some, [], ◌∷◌, codes, replicate, Any, arith}
use unver.Prelude.Assoc.{lookup, insert}
use unver.Models.{ProxyRule, CreateProxyRule}
use unver.Errors.{ok}
use unver.State.{Db, get_setting}
use unver.Certs.{load_certs_to_cache, decrypt_key_from_db, applies, cert_covers_domain}
use unver.Proxy.{find_rule}
use unver.Rules.{
  Env, validate_domain, validate_rule, validate_target_url, create, update, delete, get, new_row,
}
use unver.Rules.Keeping.{HasNames}
use unver.Rules.Names.{creates, deletes, here, next, Reach-HasNames}
use unver.Sni.{extract_sni}
use unver.Sni.Hello.{Hello, encode, IsHello}
use unver.Serve.{Connection, tunnel, http1, serve_connection, serve_tls, serve_plain}
use unver.Serve.Dispatch.{Tunnels, serve_connection-Tunnels, serve_connection-encode}
use unver.Tests.Data.{app, db, shop_rule}

abbrev env : Env
env = record {
  new_id = codes "r3";
  now = codes "2024-05-01 12:00:00";
  parse_url = λ url. some (record { scheme = codes "http"; host = some (codes "10.0.0.6") });
  decrypt = λ stored secret. none;
  parses = λ cert key. true;
}

abbrev body : CreateProxyRule
body = record {
  name = codes "wiki";
  domain = codes "wiki.example.com";
  target_url = codes "http://10.0.0.6:80";
  port_group_id = codes "g1";
  rule_type = codes "proxy";
  redirect_code = none;
  ssl_enabled = true;
  cert_id = none;
  force_https = false;
  enabled = true;
}

rules : Unit {0}
unfolding validate_domain validate_rule validate_target_url create update delete get
    load_certs_to_cache decrypt_key_from_db applies cert_covers_domain find_rule lookup insert
    get_setting extract_sni serve_connection serve_tls serve_plain
rules = tt

stored : (create env body app).0 ≡ ok (new_row env body)
unfolding rules
stored = refl

app-HasNames : HasNames app
unfolding rules
app-HasNames = (refl, (refl, tt))

Reach-HasNames_example : HasNames (delete env (codes "r1") (create env body app).1).1
Reach-HasNames_example =
    Reach-HasNames app-HasNames (next (next here (creates env body)) (deletes env (codes "r1")))

-- A TCP rule for the name of a ClientHello.
abbrev mail_rule : ProxyRule
mail_rule = record shop_rule {
  id = codes "r4";
  domain = codes "a.io";
  target_url = codes "10.0.0.7:25";
  rule_type = codes "tcp";
}

abbrev with_tcp : Db
with_tcp = record db { proxy_rules = shop_rule ∷ mail_rule ∷ [] }

abbrev hello : Hello
hello = record {
  version = 1;
  random = replicate 34 7;
  session = [];
  suites = 19 ∷ 1 ∷ [];
  methods = 0 ∷ [];
  before = [];
  name = codes "a.io";
  after = [];
}

hello-IsHello : IsHello hello
hello-IsHello = omega arith

abbrev conn : Connection
conn = record {
  first = encode hello;
  rest = [];
  inner = none;
  connects = λ addr. true;
  lossy = λ s. s;
  second_word = λ s. none;
}

serve_connection-encode_example :
    serve_connection conn with_tcp (codes "g1") false ≡ tunnel (codes "10.0.0.7:25") (encode hello)
serve_connection-encode_example =
    serve_connection-encode hello conn with_tcp (codes "g1") false mail_rule hello-IsHello
      (omega arith) refl refl refl

tunnels :
    serve_connection conn with_tcp (codes "g1") false ≡ tunnel (codes "10.0.0.7:25") (encode hello)
unfolding rules
tunnels = refl

serve_connection-Tunnels_example :
    Any (Tunnels (codes "g1") (codes "10.0.0.7:25")) with_tcp.proxy_rules
    × (encode hello ≡ encode hello)
serve_connection-Tunnels_example =
    serve_connection-Tunnels conn with_tcp (codes "g1") false (codes "10.0.0.7:25") (encode hello)
      tunnels

abbrev plain_conn : Connection
plain_conn = record conn { first = codes "GET / HTTP/1.1" }

serves_http : serve_connection plain_conn db (codes "g1") false ≡ http1 false
unfolding rules
serves_http = refl
