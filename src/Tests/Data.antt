-- ===== src/Tests/Data.antt =====
-- A small database that the tests share.
use unver.Prelude.{true, false, none, some, [], ◌∷◌, codes}
use unver.Prelude.Int.{pos}
use unver.Models.{ProxyRule, Certificate, PortGroup}
use unver.State.{Db, AppState}

abbrev pub shop_rule : ProxyRule
shop_rule = record {
  id = codes "r1";
  name = codes "shop";
  domain = codes "Shop.example.com";
  target_url = codes "http://10.0.0.5:80/";
  rule_type = codes "proxy";
  redirect_code = none;
  ssl_enabled = true;
  cert_id = none;
  force_https = false;
  enabled = true;
  port_group_id = some (codes "g1");
  status = codes "unknown";
  last_checked_at = none;
  created_at = codes "2024-01-01 00:00:00";
  updated_at = codes "2024-01-01 00:00:00";
}

abbrev pub plain_rule : ProxyRule
plain_rule = record shop_rule { id = codes "r2"; domain = codes "shop.example.com" }

abbrev pub wild_cert : Certificate
wild_cert = record {
  id = codes "c1";
  domain = codes "*.example.com";
  cert_pem = codes "W";
  key_pem = codes "k1";
  expires_at = codes "2024-06-01T00:00:00+00:00";
  auto_renew = true;
  source = codes "acme";
  created_at = codes "2024-01-01 00:00:00";
  updated_at = codes "2024-01-01 00:00:00";
}

abbrev pub exact_cert : Certificate
exact_cert = record wild_cert {
  id = codes "c2";
  domain = codes "shop.example.com";
  cert_pem = codes "E";
}

abbrev pub https_group : PortGroup
https_group = record {
  id = codes "g1";
  name = codes "HTTPS";
  listen_port = pos 8443;
  enabled = true;
  skip_tls_verify = false;
  force_https = false;
  created_at = codes "2024-01-01 00:00:00";
  updated_at = codes "2024-01-01 00:00:00";
}

abbrev pub db : Db
db = record {
  settings = (codes "trusted_proxy", codes "10.0.0.1, 10.0.0.2") ∷ [];
  users = [];
  refresh_tokens = [];
  port_groups = https_group ∷ [];
  proxy_rules = shop_rule ∷ plain_rule ∷ [];
  certificates = exact_cert ∷ wild_cert ∷ [];
  api_keys = [];
}

abbrev pub app : AppState
app = record { db = db; cert_cache = []; reloads = 0; conn_counter = [] }
