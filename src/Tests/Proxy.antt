-- ===== src/Tests/Proxy.antt =====
-- Runs of `proxy_request`.
use unver.Prelude.{true, false, some, ◌≡◌, refl, [], ◌∷◌, ◌++◌, Text, codes, text_eq, All, Any, any}
use unver.Prelude.Assoc.{lookup}
use unver.State.{get_setting}
use unver.Proxy.Headers.{HeaderMap, get_header, is_websocket_upgrade, should_keep_header_request}
use unver.Proxy.{
  Net, Request, Upstream, forward, proxy_request, find_rule, matches, apply_rule, redirect, proxied,
  kept_headers, forwarding, real_client_ip, host_of, challenge, trusted_proxies, parse_all,
}
use unver.Proxy.Answers.{IsBehind, proxy_request-eq-forward, real_client_ip_untrusted}
use unver.Prelude.Trim.{trim}
use unver.Tests.Data.{db}

abbrev net : Net
net = record {
  IpAddr = Text;
  ip_eq = text_eq;
  parse_ip = λ s. some s;
  print_ip = λ s. s;
  to_str = λ s. some s;
  header_value_ok = λ s. true;
  uri_ok = λ s. true;
}

abbrev claim : Text × Text
claim = (codes "x-forwarded-for", codes "1.2.3.4")

abbrev req : Request
req = record {
  method = codes "GET";
  path = codes "/cart";
  path_and_query = some (codes "/cart?x=1");
  headers =
      (codes "host", codes "shop.example.com:8443") ∷ (codes "te", codes "trailers") ∷ claim ∷ [];
}

abbrev peer : Text
peer = codes "9.9.9.9"

abbrev sent : Upstream
sent = record {
  method = codes "GET";
  uri = codes "http://10.0.0.5:80/cart?x=1";
  headers =
      claim
      ∷ (codes "x-forwarded-host", codes "shop.example.com")
      ∷ (codes "x-forwarded-proto", codes "https")
      ∷ (codes "x-forwarded-for", peer)
      ∷ [];
  rule_id = codes "r2";
}

proxy : Unit {0}
unfolding proxy_request find_rule apply_rule redirect proxied kept_headers forwarding real_client_ip
    host_of challenge parse_all trim lookup get_setting get_header is_websocket_upgrade
    should_keep_header_request
proxy = tt

goes_upstream : proxy_request net db peer true (codes "g1") req ≡ forward sent
unfolding proxy
goes_upstream = refl

proxy_request-eq-forward_example :
    Any (IsBehind net db peer true (codes "g1") req sent) db.proxy_rules
proxy_request-eq-forward_example =
    proxy_request-eq-forward net db peer true (codes "g1") req sent goes_upstream

no_challenge : challenge db req.path ≡ []
unfolding proxy
no_challenge = refl

unmatched : All (λ r. matches (host_of net req.headers) (codes "g2") r ≡ false) db.proxy_rules
unfolding proxy
unmatched = (refl, (refl, tt))

untrusted : any (λ t. text_eq t peer) (trusted_proxies net db) ≡ false
unfolding proxy
untrusted = refl

real_client_ip_untrusted_example :
    (kept : HeaderMap) × (sent.headers ≡ kept ++ (codes "x-forwarded-for", peer) ∷ [])
real_client_ip_untrusted_example =
    real_client_ip_untrusted net db peer true (codes "g1") req sent untrusted goes_upstream
