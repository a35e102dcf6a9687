-- ===== src/Proxy.antt =====
-- `proxy_request` and `real_client_ip` of backend/src/proxy.rs. What the proxy does with a request is
-- a value: an answer of its own, or the request that it sends upstream. IP addresses, header values
-- and URIs belong to other crates or to the standard library's parsers, and are parameters.
pub mod Headers
pub mod Answers
pub mod Body
use unver.Prelude.{
  ℕ, Bool, true, false, not, ◌&&◌, ◌||◌, ◌==◌, Option, none, some, List, [], ◌∷◌, ◌++◌, Text, codes,
  text_eq, any, is_empty, strip_prefix, starts_with, before_char, split_on, trim_end_char,
  find_first, unwrap_or, if◌then◌else◌,
}
use unver.Prelude.Int.{ℤ, pos, int_eq}
use unver.Prelude.Trim.{trim}
use unver.Models.{ProxyRule}
use unver.State.{Db, get_setting}
use Headers.{
  HeaderMap, get_header, should_keep_header_request, should_keep_header_response,
  is_websocket_upgrade,
}

pub record Request : Type 0 where
  pub method : Text
  pub path : Text
  pub path_and_query : Option Text
  pub headers : HeaderMap

pub record Response : Type 0 where
  pub status : ℕ
  pub headers : HeaderMap
  pub body : Text

pub record Upstream : Type 0 where
  pub method : Text
  pub uri : Text
  pub headers : HeaderMap
  -- the rule that is in use, for the connection counter
  pub rule_id : Text

pub data Outcome : Type 0 where
  -- `response.unwrap()` of a value that a builder has refused
  panics : Outcome
  answer : Response → Outcome
  forward : Upstream → Outcome

-- The result of `client.request`.
pub data Reply : Type 0 where
  failed : Reply
  responded : ℕ → HeaderMap → Text → Reply

abbrev pub hsts : Text × Text
hsts = (codes "strict-transport-security", codes "max-age=31536000; includeSubDomains; preload")

abbrev pub plain : ℕ → Text → Outcome
plain status body = answer (record { status = status; headers = []; body = body })

-- The facts about other code: an address type with its parser and printer, `HeaderValue::to_str`,
-- and the values that the http crate's builders accept.
pub record Net : Type 1 where
  pub IpAddr : Type 0
  pub ip_eq : IpAddr → IpAddr → Bool
  pub parse_ip : Text → Option IpAddr
  pub print_ip : IpAddr → Text
  pub to_str : Text → Option Text
  pub header_value_ok : Text → Bool
  pub uri_ok : Text → Bool

-- `SELECT … WHERE domain = ? AND port_group_id = ? AND enabled = 1`
abbrev pub matches : Text → Text → ProxyRule → Bool
matches host port_group_id r =
    text_eq r.domain host
    && elim r.port_group_id [ none ↦ false | some g ↦ text_eq g port_group_id ]
    && r.enabled

unfoldable pub find_rule : Db → Text → Text → Option ProxyRule
find_rule db host port_group_id = find_first (matches host port_group_id) db.proxy_rules

unfoldable pub redirect_status : Option ℤ → ℕ
redirect_status code =
    let c = unwrap_or code (pos 301) in
    if int_eq c (pos 302)
    then 302
    else if int_eq c (pos 307)
    then 307
    else if int_eq c (pos 308)
    then 308
    else 301

-- The client's headers that go upstream; the host is not one of them.
unfoldable pub kept_headers : Bool → HeaderMap → HeaderMap
kept_headers is_ws [] = []
kept_headers is_ws ((name, value) ∷ headers) =
    let rest = kept_headers is_ws headers in
    if should_keep_header_request name is_ws && not (text_eq name (codes "host"))
    then (name, value) ∷ rest
    else rest

abbrev pub upstream_uri : ProxyRule → Request → Text
upstream_uri rule req =
    trim_end_char b'/' rule.target_url ++ unwrap_or req.path_and_query (codes "/")

abbrev acme_prefix : Text
acme_prefix = codes "/.well-known/acme-challenge/"

-- The answer to an ACME HTTP-01 challenge, if one is stored.
unfoldable pub challenge : Db → Text → Text
challenge db path = elim (strip_prefix path acme_prefix) [
  | none ↦ []
  | some token ↦ get_setting db (codes "acme_challenge_" ++ token)
]

-- The response to the client, from the upstream's status and headers.
unfoldable pub kept_response_headers : Bool → HeaderMap → HeaderMap
kept_response_headers is_ws [] = []
kept_response_headers is_ws ((name, value) ∷ headers) =
    let rest = kept_response_headers is_ws headers in
    if should_keep_header_response name is_ws then (name, value) ∷ rest else rest

-- What the upstream connection brings.
unfoldable pub respond : Bool → Bool → Reply → Response
unfolding kept_response_headers
respond is_ws is_tls failed = record { status = 502; headers = []; body = codes "Bad Gateway" }
respond is_ws is_tls (responded status headers body) = record {
  status = status;
  headers =
      kept_response_headers (is_ws || status == 101) headers ++ (if is_tls then hsts ∷ [] else []);
  body = body;
}

module _ (net : Net) where
  open net use {IpAddr, ip_eq, parse_ip, print_ip, to_str, header_value_ok, uri_ok}

  header_str : Text → HeaderMap → Option Text
  header_str name headers = elim (get_header name headers) [ none ↦ none | some v ↦ to_str v ]

  -- The addresses of a comma-separated list that parse.
  unfoldable pub parse_all : List Text → List IpAddr
  parse_all [] = []
  parse_all (s ∷ rest) =
      let ips = parse_all rest in elim (parse_ip (trim s)) [ none ↦ ips | some ip ↦ ip ∷ ips ]

  abbrev pub trusted_proxies : Db → List IpAddr
  trusted_proxies db = parse_all (split_on b',' (get_setting db (codes "trusted_proxy")))

  abbrev first_of_list : Option Text → Option IpAddr
  first_of_list none = none
  first_of_list (some value) = parse_ip (trim (before_char value b','))

  unfoldable pub real_client_ip : IpAddr → HeaderMap → List IpAddr → IpAddr
  unfolding header_str get_header
  real_client_ip peer headers trusted =
      if any (λ t. ip_eq t peer) trusted
      then unwrap_or (first_of_list (header_str (codes "x-forwarded-for") headers)) peer
      else peer

  unfoldable pub host_of : HeaderMap → Text
  unfolding header_str get_header
  host_of headers = before_char (unwrap_or (header_str (codes "host") headers) []) b':'

  unfoldable pub redirect : ProxyRule → Outcome
  redirect rule =
      if header_value_ok rule.target_url
      then answer (record {
        status = redirect_status rule.redirect_code;
        headers = (codes "location", rule.target_url) ∷ [];
        body = [];
      })
      else panics

  unfoldable pub forwarding : Bool → Text → IpAddr → HeaderMap
  forwarding is_tls host ip =
      (codes "x-forwarded-host", host)
      ∷ ((codes "x-forwarded-proto", (if is_tls then codes "https" else codes "http"))
          ∷ ((codes "x-forwarded-for", print_ip ip) ∷ []))

  unfoldable pub proxied : Db → IpAddr → Bool → Text → ProxyRule → Request → Outcome
  proxied db peer is_tls host rule req =
      let uri = upstream_uri rule req in
      let ip = real_client_ip peer req.headers (trusted_proxies db) in
      if uri_ok uri && header_value_ok host
      then forward (record {
        method = req.method;
        uri = uri;
        headers =
            kept_headers (is_websocket_upgrade to_str req.headers) req.headers
            ++ forwarding is_tls host ip;
        rule_id = rule.id;
      })
      else panics

  unfoldable pub apply_rule : Db → IpAddr → Bool → Text → ProxyRule → Request → Outcome
  apply_rule db peer is_tls host rule req =
      if text_eq rule.rule_type (codes "redirect")
      then redirect rule
      else if text_eq rule.rule_type (codes "tcp")
      then plain 502 (codes "TCP rules are handled at connection level")
      else proxied db peer is_tls host rule req

  unfoldable pub proxy_request : Db → IpAddr → Bool → Text → Request → Outcome
  proxy_request db peer is_tls port_group_id req =
      let auth = challenge db req.path in
      let host = host_of req.headers in
      if not (is_empty auth) then plain 200 auth else elim (find_rule db host port_group_id) [
        | none ↦ plain 502 (codes "No proxy rule found")
        | some rule ↦ apply_rule db peer is_tls host rule req
      ]
