-- ===== src/Proxy/Answers.antt =====
-- What `proxy_request` of backend/src/proxy.rs sends upstream and what it answers itself.
use unver.Prelude.{
  Bool, true, false, not, ◌&&◌, ◌≡◌, ◌≢◌, refl, ap, ◌⊎◌, inl, inr, [], ◌∷◌, ◌++◌, arith, Text,
  codes, any, All, Any, Any-map, Any-const, Any-append_left, ◌∙◌, find_first, find_first-eq-some,
  find_first-eq-none, text_eq, text_eq_iff, if◌then◌else◌, Bool-cases, Option-cases,
}
use mathlib.Core.List.{append_assoc}
use unver.Models.{ProxyRule}
use unver.State.{Db}
use unver.Proxy.Headers.{
  HeaderMap, is_hop_by_hop_header, is_websocket_request_header, should_keep_header_request,
  is_websocket_upgrade,
}
use unver.Proxy.{
  Net, Request, Upstream, forward, plain, trusted_proxies, real_client_ip, host_of, matches,
  find_rule, redirect, kept_headers, forwarding, upstream_uri, proxied, apply_rule, challenge,
  proxy_request,
}

-- A header that may pass: not the host, and hop-by-hop only as part of a WebSocket upgrade.
abbrev pub Passes : Bool → Text × Text → Type 0
Passes is_ws h =
    (text_eq h.0 (codes "host") ≡ false)
    × ((is_hop_by_hop_header h.0 ≡ false)
        ⊎ ((is_ws ≡ true) × (is_websocket_request_header h.0 ≡ true)))

should_keep_sound :
    (name : Text) (is_ws : Bool)
    → should_keep_header_request name is_ws ≡ true
    → (is_hop_by_hop_header name ≡ false)
      ⊎ ((is_ws ≡ true) × (is_websocket_request_header name ≡ true))
unfolding should_keep_header_request
should_keep_sound name true h = elim (Bool-cases (is_websocket_request_header name)) [
  | inl e ↦ inr (refl, e)
  | inr e ↦ inl (ground arith)
]
should_keep_sound name false h = inl (ground arith)

kept_headers-All : (is_ws : Bool) (hs : HeaderMap) → All (Passes is_ws) (kept_headers is_ws hs)
unfolding kept_headers
kept_headers-All is_ws [] = tt
kept_headers-All is_ws ((name, value) ∷ hs) =
    elim (Bool-cases (should_keep_header_request name is_ws && not (text_eq name (codes "host")))) [
      | inl e ↦
          rw e
            ((ground arith, should_keep_sound name is_ws (ground arith)), kept_headers-All is_ws hs)
      | inr e ↦ rw e (kept_headers-All is_ws hs)
    ]

claim_kept :
    (is_ws : Bool)
    → (should_keep_header_request (codes "x-forwarded-for") is_ws
        && not (text_eq (codes "x-forwarded-for") (codes "host")))
      ≡ true
unfolding should_keep_header_request
claim_kept true = refl
claim_kept false = refl

kept_headers-claim :
    (is_ws : Bool) (claim : Text) (hs : HeaderMap)
    → Any (λ h. h ≡ (codes "x-forwarded-for", claim)) hs
    → Any (λ h. h ≡ (codes "x-forwarded-for", claim)) (kept_headers is_ws hs)
unfolding kept_headers
kept_headers-claim is_ws claim [] sent = absurd sent
kept_headers-claim is_ws claim ((name, value) ∷ hs) (inl e) =
    let same : name ≡ codes "x-forwarded-for" = ap (λ (h : Text × Text). h.0) e in
    let kept : (should_keep_header_request name is_ws && not (text_eq name (codes "host"))) ≡ true =
      rw same (claim_kept is_ws) in
    rw kept (inl e)
kept_headers-claim is_ws claim ((name, value) ∷ hs) (inr sent) =
    elim (Bool-cases (should_keep_header_request name is_ws && not (text_eq name (codes "host")))) [
      | inl e ↦ rw e (inr (kept_headers-claim is_ws claim hs sent))
      | inr e ↦ rw e (kept_headers-claim is_ws claim hs sent)
    ]

module _ (net : Net) where
  open net use {IpAddr, ip_eq, print_ip, to_str}

  -- The rule behind a request that is forwarded.
  abbrev pub IsBehind : Db → IpAddr → Bool → Text → Request → Upstream → ProxyRule → Type 0
  IsBehind db peer is_tls port_group_id req u r =
      (matches (host_of net req.headers) port_group_id r ≡ true)
      × (r.rule_type ≢ codes "redirect")
      × (r.rule_type ≢ codes "tcp")
      × (u ≡ record {
        method = req.method;
        uri = upstream_uri r req;
        headers =
            kept_headers (is_websocket_upgrade to_str req.headers) req.headers
            ++ forwarding net is_tls (host_of net req.headers)
                (real_client_ip net peer req.headers (trusted_proxies net db));
        rule_id = r.id;
      })

  proxied-eq-forward :
      (db : Db) (peer : IpAddr) (is_tls : Bool) (host : Text) (r : ProxyRule) (req : Request)
      (u : Upstream)
      → proxied net db peer is_tls host r req ≡ forward u
      → u ≡ record {
        method = req.method;
        uri = upstream_uri r req;
        headers =
            kept_headers (is_websocket_upgrade to_str req.headers) req.headers
            ++ forwarding net is_tls host
                (real_client_ip net peer req.headers (trusted_proxies net db));
        rule_id = r.id;
      }
  unfolding proxied
  proxied-eq-forward db peer is_tls host r req u h = ground arith

  apply_rule-eq-forward :
      (db : Db) (peer : IpAddr) (is_tls : Bool) (host : Text) (r : ProxyRule) (req : Request)
      (u : Upstream)
      → apply_rule net db peer is_tls host r req ≡ forward u
      → (r.rule_type ≢ codes "redirect")
        × (r.rule_type ≢ codes "tcp")
        × (proxied net db peer is_tls host r req ≡ forward u)
  unfolding apply_rule redirect
  apply_rule-eq-forward db peer is_tls host r req u h = (
    ground (arith, text_eq_iff r.rule_type (codes "redirect")),
    ground
        (arith, text_eq_iff r.rule_type (codes "redirect"), text_eq_iff r.rule_type (codes "tcp")),
    ground arith,
  )

  -- A request goes upstream only by an enabled rule of the port group whose domain is the host of
  -- the request and which is neither a redirect nor a TCP rule; and then the request that is sent has
  -- the client's method, the rule's target followed by the client's path and query, the client's
  -- headers that may pass, and behind them the three forwarding headers.
  pub proxy_request-eq-forward :
      (db : Db) (peer : IpAddr) (is_tls : Bool) (port_group_id : Text) (req : Request)
      (u : Upstream)
      → proxy_request net db peer is_tls port_group_id req ≡ forward u
      → Any (IsBehind db peer is_tls port_group_id req u) db.proxy_rules
  unfolding proxy_request find_rule
  proxy_request-eq-forward db peer is_tls port_group_id req u h =
      let host = host_of net req.headers in
      elim (Option-cases (find_first (matches host port_group_id) db.proxy_rules)) [
        | inl e ↦ absurd (ground arith)
        | inr (r, e) ↦
            let (p, q, f) = apply_rule-eq-forward db peer is_tls host r req u (ground arith) in
            let same = proxied-eq-forward db peer is_tls host r req u f in
            Any-map (λ x (y, m). (m, rw y p, rw y q, rw y same)) db.proxy_rules
              (find_first-eq-some (matches host port_group_id) db.proxy_rules r e)
      ]

  -- Of the client's headers only those pass that are not the host and not hop-by-hop, but for the
  -- WebSocket headers of an upgrade.
  pub proxy_request-Passes :
      (db : Db) (peer : IpAddr) (is_tls : Bool) (port_group_id : Text) (req : Request)
      (u : Upstream)
      → proxy_request net db peer is_tls port_group_id req ≡ forward u
      → (kept : HeaderMap) × All (Passes (is_websocket_upgrade to_str req.headers)) kept
        × (u.headers
            ≡ kept
              ++ forwarding net is_tls
                  (host_of net req.headers)
                  (real_client_ip net peer req.headers (trusted_proxies net db)))
  proxy_request-Passes db peer is_tls port_group_id req u h =
      let ws = is_websocket_upgrade to_str req.headers in
      (
        kept_headers ws req.headers,
        kept_headers-All ws req.headers,
        Any-const db.proxy_rules (
            Any-map (λ r (m, p, q, e). ap (λ (v : Upstream). v.headers) e) db.proxy_rules
              (proxy_request-eq-forward db peer is_tls port_group_id req u h)),
      )

  -- With no challenge stored for the path and no enabled rule of the port group for the host, the
  -- answer is the proxy's own 502.
  pub proxy_request-unmatched :
      (db : Db) (peer : IpAddr) (is_tls : Bool) (port_group_id : Text) (req : Request)
      → challenge db req.path ≡ []
      → All (λ r. matches (host_of net req.headers) port_group_id r ≡ false) db.proxy_rules
      → proxy_request net db peer is_tls port_group_id req ≡ plain 502 (codes "No proxy rule found")
  unfolding proxy_request find_rule
  proxy_request-unmatched db peer is_tls port_group_id req none_stored unmatched = rw (
    none_stored,
    find_first-eq-none (matches (host_of net req.headers) port_group_id) db.proxy_rules unmatched,
  )

  -- A peer that is not a trusted proxy cannot choose the address that is reported: whatever its
  -- headers, the last `x-forwarded-for` is its own address.
  pub real_client_ip_untrusted :
      (db : Db) (peer : IpAddr) (is_tls : Bool) (port_group_id : Text) (req : Request)
      (u : Upstream)
      → any (λ t. ip_eq t peer) (trusted_proxies net db) ≡ false
      → proxy_request net db peer is_tls port_group_id req ≡ forward u
      → (kept : HeaderMap) × (u.headers ≡ kept ++ (codes "x-forwarded-for", print_ip peer) ∷ [])
  unfolding real_client_ip forwarding
  real_client_ip_untrusted db peer is_tls port_group_id req u untrusted h =
      let (kept, _, e) = proxy_request-Passes db peer is_tls port_group_id req u h in
      (
        kept
            ++ (codes "x-forwarded-host", host_of net req.headers)
              ∷ ((codes "x-forwarded-proto", (if is_tls then codes "https" else codes "http"))
                  ∷ []),
        e ∙ rw (untrusted, append_assoc),
      )

  -- What the client itself claims goes upstream too: each of its `x-forwarded-for` headers is among
  -- those that are sent, in front of the proxy's.
  pub x_forwarded_for_passes :
      (db : Db) (peer : IpAddr) (is_tls : Bool) (port_group_id : Text) (req : Request)
      (u : Upstream) (claim : Text)
      → Any (λ h. h ≡ (codes "x-forwarded-for", claim)) req.headers
      → proxy_request net db peer is_tls port_group_id req ≡ forward u
      → Any (λ h. h ≡ (codes "x-forwarded-for", claim)) u.headers
  x_forwarded_for_passes db peer is_tls port_group_id req u claim sent h =
      let ws = is_websocket_upgrade to_str req.headers in
      let e = Any-const db.proxy_rules (
        Any-map (λ r (m, p, q, e). ap (λ (v : Upstream). v.headers) e) db.proxy_rules
          (proxy_request-eq-forward db peer is_tls port_group_id req u h)) in
      rw e (
        Any-append_left (λ h. h ≡ (codes "x-forwarded-for", claim)) (kept_headers ws req.headers) _
          (kept_headers-claim ws claim req.headers sent))
