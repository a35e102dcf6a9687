-- ===== src/Serve/Dispatch.antt =====
-- Where connections go: tunnels only by TCP rules, and the HTTP proxy only as the port group allows.
use unver.Prelude.{
  inl, inr, ◌≡◌, refl, ℕ, Bool, true, false, Option, none, some, List, arith, Text, find_first,
  find_first-eq-some, Any, Any-map, Option-cases, Bool-cases,
}
use unver.Prelude.Utf8.{IsAscii}
use unver.Sni.{extract_sni}
use unver.Sni.Hello.{Hello, encode, IsHello}
use unver.Sni.RoundTrip.{extract_sni-encode}
use unver.Models.{ProxyRule}
use unver.State.{Db}
use unver.Serve.{
  Connection, tunnel, http1, accept, starts_tls, is_tcp_of, is_tcp_for, sni_rule, as_option,
  open_tunnel, serve_tls, serve_plain, serve_connection,
}

-- The rule behind a tunnel.
abbrev pub Tunnels : Text → Text → ProxyRule → Type 0
Tunnels port_group_id addr r = (is_tcp_of port_group_id r ≡ true) × (r.target_url ≡ addr)

module _ (conn : Connection) where
  open_tunnel-eq-tunnel :
      (backend addr : Text) (bytes : List ℕ)
      → open_tunnel conn backend ≡ tunnel addr bytes
      → (backend ≡ addr) × (bytes ≡ conn.first)
  open_tunnel-eq-tunnel backend addr bytes h = (ground arith, ground arith)

  found-Tunnels :
      (test : ProxyRule → Bool) (port_group_id addr : Text) (rules : List ProxyRule)
      (bytes : List ℕ) (r : ProxyRule)
      → ((x : ProxyRule) → test x ≡ true → is_tcp_of port_group_id x ≡ true)
      → find_first test rules ≡ some r
      → open_tunnel conn r.target_url ≡ tunnel addr bytes
      → Any (Tunnels port_group_id addr) rules × (bytes ≡ conn.first)
  found-Tunnels test port_group_id addr rules bytes r sub e h =
      let (t, b) = open_tunnel-eq-tunnel r.target_url addr bytes h in
      (Any-map (λ x (y, m). (sub x m, rw y t)) rules (find_first-eq-some test rules r e), b)

  plain-Tunnels :
      (db : Db) (port_group_id : Text) (force_https : Bool) (addr : Text) (bytes : List ℕ)
      → serve_plain conn (find_first (is_tcp_of port_group_id) db.proxy_rules) force_https
        ≡ tunnel addr bytes
      → Any (Tunnels port_group_id addr) db.proxy_rules × (bytes ≡ conn.first)
  unfolding serve_plain
  plain-Tunnels db port_group_id force_https addr bytes h =
      elim (Option-cases (find_first (is_tcp_of port_group_id) db.proxy_rules)) [
        | inl e ↦ absurd (ground arith)
        | inr (r, e) ↦
            found-Tunnels (is_tcp_of port_group_id) port_group_id addr db.proxy_rules bytes r
              (λ x m. m) e (rw e at h)
      ]

  accept-tunnel :
      (o : Option (List ℕ)) (addr : Text) (bytes : List ℕ) → accept conn o ≡ tunnel addr bytes → ⊥
  accept-tunnel none addr bytes h = ground arith
  accept-tunnel (some b) addr bytes h = ground arith

  tls-Tunnels :
      (db : Db) (port_group_id : Text) (sni : Option Text) (addr : Text) (bytes : List ℕ)
      → serve_tls conn (sni_rule db port_group_id sni) ≡ tunnel addr bytes
      → Any (Tunnels port_group_id addr) db.proxy_rules × (bytes ≡ conn.first)
  unfolding serve_tls
  tls-Tunnels db port_group_id none addr bytes h = absurd (accept-tunnel conn.inner addr bytes h)
  tls-Tunnels db port_group_id (some sni) addr bytes h =
      elim (Option-cases (find_first (is_tcp_for sni port_group_id) db.proxy_rules)) [
        | inl e ↦ absurd (accept-tunnel conn.inner addr bytes (rw e at h))
        | inr (r, e) ↦
            found-Tunnels (is_tcp_for sni port_group_id) port_group_id addr db.proxy_rules bytes r
              (λ x m. ground arith) e (rw e at h)
      ]

  -- A tunnel leads to the target of an enabled TCP rule of the port group, and that backend first gets
  -- exactly the bytes that were read from the client.
  pub serve_connection-Tunnels :
      (db : Db) (port_group_id : Text) (force_https : Bool) (addr : Text) (bytes : List ℕ)
      → serve_connection conn db port_group_id force_https ≡ tunnel addr bytes
      → Any (Tunnels port_group_id addr) db.proxy_rules × (bytes ≡ conn.first)
  unfolding serve_connection
  serve_connection-Tunnels db port_group_id force_https addr bytes h =
      elim (Bool-cases (starts_tls conn.first)) [
        | inl e ↦
            tls-Tunnels db port_group_id (as_option (extract_sni conn.first)) addr bytes (rw e at h)
        | inr e ↦ plain-Tunnels db port_group_id force_https addr bytes (rw e at h)
      ]

  tls-http1 : (o : Option ProxyRule) → serve_tls conn o ≡ http1 false → ⊥
  unfolding serve_tls
  tls-http1 o h = ground arith

  plain-http1 :
      (o : Option ProxyRule) (force_https : Bool)
      → serve_plain conn o force_https ≡ http1 false
      → force_https ≡ false
  unfolding serve_plain
  plain-http1 o force_https h = ground arith

  -- A group that forces HTTPS hands no plain connection to the HTTP proxy.
  pub serve_connection-forced :
      (db : Db) (port_group_id : Text) (force_https : Bool)
      → serve_connection conn db port_group_id force_https ≡ http1 false
      → (force_https ≡ false) × (starts_tls conn.first ≡ false)
  unfolding serve_connection
  serve_connection-forced db port_group_id force_https h =
      elim (Bool-cases (starts_tls conn.first)) [
        | inl e ↦
            absurd (
              tls-http1 (sni_rule db port_group_id (as_option (extract_sni conn.first)))
                (rw e at h))
        | inr e ↦ (
          plain-http1 (find_first (is_tcp_of port_group_id) db.proxy_rules) force_https (rw e at h),
          e,
        )
      ]

-- A ClientHello that names the domain of a TCP rule of the port group is handed, as it came, to that
-- rule's backend, if the backend can be reached: `r` is the first such rule.
pub serve_connection-encode :
    (hello : Hello) (conn : Connection) (db : Db) (port_group_id : Text) (force_https : Bool)
    (r : ProxyRule)
    → IsHello hello
    → IsAscii hello.name
    → conn.first ≡ encode hello
    → find_first (is_tcp_for hello.name port_group_id) db.proxy_rules ≡ some r
    → conn.connects r.target_url ≡ true
    → serve_connection conn db port_group_id force_https ≡ tunnel r.target_url (encode hello)
unfolding serve_connection serve_tls
serve_connection-encode hello conn db port_group_id force_https r w a f e c =
    rw (f, extract_sni-encode hello w a, e, c) refl
