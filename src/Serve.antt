-- ===== src/Serve.antt =====
-- `serve_connection` of backend/src/proxy.rs: what becomes of an accepted connection, by its first
-- bytes, the rules of the port group and the group's `force_https`. Streams, the TLS handshake and
-- the TCP connection to a backend are parameters, as are two Unicode functions of the standard library.
pub mod Dispatch
use unver.Prelude.{
  ℕ, Bool, true, false, not, ◌&&◌, ◌||◌, ◌==◌, Option, none, some, List, [], ◌∷◌, ◌++◌, Text, codes,
  text_eq, starts_with, from_char, split_on, drop, take, trim_end_char, find_first, unwrap_or,
  lowercase, is_empty, if◌then◌else◌,
}
use unver.Prelude.Trim.{trim}
use unver.Scan.{Parse, go, quit, panic, out_of_fuel}
use unver.Sni.{extract_sni}
use unver.Models.{ProxyRule}
use unver.State.{Db}

-- What the connection brings.
pub record Connection : Type 0 where
  -- the first filled buffer, empty at the end of the stream or on an error
  pub first : List ℕ
  -- the buffers that follow
  pub rest : List (List ℕ)
  -- the first buffer behind the TLS handshake, if that succeeds
  pub inner : Option (List ℕ)
  -- `TcpStream::connect` succeeds
  pub connects : Text → Bool
  -- `String::from_utf8_lossy` and `split_whitespace().nth(1)`
  pub lossy : List ℕ → Text
  pub second_word : Text → Option Text

pub data Served : Type 0 where
  closed : Served
  -- a tunnel to a backend, which first gets the buffered bytes
  tunnel : Text → List ℕ → Served
  -- HTTP/1.1, over TLS or not, and HTTP/2 over TLS
  http1 : Bool → Served
  http2 : Served
  -- bytes written before closing
  written : Text → Served

abbrev pub starts_tls : List ℕ → Bool
starts_tls [] = false
starts_tls (b ∷ bs) = b == 0x16

-- `port_group_id = ? AND rule_type = 'tcp' AND enabled = 1`
abbrev pub is_tcp_of : Text → ProxyRule → Bool
is_tcp_of port_group_id r =
    elim r.port_group_id [ none ↦ false | some g ↦ text_eq g port_group_id ]
    && text_eq r.rule_type (codes "tcp")
    && r.enabled

abbrev pub is_tcp_for : Text → Text → ProxyRule → Bool
is_tcp_for sni port_group_id r = text_eq r.domain sni && is_tcp_of port_group_id r

abbrev pub as_option : Parse Text → Option Text
as_option (go name) = some name
as_option _ = none

abbrev pub sni_rule : Db → Text → Option Text → Option ProxyRule
sni_rule db port_group_id none = none
sni_rule db port_group_id (some sni) = find_first (is_tcp_for sni port_group_id) db.proxy_rules

abbrev pub preface : Text
preface = codes "PRI * HTTP/2.0" ++ 13 ∷ 10 ∷ 13 ∷ 10 ∷ codes "SM" ++ 13 ∷ 10 ∷ 13 ∷ 10 ∷ []

-- `available.windows(4).position(…)`, as what stands up to the end of the headers.
abbrev pub upto_blank : List ℕ → Option (List ℕ)
upto_blank [] = none
upto_blank (b ∷ bs) =
    let rest = upto_blank bs in
    if starts_with (b ∷ bs) (13 ∷ 10 ∷ 13 ∷ 10 ∷ [])
    then some (13 ∷ 10 ∷ 13 ∷ 10 ∷ [])
    else elim rest [ none ↦ none | some head ↦ some (b ∷ head) ]

-- The loop that reads the headers, up to an empty buffer or a blank line in one buffer.
abbrev pub read_headers : List (List ℕ) → List ℕ
read_headers [] = []
read_headers (available ∷ chunks) =
    let rest = read_headers chunks in
    if is_empty available
    then []
    else elim (upto_blank available) [ some head ↦ head | none ↦ available ++ rest ]

-- `str::lines`, but for the empty last piece, in which no header is found either.
abbrev pub lines : Text → List Text
lines text = split_on 10 text

abbrev chomp : Text → Text
chomp [] = []
chomp (c ∷ cs) = let rest = chomp cs in if c == 13 && is_empty cs then [] else c ∷ rest

abbrev is_host_line : Text → Bool
is_host_line l = starts_with (lowercase l) (codes "host:")

abbrev value_of : Option Text → Option Text
value_of none = none
value_of (some l) = elim (from_char l b':') [ none ↦ none | some v ↦ some (trim (drop 1 v)) ]

abbrev head_line : List Text → Text
head_line [] = []
head_line (l ∷ ls) = chomp l

module _ (conn : Connection) where
  abbrev pub location : Text
  location =
      let text = conn.lossy (read_headers (conn.first ∷ conn.rest)) in
      let host = unwrap_or (value_of (find_first is_host_line (lines text))) (codes "localhost") in
      let path = unwrap_or (conn.second_word (head_line (lines text))) (codes "/") in
      codes "Location: https://" ++ host ++ path ++ 13 ∷ 10 ∷ []

  abbrev pub https_redirect : Text
  https_redirect =
      codes "HTTP/1.1 301 Moved Permanently"
      ++ 13 ∷ 10 ∷ []
      ++ location
      ++ codes "Connection: close"
      ++ 13 ∷ 10 ∷ []
      ++ codes "Content-Length: 0"
      ++ 13 ∷ 10 ∷ 13 ∷ 10 ∷ []

  abbrev pub open_tunnel : Text → Served
  open_tunnel backend_addr =
      if conn.connects backend_addr then tunnel backend_addr conn.first else closed

  -- TLS termination.
  abbrev pub accept : Option (List ℕ) → Served
  accept none = closed
  accept (some buf) = if starts_with buf preface then http2 else http1 true

  unfoldable pub serve_tls : Option ProxyRule → Served
  serve_tls (some r) = open_tunnel r.target_url
  serve_tls none = accept conn.inner

  unfoldable pub serve_plain : Option ProxyRule → Bool → Served
  serve_plain (some r) force_https = open_tunnel r.target_url
  serve_plain none force_https = if force_https then written https_redirect else http1 false

  unfoldable pub serve_connection : Db → Text → Bool → Served
  serve_connection db port_group_id force_https =
      if starts_tls conn.first
      then serve_tls (sni_rule db port_group_id (as_option (extract_sni conn.first)))
      else serve_plain (find_first (is_tcp_of port_group_id) db.proxy_rules) force_https
