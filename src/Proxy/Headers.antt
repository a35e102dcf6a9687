-- ===== src/Proxy/Headers.antt =====
-- Which headers pass the proxy: the tests on header names of backend/src/proxy.rs, and the
-- detection of a WebSocket upgrade. A `HeaderName` is the lower-case name; a header map is the list
-- of its entries.
use unver.Prelude.{
  Bool, true, false, not, ◌&&◌, ◌||◌, Option, none, some, List, [], ◌∷◌, Text, codes, text_eq,
  contains, eq_ignore_case, lowercase, if◌then◌else◌,
}

abbrev pub HeaderMap : Type 0
HeaderMap = List (Text × Text)

-- `headers.get(name)`: the first value.
unfoldable pub get_header : Text → HeaderMap → Option Text
get_header name [] = none
get_header name ((n, v) ∷ headers) = if text_eq n name then some v else get_header name headers

unfoldable pub is_hop_by_hop_header : Text → Bool
is_hop_by_hop_header name =
    text_eq name (codes "connection")
    || text_eq name (codes "proxy-authenticate")
    || text_eq name (codes "proxy-authorization")
    || text_eq name (codes "te")
    || text_eq name (codes "trailer")
    || text_eq name (codes "transfer-encoding")
    || text_eq name (codes "upgrade")

unfoldable pub is_websocket_request_header : Text → Bool
is_websocket_request_header name =
    text_eq name (codes "upgrade")
    || text_eq name (codes "connection")
    || text_eq name (codes "sec-websocket-key")
    || text_eq name (codes "sec-websocket-version")
    || text_eq name (codes "sec-websocket-protocol")
    || text_eq name (codes "sec-websocket-extensions")

unfoldable pub is_websocket_response_header : Text → Bool
is_websocket_response_header name =
    text_eq name (codes "upgrade")
    || text_eq name (codes "connection")
    || text_eq name (codes "sec-websocket-accept")
    || text_eq name (codes "sec-websocket-protocol")
    || text_eq name (codes "sec-websocket-extensions")

unfoldable pub should_keep_header_request : Text → Bool → Bool
unfolding is_hop_by_hop_header is_websocket_request_header
should_keep_header_request name is_ws =
    if is_ws && is_websocket_request_header name then true else not (is_hop_by_hop_header name)

unfoldable pub should_keep_header_response : Text → Bool → Bool
unfolding is_hop_by_hop_header is_websocket_response_header
should_keep_header_response name is_ws =
    if is_ws && is_websocket_response_header name then true else not (is_hop_by_hop_header name)

-- `to_str` of the http crate: the value as text, if it is visible ASCII.
module _ (to_str : Text → Option Text) where
  abbrev header_text : Text → HeaderMap → Option Text
  header_text name headers = elim (get_header name headers) [ none ↦ none | some v ↦ to_str v ]

  abbrev is_websocket : Option Text → Bool
  is_websocket none = false
  is_websocket (some v) = eq_ignore_case v (codes "websocket")

  abbrev has_upgrade : Option Text → Bool
  has_upgrade none = false
  has_upgrade (some v) = contains (lowercase v) (codes "upgrade")

  unfoldable pub is_websocket_upgrade : HeaderMap → Bool
  unfolding get_header
  is_websocket_upgrade headers =
      is_websocket (header_text (codes "upgrade") headers)
      && has_upgrade (header_text (codes "connection") headers)
