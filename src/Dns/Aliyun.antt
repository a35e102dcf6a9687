-- ===== src/Dns/Aliyun.antt =====
-- The Aliyun provider of backend/src/ddns/providers/aliyun.rs. HMAC-SHA1 with base64, the HTTP client and
-- the JSON parser are parameters, as are the time and the UUID of a request. Lookups of records are
-- limited to a page of 50, as in the source. Log lines are left out, and an error keeps its Latin text.
pub mod Operations
pub mod Encoding
pub mod Zones
use unver.Prelude.{
  ℕ, zero, suc, ◌+◌, ◌-◌, ◌/◌, ◌%◌, Bool, true, false, not, ◌&&◌, ◌||◌, ◌==◌, Option, none, some,
  List, [], ◌∷◌, ◌++◌, map, Text, codes, text_eq, text_lt, is_alnum, is_empty, contains, length,
  take, drop, retain, split_on, ltb, unwrap_or, if◌then◌else◌,
}
use unver.Prelude.Join.{join_with}
use unver.Errors.{AppResult, ok, err}
use unver.State.{Db}
use unver.Security.{Crypto, get_secret_setting}
use unver.Dns.{Answer, good, bad, Call, give, refuse, ignoring, DnsProvider, ◌>>=◌}

abbrev pub is_unreserved : ℕ → Bool
is_unreserved b = is_alnum b || b == b'-' || b == b'_' || b == b'.' || b == b'~'

-- One digit of `{:02X}`.
abbrev pub hex_digit : ℕ → ℕ
hex_digit d = if ltb d 10 then 48 + d else 55 + d

unfoldable pub percent_encode : Text → Text
percent_encode [] = []
percent_encode (b ∷ s) =
    let rest = percent_encode s in
    if is_unreserved b then b ∷ rest else b'%' ∷ hex_digit (b / 16) ∷ hex_digit (b % 16) ∷ rest

abbrev pub Params : Type 0
Params = List (Text × Text)

-- `sort_by` on the names, which is stable.
abbrev insert_param : Text × Text → Params → Params
insert_param p [] = p ∷ []
insert_param p (q ∷ ps) =
    let rest = insert_param p ps in if text_lt q.0 p.0 then q ∷ rest else p ∷ q ∷ ps

abbrev pub sorted : Params → Params
sorted [] = []
sorted (p ∷ ps) = insert_param p (sorted ps)

abbrev pub pair : Text × Text → Text
pair p = percent_encode p.0 ++ b'=' ∷ percent_encode p.1

-- `hmac_base64 key text`
module _ (hmac_base64 : Text → Text → Text) where
  unfoldable pub sign : Text → Params → Text → Text
  sign method params secret =
      let canonical = join_with b'&' (map pair (sorted params)) in
      hmac_base64 (secret ++ codes "&")
        (method ++ b'&' ∷ (percent_encode (codes "/") ++ b'&' ∷ percent_encode canonical))

  abbrev pub common_params : Text → Text → Text → Text → Params
  common_params action access_key_id timestamp nonce =
      (codes "Action", action)
      ∷ (codes "Version", codes "2015-01-09")
      ∷ (codes "Format", codes "JSON")
      ∷ (codes "SignatureMethod", codes "HMAC-SHA1")
      ∷ (codes "SignatureVersion", codes "1.0")
      ∷ (codes "AccessKeyId", access_key_id)
      ∷ (codes "Timestamp", timestamp)
      ∷ (codes "SignatureNonce", nonce)
      ∷ []

  unfoldable pub build_request : Text → Params → Text → Text → Text → Text → Text
  unfolding sign
  build_request action params access_key_id access_key_secret timestamp nonce =
      let all = common_params action access_key_id timestamp nonce ++ params in
      let signature = sign (codes "GET") all access_key_secret in
      codes "https://alidns.aliyuncs.com"
      ++ b'?'
        ∷ join_with b'&' (map pair all ++ (codes "Signature=" ++ percent_encode signature) ∷ [])

pub record Record : Type 0 where
  pub rr : Option Text
  pub record_id : Option Text
  pub value : Option Text

-- The parsed body of an answer; `code` and `message` are set by an error.
pub record Body : Type 0 where
  pub code : Option Text
  pub message : Option Text
  pub record_id : Option Text
  pub records : List Record

-- An HTTP request that gets no answer, a status that is no success, or a body that does not parse, with
-- the text of the error, or a body.
pub data Reply : Type 0 where
  failed : Text → Reply
  parsed : Body → Reply

-- What a request takes from outside.
pub record Client (W : Type 0) : Type 0 where
  pub hmac_base64 : Text → Text → Text
  pub timestamp : W → Text
  pub nonce : W → Text
  pub get : Text → W → Reply × W

abbrev api_error : Text → Text → Option Text → Text
api_error action code message = action ++ codes ": " ++ unwrap_or message code

abbrev pub checked : Text → Reply → Answer Body
checked action (failed e) = bad e
checked action (parsed body) = elim (body.code) [
  | none ↦ good body
  | some code ↦ bad (api_error action code body.message)
]

module _ {W : Type 0} (client : Client W) (keys : Text × Text) where
  abbrev answered : Text → Reply × W → Answer Body × W
  answered action (reply, w) = (checked action reply, w)

  unfoldable pub call_api : Text → Params → Call W Body
  call_api action params w = answered action (
      client.get
        (build_request client.hmac_base64 action params keys.0 keys.1 (client.timestamp w)
          (client.nonce w))
        w)
