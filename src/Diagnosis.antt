-- ===== src/Diagnosis.antt =====
-- The handlers of backend/src/api/settings.rs that try out the configuration: `test_certificate_setup`,
-- `ddns_test`, `ddns_list_zones`, `public_ip`, and the update from the panel, `check_update` and
-- `perform_update`. The answers of the servers are parameters, a status by its number, an error by its text.
pub mod Readiness
pub mod Updating
use unver.Prelude.{
  ℕ, Bool, true, false, not, ◌&&◌, ◌||◌, ◌==◌, leb, ltb, Option, none, some, List, [], ◌∷◌, ◌++◌,
  Text, codes, text_eq, is_empty, is_some, length, take, retain, get_elem?, contains_char,
  before_char, unwrap_or, if◌then◌else◌,
}
use unver.Errors.{AppResult, ok, err, bad_request, internal}
use unver.State.{Db, get_setting}
use unver.Security.{Crypto, get_secret_setting}
use unver.Dns.{Answer, good, bad}
use unver.Ddns.{detect_ip_with_source, trimmed_lines}

abbrev or_empty : AppResult Text → Text
or_empty (ok t) = t
or_empty (err e) = []

-- `acme_email.find('@').unwrap_or(0)`
abbrev pub at_sign : Text → ℕ
at_sign email = if contains_char email b'@' then length (before_char email b'@') else 0

-- No continuation byte is there.
abbrev pub is_char_boundary : Text → ℕ → Bool
is_char_boundary s i = elim (get_elem? s i) [
  | none ↦ leb i (length s)
  | some b ↦ i == 0 || not (leb 0x80 b && ltb b 0xc0)
]

abbrev pub shown_length : Text → ℕ
shown_length email = if leb (at_sign email) 3 then at_sign email else 3

-- What is shown of the address: `none` is a panic, of a slice that ends inside a character.
unfoldable pub mask_email : Text → Option (Option Text)
mask_email email =
    if is_empty email
    then some none
    else if is_char_boundary email (shown_length email)
    then some (some (take (shown_length email) email ++ codes "***"))
    else none

pub record Probes : Type 0 where
  pub directory : Answer ℕ
  pub lookup_host : Text → Answer (List Text)
  pub get_challenge : Text → Text → Answer ℕ

abbrev pub is_success : ℕ → Bool
is_success status = leb 200 status && ltb status 300

-- The answer of the test, of which the fields that are filled later begin as false or empty.
pub record Results : Type 0 where
  pub acme_configured : Bool
  pub acme_email : Option Text
  pub domain : Text
  pub letsencrypt_reachable : Bool
  pub dns_resolves : Bool
  pub resolved_ips : List Text
  pub domain_reachable : Bool
  pub warnings : List Text
  pub errors : List Text

abbrev ask_directory : Answer ℕ → Results → Results
ask_directory (bad e) r = record r {
  errors = r.errors ++ (codes "Let's Encrypt connection failed: " ++ e) ∷ [];
}
ask_directory (good status) r =
    if is_success status
    then record r { letsencrypt_reachable = true }
    else record r { errors = r.errors ++ codes "Let's Encrypt directory unreachable" ∷ [] }

abbrev ask_host : Answer (List Text) → Results → Results
ask_host (bad e) r = record r { errors = r.errors ++ (codes "DNS resolution failed: " ++ e) ∷ [] }
ask_host (good ips) r = record r { dns_resolves = ltb 0 (length ips); resolved_ips = ips }

abbrev warning : Text → Text → Text → Text
warning domain http_port e =
    codes "HTTP-01 may fail: "
    ++ (domain ++ (codes ":" ++ (http_port ++ (codes " not reachable (" ++ (e ++ codes ")")))))

abbrev reach : Text → Text → Answer ℕ → Results → Results
reach domain http_port (bad e) r = record r {
  warnings = r.warnings ++ warning domain http_port e ∷ [];
}
reach domain http_port (good status) r = record r {
  domain_reachable = is_success status || status == 404;
}

abbrev try_domain : Probes → Text → Text → Results → Results
try_domain probes domain http_port r =
    let resolved = ask_host (probes.lookup_host domain) r in
    if is_empty domain
    then r
    else if resolved.dns_resolves
    then reach domain http_port (probes.get_challenge domain http_port) resolved
    else resolved

abbrev is_ready : Text → Results → Bool
is_ready domain r =
    r.acme_configured && r.letsencrypt_reachable && (is_empty domain || r.domain_reachable)

abbrev pub tested : Probes → Text → Text → Results → Results × Bool
tested probes domain http_port r =
    let done = try_domain probes domain http_port (ask_directory probes.directory r) in
    (done, is_ready domain done)

-- The results with the verdict `ready`; `none` is a panic.
unfoldable pub test_certificate_setup : Probes → Db → Text → Text → Option (Results × Bool)
unfolding mask_email
test_certificate_setup probes db http_port domain =
    let email = get_setting db (codes "acme_email") in
    elim (mask_email email) [
      | none ↦ none
      | some shown ↦ some (
          tested probes domain http_port (record {
            acme_configured = not (is_empty email);
            acme_email = shown;
            domain = domain;
            letsencrypt_reachable = false;
            dns_resolves = false;
            resolved_ips = [];
            domain_reachable = false;
            warnings = [];
            errors = [];
          }))
    ]

-- `body["success"]` as a Boolean, the message of the first error, and the name of the zone.
pub record CfBody : Type 0 where
  pub success : Option Bool
  pub first_error : Option Text
  pub zone_name : Option Text

pub record CfResult : Type 0 where
  pub token_valid : Bool
  pub zone_accessible : Bool
  pub error : Option Text
  pub zone_name : Option Text

abbrev is_true : Option Bool → Bool
is_true none = false
is_true (some b) = b

abbrev verified : CfBody → CfResult
verified body = record {
  token_valid = is_true body.success;
  zone_accessible = false;
  error =
      if is_true body.success
      then none
      else some (unwrap_or body.first_error (codes "Unknown error"));
  zone_name = none;
}

abbrev with_zone : Answer CfBody → CfResult → CfResult
with_zone (bad e) r = record r { error = some (codes "Zone lookup failed: " ++ e) }
with_zone (good body) r = record r {
  zone_accessible = is_true body.success;
  zone_name = body.zone_name;
}

unfoldable pub test_cloudflare : Answer CfBody → (Text → Answer CfBody) → Text → CfResult
test_cloudflare (bad e) zone zone_id = record {
  token_valid = false;
  zone_accessible = false;
  error = some (codes "Connection failed: " ++ e);
  zone_name = none;
}
test_cloudflare (good body) zone zone_id =
    if is_empty zone_id then verified body else with_zone (zone zone_id) (verified body)

pub record DdnsReport : Type 0 where
  pub ddns_enabled : Bool
  pub provider : Text
  pub token_set : Bool
  pub domains_configured : Bool
  pub domain_count : ℕ
  pub ipv4 : Option (Text × Text)
  pub ipv6 : Option (Text × Text)
  pub success : Bool
  pub cf_connectivity : Option CfResult

-- What each address service answers, and Cloudflare for a token.
pub record Network : Type 0 where
  pub ipv4_endpoints : List (Text × Option Text)
  pub ipv6_endpoints : List (Text × Option Text)
  pub verify : Text → Answer CfBody
  pub zone : Text → Text → Answer CfBody

unfoldable pub ddns_test : Crypto → Network → Db → DdnsReport
unfolding detect_ip_with_source test_cloudflare
ddns_test crypto net db =
    let token = or_empty (get_secret_setting crypto db (codes "ddns_cf_token")) in
    let domains = get_setting db (codes "ddns_domains") in
    let ipv4 = detect_ip_with_source false net.ipv4_endpoints in
    let ipv6 = detect_ip_with_source true net.ipv6_endpoints in
    record {
      ddns_enabled = text_eq (get_setting db (codes "ddns_enabled")) (codes "true");
      provider = get_setting db (codes "ddns_provider");
      token_set = not (is_empty token);
      domains_configured = not (is_empty domains);
      domain_count = length (retain (λ l. not (is_empty l)) (trimmed_lines domains));
      ipv4 = ipv4;
      ipv6 = ipv6;
      success = is_some ipv4 || is_some ipv6;
      cf_connectivity =
          if is_empty token
          then none
          else some (test_cloudflare (net.verify token) (net.zone token) []);
    }

abbrev address : Option (Text × Text) → Option Text
address none = none
address (some found) = some found.0

unfoldable pub public_ip : Network → Option Text × Option Text
unfolding detect_ip_with_source
public_ip net = (
  address (detect_ip_with_source false net.ipv4_endpoints),
  address (detect_ip_with_source true net.ipv6_endpoints),
)

-- `list_zones` of each provider is an argument: what it answers for a token, a zone by its text.
unfoldable pub ddns_list_zones :
    Crypto → (Text → Option (Text → Answer (List Text))) → Db → AppResult (List Text)
ddns_list_zones crypto get_provider db =
    let token = or_empty (get_secret_setting crypto db (codes "ddns_cf_token")) in
    if is_empty token
    then err (bad_request (codes "API token not configured"))
    else elim (get_provider (get_setting db (codes "ddns_provider"))) [
      | none ↦ err internal
      | some list_zones ↦ elim (list_zones token) [ bad e ↦ err internal | good zones ↦ ok zones ]
    ]
