-- ===== src/Tests/Ddns.antt =====
-- Requests to the DNS providers, and the domains that are switched on and off.
use unver.Prelude.{
  replicate, suc, ◌-◌, ◌≡◌, refl, ap, ℕ, ◌+◌, Bool, true, false, ◌&&◌, none, some, Option, List, [],
  ◌∷◌, ◌++◌, Text, codes, arith, All, ltb, ltb→lt, all, and-eq-true, text_eq, contains,
}
use unver.Prelude.Int.{pos}
use unver.Prelude.Trim.{trim}
use unver.Prelude.Assoc.{lookup, insert}
use unver.State.{Db, get_setting, set_setting}
use unver.Dns.{good}
use unver.Dns.Aliyun.{
  Client, Params, common_params, parsed, percent_encode, sign, build_request, call_api,
}
use unver.Dns.Aliyun.Operations.{try_zones, resolve_domain_name}
use unver.Dns.Aliyun.Encoding.{IsBytes, IsPair, parse_query, build_request-query}
use unver.Dns.Aliyun.Zones.{Spells, resolve_domain_name-Spells}
use unver.Dns.Cloudflare.{Api, Zone, answered}
use unver.Dns.Cloudflare.Challenges.{
  list_pages, list_zones, find_acme_zone, acme_zone, create_acme_txt,
}
use unver.Dns.Cloudflare.Zones.{page_of, Serves, list_zones-lists}
use unver.Ddns.{fetch_ip, collect_domains, detect_ip_with_source}
use unver.Ddns.Switches.{ddns_toggle, is_disabled}
use unver.Ddns.Toggle.{IsName, IsSettled, ddns_toggle-sets}
use unver.Tests.Data.{db}

runs : Unit {0}
unfolding trim lookup insert get_setting set_setting percent_encode sign build_request call_api
    try_zones resolve_domain_name fetch_ip list_pages list_zones find_acme_zone acme_zone
    create_acme_txt parse_query ddns_toggle collect_domains detect_ip_with_source
runs = tt

abbrev answers : List (Option Text)
answers = none ∷ some (codes "<html>") ∷ some (codes " 203.0.113.9\n") ∷ []

found : fetch_ip false answers ≡ some (codes "203.0.113.9")
unfolding runs
found = refl

-- A well-formed IPv6 address is passed over.
not_found : fetch_ip true (some (codes "2001:db8::1") ∷ []) ≡ none
unfolding runs
not_found = refl

-- A server with one zone, `example.com`. The world is the requests that were sent.
abbrev client : Client (List Text)
client = record {
  hmac_base64 = λ key text. codes "c2ln";
  timestamp = λ w. codes "1714564800";
  nonce = λ w. codes "n";
  get = λ url w. (
    parsed (record {
      code =
          if_known (contains url (codes "DomainName=example.com")) (none)
            (some (codes "InvalidDomainName.NoExist"));
      message = none;
      record_id = none;
      records = [];
    }),
    url ∷ w,
  );
}
  where
    if_known : Bool → Option Text → Option Text → Option Text
    if_known true a b = a
    if_known false a b = b

abbrev keys : Text × Text
keys = (codes "id", codes "secret")

home_zone :
    (resolve_domain_name client keys (codes "home.example.com") []).0
    ≡ good (codes "example.com", codes "home")
unfolding runs
home_zone = refl

resolve_domain_name-Spells_example :
    Spells (codes "home.example.com") (codes "example.com", codes "home")
resolve_domain_name-Spells_example =
    resolve_domain_name-Spells client keys (codes "home.example.com") [] _ home_zone

abbrev hmac : Text → Text → Text
hmac key text = codes "c2ln"

IsBytes-of : (s : Text) → all (λ b. ltb b 256) s ≡ true → IsBytes s
IsBytes-of [] h = tt
IsBytes-of (b ∷ s) h =
    let (e, r) = and-eq-true (ltb b 256) (all (λ b. ltb b 256) s) h in
    (ltb→lt b 256 e, IsBytes-of s r)

abbrev is_pair : Text × Text → Bool
is_pair p = all (λ b. ltb b 256) p.0 && all (λ b. ltb b 256) p.1

pairs_of : (ps : Params) → all is_pair ps ≡ true → All IsPair ps
pairs_of [] h = tt
pairs_of (p ∷ ps) h =
    let (e, r) = and-eq-true (is_pair p) (all is_pair ps) h in
    let (k, v) = and-eq-true (all (λ b. ltb b 256) p.0) (all (λ b. ltb b 256) p.1) e in
    ((IsBytes-of p.0 k, IsBytes-of p.1 v), pairs_of ps r)

abbrev sent : Params
sent =
    common_params hmac (codes "A") (codes "id") (codes "1") (codes "n")
    ++ (codes "RR", codes "a&b=c") ∷ []

abbrev signed : Params
signed = sent ++ (codes "Signature", sign hmac (codes "GET") sent (codes "s")) ∷ []

all_bytes : all is_pair signed ≡ true
unfolding runs
all_bytes = refl

build_request-query_example :
    (query : Text) × (build_request hmac
        (codes "A")
        ((codes "RR", codes "a&b=c") ∷ [])
        (codes "id")
        (codes "s")
        (codes "1")
        (codes "n")
      ≡ codes "https://alidns.aliyuncs.com?" ++ query)
    × (parse_query query ≡ signed)
build_request-query_example =
    build_request-query hmac (codes "A") ((codes "RR", codes "a&b=c") ∷ []) (codes "id") (codes "s")
      (codes "1") (codes "n") (pairs_of signed all_bytes)

-- An API of two pages with a zone each, that knows no zone of the name `com`.
abbrev zone : Text → Zone
zone name = record { id = some name; name = some name }

-- More than a page.
abbrev zones : List Zone
zones = replicate 60 (zone (codes "a"))

abbrev api : Api ℕ
api = record {
  zones_named = λ name w. (
    answered true (some (record { success = true; result = some []; total_count = pos 0 })),
    w + 1,
  );
  get_zone = λ id w. (answered true none, w + 1);
  zones_page = λ page w. (answered true (some (page_of zones (page - 1))), w + 1);
  get_records = λ z t n w. (answered true none, w + 1);
  post_record = λ z t n c w. (answered true none, w + 1);
  put_record = λ z r t n c w. (answered true none, w + 1);
  delete_record = λ z r w. (true, w + 1);
}

before_suc : (page : ℕ) → suc page - 1 ≡ page
before_suc page = omega arith

api-Serves : Serves api zones
api-Serves page w = ap (λ p. answered true (some (page_of zones p))) (before_suc page)

list_zones-lists_example : (list_zones api 61 0).0 ≡ some (good zones)
list_zones-lists_example = list_zones-lists api zones api-Serves 0

abbrev settled : Db
settled = record db { settings = (codes "ddns_disabled", codes "a.com,b.com") ∷ [] }

settled-IsSettled : IsSettled settled
unfolding runs
settled-IsSettled = (codes "a.com" ∷ codes "b.com" ∷ [], refl, (ground arith))

c_com-IsName : IsName (codes "c.com")
unfolding runs
c_com-IsName = ground arith

ddns_toggle-sets_example :
    let after = ddns_toggle (codes "c.com") false settled in
    IsSettled after
    × (is_disabled after (codes "c.com") ≡ true)
    × ((other : Text)
        → text_eq (codes "c.com") other ≡ false
        → is_disabled after other ≡ is_disabled settled other)
    × (collect_domains after ≡ collect_domains settled)
ddns_toggle-sets_example =
    ddns_toggle-sets (codes "c.com") false settled c_com-IsName settled-IsSettled
