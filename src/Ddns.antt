-- ===== src/Ddns.antt =====
-- Dynamic DNS: backend/src/ddns/mod.rs, and the handlers `ddns_status`, `ddns_toggle`,
-- `ddns_delete_domain` and `detect_ip_with_source` of backend/src/api/settings.rs. A provider is an
-- instance of the interface of the module Dns; the answers of the address services and the output of
-- `ip addr` are arguments. Texts of addresses are ASCII.
pub mod Switches
pub mod Addresses
pub mod Toggle
use unver.Prelude.{
  ℕ, Bool, true, false, not, ◌&&◌, ◌||◌, ◌==◌, Option, none, some, List, [], ◌∷◌, ◌++◌, map, Text,
  codes, text_eq, is_digit, is_empty, is_some, leb, any, all, contains_char, starts_with,
  strip_prefix, before_char, split_on, retain, unwrap_or, trim_end_char, if◌then◌else◌,
}
use unver.Prelude.Trim.{trim}
use unver.Prelude.Join.{join_with}
use unver.Errors.{AppResult, ok, err}
use unver.State.{Db, AppState, get_setting, set_setting}
use unver.Security.{Crypto, get_secret_setting}
use unver.Dns.{Answer, good, bad, Call, give, DnsProvider, ◌>>=◌}

-- The test of `fetch_ip` on one character.
abbrev pub is_ip_char : ℕ → Bool
is_ip_char c = is_digit c || c == b'.' || c == b':'

abbrev pub takes : Bool → Text → Bool
takes require_colon ip =
    not (is_empty ip) && all is_ip_char ip && (not require_colon || contains_char ip b':')

-- The body that each endpoint answers in turn, `none` where there is none.
unfoldable pub fetch_ip : Bool → List (Option Text) → Option Text
unfolding trim
fetch_ip require_colon [] = none
fetch_ip require_colon (none ∷ rest) = fetch_ip require_colon rest
fetch_ip require_colon (some body ∷ rest) =
    let later = fetch_ip require_colon rest in
    if takes require_colon (trim body) then some (trim body) else later

-- The same with the endpoint's name.
unfoldable pub detect_ip_with_source : Bool → List (Text × Option Text) → Option (Text × Text)
detect_ip_with_source require_colon [] = none
detect_ip_with_source require_colon ((url, none) ∷ rest) = detect_ip_with_source require_colon rest
detect_ip_with_source require_colon ((url, some body) ∷ rest) =
    let later = detect_ip_with_source require_colon rest in
    if takes require_colon (trim body) then some (trim body, url) else later

-- The lines, trimmed. A last line that is empty is passed over wherever this is used.
abbrev pub trimmed_lines : Text → List Text
trimmed_lines t = map trim (split_on 10 t)

-- `split_whitespace().next()` of an ASCII text that is trimmed.
abbrev first_word : Text → Text
first_word [] = []
first_word (x ∷ s) =
    let rest = first_word s in if leb 9 x && leb x 13 || x == 32 then [] else x ∷ rest

-- The address in a line of `ip addr`, empty where there is none.
abbrev address_in : Text → Text → Text
address_in prefix line = elim (strip_prefix line prefix) [
  | none ↦ []
  | some rest ↦ first_word (trim (before_char rest b'/'))
]

abbrev is_link_local : Text → Bool
is_link_local ip = starts_with ip (codes "fe80:")

-- The first address in the lines that a test takes.
abbrev first_address : (Text → Bool) → Text → List Text → Option Text
first_address p prefix [] = none
first_address p prefix (line ∷ lines) =
    let later = first_address p prefix lines in
    let ip = address_in prefix line in if not (is_empty ip) && p ip then some ip else later

abbrev or_else : Option Text → Option Text → Option Text
or_else (some a) o = some a
or_else none o = o

-- From the output of the command: for `-6`, a link-local address only where there is no other.
unfoldable pub get_iface_ip : Bool → Text → Option Text
get_iface_ip is_v6 output =
    let lines = trimmed_lines output in
    if is_v6
    then or_else (first_address (λ ip. not (is_link_local ip)) (codes "inet6 ") lines)
        (first_address is_link_local (codes "inet6 ") lines)
    else first_address (λ ip. true) (codes "inet ") lines

-- The legacy domain first, then the lines of the list but for that domain.
unfoldable pub collect_domains : Db → List Text
collect_domains db =
    let legacy = get_setting db (codes "ddns_domain") in
    (if is_empty legacy then [] else legacy ∷ [])
    ++ retain (λ d. not (is_empty d) && not (text_eq d legacy))
        (trimmed_lines (get_setting db (codes "ddns_domains")))

-- What the manager takes from outside: the answers of the two lists of endpoints, and the output of
-- `ip addr show` for an interface, `none` where the command fails.
pub record Env : Type 0 where
  pub ipv4_answers : List (Option Text)
  pub ipv6_answers : List (Option Text)
  pub ip_addr : Bool → Text → Option Text

abbrev iface_ip : Env → Bool → Text → Option Text
iface_ip env is_v6 iface = elim (env.ip_addr is_v6 iface) [
  | none ↦ none
  | some output ↦ get_iface_ip is_v6 output
]

unfoldable pub detect : Env → Text → Text × Option Text
unfolding fetch_ip get_iface_ip
detect env ip_source = elim (strip_prefix ip_source (codes "interface:")) [
  | some iface ↦ (unwrap_or (iface_ip env false iface) [], iface_ip env true iface)
  | none ↦ (unwrap_or (fetch_ip false env.ipv4_answers) [], fetch_ip true env.ipv6_answers)
]

module _ {W : Type 0} (provider : DnsProvider W) where
  abbrev noted : Text → Text → Db → Answer (Unit {0}) × W → Answer (Unit {0}) × (Db × W)
  noted key ip db (good u, w) = (good u, (set_setting key ip db, w))
  noted key ip db (bad e, w) = (bad e, (db, w))

  -- The record is written, and the address is kept in the settings.
  unfoldable pub publish : Text → Text → Text → Text → Call (Db × W) (Unit {0})
  publish domain ip record_type key (db, w) =
      noted key ip db (provider.upsert_record db domain ip record_type w)

  abbrev publish_v4 : Text → Text → Call (Db × W) (Unit {0})
  publish_v4 domain ip =
      if is_empty ip then give tt else publish domain ip (codes "A") (codes "ddns_ipv4_" ++ domain)

  abbrev publish_v6 : Text → Option Text → Call (Db × W) (Unit {0})
  publish_v6 domain none = give tt
  publish_v6 domain (some ip) =
      if not (is_empty ip) && contains_char ip b':'
      then publish domain ip (codes "AAAA") (codes "ddns_ipv6_" ++ domain)
      else give tt

  unfoldable pub update_domains : Text → Option Text → List Text → Call (Db × W) (Unit {0})
  update_domains ipv4 ipv6 [] = give tt
  update_domains ipv4 ipv6 (domain ∷ domains) = do
    a ← publish_v4 domain ipv4
    b ← publish_v6 domain ipv6
    update_domains ipv4 ipv6 domains

abbrev or_empty : AppResult Text → Text
or_empty (ok t) = t
or_empty (err e) = []

abbrev secret_set : Crypto → Db → Text → Bool
secret_set crypto db key = not (is_empty (or_empty (get_secret_setting crypto db key)))

unfoldable pub has_creds : Crypto → Db → Text → Bool
has_creds crypto db provider_name =
    if text_eq provider_name (codes "cloudflare")
    then secret_set crypto db (codes "ddns_cf_token")
    else if text_eq provider_name (codes "aliyun")
    then secret_set crypto db (codes "ddns_aliyun_access_key_id")
    else false

module _ {W : Type 0} (crypto : Crypto) (get_provider : Text → Option (DnsProvider W)) where
  abbrev update_all : Env → DnsProvider W → Call (Db × W) (Unit {0})
  update_all env provider (db, w) =
      let (ipv4, ipv6) = detect env (get_setting db (codes "ddns_ip_source")) in
      update_domains provider ipv4 ipv6 (collect_domains db) (db, w)

  -- Without domains nothing is asked for.
  unfoldable pub update_ddns : Env → Call (Db × W) (Unit {0})
  unfolding update_domains publish
  update_ddns env (db, w) =
      let provider_name = get_setting db (codes "ddns_provider") in
      elim (get_provider provider_name) [
        | none ↦ (bad (codes "Unknown DDNS provider"), (db, w))
        | some provider ↦
            if not (has_creds crypto db provider_name)
            then (good tt, (db, w))
            else update_all env provider (db, w)
      ]

  -- One round of the manager, which logs an error.
  unfoldable pub manager_round : Env → Db × W → Db × W
  manager_round env (db, w) =
      if text_eq (get_setting db (codes "ddns_enabled")) (codes "true")
      then (update_ddns env (db, w)).1
      else (db, w)

  unfoldable pub delete_ddns_domain : Text → Db → Call W ℕ
  delete_ddns_domain domain db w = elim (get_provider (get_setting db (codes "ddns_provider"))) [
    | none ↦ (bad (codes "Unknown DDNS provider"), w)
    | some provider ↦ provider.delete_domain_records db domain w
  ]
