-- ===== src/Dns/Cloudflare.antt =====
-- The Cloudflare provider of backend/src/ddns/providers/cloudflare.rs. The HTTP client and the JSON parser
-- are a parameter, a record of the requests that the provider sends. Log lines are left out, and the
-- texts of the errors are shortened.
pub mod Challenges
pub mod Zones
use unver.Prelude.{
  ℕ, zero, suc, ◌+◌, ◌-◌, Bool, true, false, not, ◌&&◌, ◌||◌, ◌==◌, Option, none, some, List, [],
  ◌∷◌, ◌++◌, map, Text, codes, text_eq, is_empty, length, take, drop, split_on, leb, unwrap_or, any,
  starts_with, if◌then◌else◌,
}
use unver.Prelude.Int.{ℤ, pos, int_leb}
use unver.Prelude.Join.{join_with}
use unver.Errors.{AppResult, ok, err}
use unver.State.{Db, get_setting}
use unver.Security.{Crypto, get_secret_setting}
use unver.Settings.{ends_with}
use unver.Dns.{Answer, good, bad, Call, give, refuse, DnsProvider, ◌>>=◌}

pub record Zone : Type 0 where
  pub id : Option Text
  pub name : Option Text

pub record Record : Type 0 where
  pub id : Option Text
  pub content : Option Text

-- `success`, `result` and `result_info.total_count` of a body.
pub record Body (A : Type 0) : Type 0 where
  pub success : Bool
  pub result : Option A
  pub total_count : ℤ

-- No answer, or whether the status is a success and the body, `none` where it does not parse.
pub data Reply (A : Type 0) : Type 0 where
  unreachable : Text → Reply A
  answered : Bool → Option (Body A) → Reply A

-- The requests, under a token: by the query, zone, type, name, content or record that they carry.
pub record Api (W : Type 0) : Type 0 where
  pub zones_named : Text → W → Reply (List Zone) × W
  pub get_zone : Text → W → Reply Zone × W
  pub zones_page : ℕ → W → Reply (List Zone) × W
  pub get_records : Text → Text → Text → W → Reply (List Record) × W
  pub post_record : Text → Text → Text → Text → W → Reply Record × W
  pub put_record : Text → Text → Text → Text → Text → W → Reply Record × W
  -- whether an answer came
  pub delete_record : Text → Text → W → Bool × W

unfoldable pub get_credentials : Crypto → Db → Answer (Text × Text)
get_credentials crypto db = elim (get_secret_setting crypto db (codes "ddns_cf_token")) [
  | err e ↦ bad (codes "Token")
  | ok token ↦
      if is_empty token
      then bad (codes "Cloudflare token not configured")
      else good (token, get_setting db (codes "ddns_cf_zone_id"))
]

-- A body that does not parse is taken as `null`.
abbrev pub is_success : {A : Type 0} → Option (Body A) → Bool
is_success none = false
is_success (some body) = body.success

abbrev pub result_of : {A : Type 0} → Option (Body A) → Option A
result_of none = none
result_of (some body) = body.result

abbrev first_id : Option (List Zone) → Text
first_id none = []
first_id (some []) = []
first_id (some (z ∷ zs)) = unwrap_or z.id []

-- The zone of an answer, empty where there is none.
abbrev zone_in : Bool → Option (Body (List Zone)) → Text
zone_in status body = if status && is_success body then first_id (result_of body) else []

abbrev pub suffix : List Text → ℕ → Text
suffix parts i = join_with b'.' (drop i parts)

module _ {W : Type 0} (api : Api W) where
  -- The rounds from `i` on, of which `n` are left; no zone is the empty text.
  unfoldable pub find_zone : List Text → ℕ → ℕ → Call W Text
  find_zone parts zero i w = (good [], w)
  find_zone parts (suc n) i w =
      let (reply, w') = api.zones_named (suffix parts i) w in
      elim reply [
        | unreachable e ↦ (bad e, w')
        | answered status body ↦
            let zone = zone_in status body in
            let later = find_zone parts n (suc i) w' in
            elim (is_empty zone) [ true ↦ later | false ↦ (good zone, w') ]
      ]

  abbrev pub or_no_zone : Text → Call W Text
  or_no_zone zone = if is_empty zone then refuse (codes "no zone") else give zone

  -- `resolve_zone_id` for the one domain that its callers pass.
  unfoldable pub resolve_zone_id : Text → Call W Text
  resolve_zone_id domain =
      let parts = split_on b'.' domain in find_zone parts (length parts - 1) 0 >>= or_no_zone

  abbrev in_zone : Text → Text → Bool
  in_zone domain zone_name = text_eq domain zone_name || ends_with domain (codes "." ++ zone_name)

  abbrev zone_name_of : Option Zone → Text
  zone_name_of none = []
  zone_name_of (some z) = unwrap_or z.name []

  unfoldable pub validate_zone_id : Text → Text → Call W (Unit {0})
  validate_zone_id zone_id domain w = elim ((api.get_zone zone_id w).0) [
    | unreachable e ↦ (bad e, (api.get_zone zone_id w).1)
    | answered status body ↦
        if not (is_success body)
        then (bad (codes "Zone not found"), (api.get_zone zone_id w).1)
        else if in_zone domain (zone_name_of (result_of body))
        then (good tt, (api.get_zone zone_id w).1)
        else (bad (codes "no domain of the zone"), (api.get_zone zone_id w).1)
  ]

  -- A configured zone is taken whatever the check says.
  unfoldable pub resolve_or_validate_zone_id : Text → Text → Call W Text
  resolve_or_validate_zone_id zone_id domain w =
      if is_empty zone_id
      then resolve_zone_id domain w
      else (good zone_id, (validate_zone_id zone_id domain w).1)

  abbrev written : Reply Record → Answer (Unit {0})
  written (unreachable e) = bad e
  written (answered status body) =
      if is_success body then good tt else bad (codes "DDNS write failed")

  abbrev sent : Reply Record × W → Answer (Unit {0}) × W
  sent (reply, w) = (written reply, w)

  abbrev pub create_record : Text → Text → Text → Text → Call W (Unit {0})
  create_record zone_id domain ip record_type w =
      sent (api.post_record zone_id record_type domain ip w)

  abbrev pub update_one : Text → Text → Text → Text → Text → Call W (Unit {0})
  update_one zone_id record_id domain ip record_type w =
      sent (api.put_record zone_id record_id record_type domain ip w)

  unfoldable pub update_records : Text → Text → Text → Text → List Record → Call W (Unit {0})
  update_records zone_id domain ip record_type [] = give tt
  update_records zone_id domain ip record_type (r ∷ rs) =
      let rest = update_records zone_id domain ip record_type rs in
      let record_id = unwrap_or r.id [] in
      let current_ip = unwrap_or r.content [] in
      if is_empty record_id || is_empty current_ip || text_eq current_ip ip
      then rest
      else (update_one zone_id record_id domain ip record_type >>= λ u. rest)

  -- The setting that holds the last address, `none` for a type that is not managed.
  abbrev pub cache_key : Text → Text → Option Text
  cache_key record_type domain =
      if text_eq record_type (codes "A")
      then some (codes "ddns_ipv4_" ++ domain)
      else if text_eq record_type (codes "AAAA")
      then some (codes "ddns_ipv6_" ++ domain)
      else none

  unfoldable pub create_if_new : Db → Text → Text → Text → Text → Call W (Unit {0})
  create_if_new db zone_id domain ip record_type = elim (cache_key record_type domain) [
    | none ↦ give tt
    | some key ↦
        if is_empty (get_setting db key)
        then create_record zone_id domain ip record_type
        else give tt
  ]

  unfoldable pub upsert_listed : Db → Text → Text → Text → Text → List Record → Call W (Unit {0})
  upsert_listed db zone_id domain ip record_type [] = create_if_new db zone_id domain ip record_type
  upsert_listed db zone_id domain ip record_type (r ∷ rs) =
      update_records zone_id domain ip record_type (r ∷ rs)

  -- A lookup that the API refuses is only logged.
  unfoldable pub upsert_reply :
      Db → Text → Text → Text → Text → Reply (List Record) → Call W (Unit {0})
  upsert_reply db zone_id domain ip record_type (unreachable e) = refuse e
  upsert_reply db zone_id domain ip record_type (answered false body) = give tt
  upsert_reply db zone_id domain ip record_type (answered true none) = refuse (codes "no JSON")
  upsert_reply db zone_id domain ip record_type (answered true (some body)) =
      if body.success
      then upsert_listed db zone_id domain ip record_type (unwrap_or body.result [])
      else give tt

  unfoldable pub upsert_record : Db → Text → Text → Text → Text → Call W (Unit {0})
  upsert_record db configured domain ip record_type =
      resolve_or_validate_zone_id configured domain >>= λ zone_id w.
      upsert_reply db zone_id domain ip record_type (api.get_records zone_id record_type domain w).0
        (api.get_records zone_id record_type domain w).1

  -- A delete counts whether it succeeds or not.
  unfoldable pub delete_records : Text → ℕ → List Record → W → ℕ × W
  delete_records zone_id deleted [] w = (deleted, w)
  delete_records zone_id deleted (r ∷ rs) w =
      let rid = unwrap_or r.id [] in
      let skipped = delete_records zone_id deleted rs w in
      let after = delete_records zone_id (suc deleted) rs (api.delete_record zone_id rid w).1 in
      if is_empty rid then skipped else after

  unfoldable pub delete_types : Text → Text → List Text → ℕ → Call W ℕ
  delete_types zone_id domain [] deleted w = (good deleted, w)
  delete_types zone_id domain (record_type ∷ types) deleted w =
      let (reply, w') = api.get_records zone_id record_type domain w in
      elim reply [
        | unreachable e ↦ (bad e, w')
        | answered status body ↦
            let (n, w2) = delete_records zone_id deleted (unwrap_or (result_of body) []) w' in
            delete_types zone_id domain types n w2
      ]

  unfoldable pub delete_domain_records : Text → Text → Call W ℕ
  delete_domain_records zone_id domain =
      if is_empty zone_id
      then refuse (codes "Zone ID not configured")
      else delete_types zone_id domain (codes "A" ∷ codes "AAAA" ∷ []) 0
