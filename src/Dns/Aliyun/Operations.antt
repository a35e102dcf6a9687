-- ===== src/Dns/Aliyun/Operations.antt =====
-- The operations of the Aliyun provider of backend/src/ddns/providers/aliyun.rs.
use unver.Prelude.{
  ℕ, zero, suc, ◌-◌, Bool, true, false, not, ◌||◌, Option, none, some, List, [], ◌∷◌, Text, codes,
  text_eq, is_empty, contains, length, take, drop, retain, split_on, unwrap_or, if◌then◌else◌,
}
use unver.Prelude.Join.{join_with}
use unver.Errors.{AppResult, ok, err}
use unver.State.{Db}
use unver.Security.{Crypto, get_secret_setting}
use unver.Dns.{Answer, good, bad, Call, give, refuse, ignoring, DnsProvider, ◌>>=◌}
use unver.Dns.Aliyun.{Body, Client, Record, call_api}

abbrev text_eq_option : Option Text → Text → Bool
text_eq_option none t = false
text_eq_option (some s) t = text_eq s t

module _ {W : Type 0} (client : Client W) (keys : Text × Text) where
  abbrev pub is_no_zone : Text → Bool
  is_no_zone e = contains e (codes "DomainNotExist") || contains e (codes "InvalidDomainName")

  abbrev pub candidate : List Text → ℕ → Text
  candidate parts i = join_with b'.' (drop i parts)

  abbrev pub rr_of : List Text → ℕ → Text
  rr_of parts zero = codes "@"
  rr_of parts (suc i) = join_with b'.' (take (suc i) parts)

  -- The rounds from `i` on; `n` counts those that are left.
  unfoldable pub try_zones : List Text → ℕ → ℕ → Call W (Text × Text)
  try_zones parts zero i w = (bad (codes "not found"), w)
  try_zones parts (suc n) i w =
      let (answer, w') =
        call_api client keys (codes "DescribeDomainRecords")
          ((codes "DomainName", candidate parts i) ∷ (codes "PageSize", codes "1") ∷ []) w in
      elim answer [
        | good body ↦ (good (candidate parts i, rr_of parts i), w')
        | bad e ↦ elim (is_no_zone e) [ true ↦ try_zones parts n (suc i) w' | false ↦ (bad e, w') ]
      ]

  unfoldable pub resolve_domain_name : Text → Call W (Text × Text)
  resolve_domain_name full_domain =
      let parts = split_on b'.' full_domain in try_zones parts (length parts - 1) 0

  abbrev is_exact : Text → Record → Bool
  is_exact rr r = text_eq_option r.rr rr

  abbrev describe : Text → Text → Text → Call W Body
  describe domain_name rr record_type = call_api client keys (codes "DescribeDomainRecords") (
      (codes "DomainName", domain_name)
      ∷ (codes "RRKeyWord", rr)
      ∷ (codes "Type", record_type)
      ∷ (codes "PageSize", codes "50")
      ∷ [])

  abbrev add_record : Text → Text → Text → Text → Text → Call W Body
  add_record domain_name rr record_type value ttl = call_api client keys (codes "AddDomainRecord") (
      (codes "DomainName", domain_name)
      ∷ (codes "RR", rr)
      ∷ (codes "Type", record_type)
      ∷ (codes "Value", value)
      ∷ (codes "TTL", ttl)
      ∷ [])

  abbrev update_record : Text → Text → Text → Text → Call W Body
  update_record record_id rr record_type ip = call_api client keys (codes "UpdateDomainRecord") (
      (codes "RecordId", record_id)
      ∷ (codes "RR", rr)
      ∷ (codes "Type", record_type)
      ∷ (codes "Value", ip)
      ∷ (codes "TTL", codes "120")
      ∷ [])

  abbrev delete_record : Text → Call W Body
  delete_record rid =
      call_api client keys (codes "DeleteDomainRecord") ((codes "RecordId", rid) ∷ [])

  -- The loop over the records that exist.
  unfoldable pub update_records : Text → Text → Text → List Record → Call W (Unit {0})
  update_records rr record_type ip [] = give tt
  update_records rr record_type ip (r ∷ rs) =
      let rest = update_records rr record_type ip rs in
      let record_id = unwrap_or r.record_id [] in
      if is_empty record_id || text_eq (unwrap_or r.value []) ip
      then rest
      else (update_record record_id rr record_type ip >>= λ body. rest)

  unfoldable pub upsert_exact : Text → Text → Text → Text → List Record → Call W (Unit {0})
  upsert_exact domain_name rr record_type ip [] =
      add_record domain_name rr record_type ip (codes "120") >>= λ body. give tt
  upsert_exact domain_name rr record_type ip (r ∷ rs) = update_records rr record_type ip (r ∷ rs)

  unfoldable pub upsert_record : Text → Text → Text → Call W (Unit {0})
  upsert_record domain ip record_type = do
    (domain_name, rr) ← resolve_domain_name domain
    resp ← describe domain_name rr record_type
    upsert_exact domain_name rr record_type ip (retain (is_exact rr) resp.records)

  -- A delete counts whether it succeeds or not.
  unfoldable pub delete_records : Text → ℕ → List Record → W → ℕ × W
  delete_records rr deleted [] w = (deleted, w)
  delete_records rr deleted (r ∷ rs) w =
      let rid = unwrap_or r.record_id [] in
      let skipped = delete_records rr deleted rs w in
      let after = delete_records rr (suc deleted) rs (ignoring (delete_record rid) w) in
      if not (is_exact rr r) || is_empty rid then skipped else after

  unfoldable pub delete_types : Text → Text → List Text → ℕ → Call W ℕ
  delete_types domain_name rr [] deleted = give deleted
  delete_types domain_name rr (record_type ∷ types) deleted =
      describe domain_name rr record_type >>= λ resp w.
      let (n, w') = delete_records rr deleted resp.records w in
      delete_types domain_name rr types n w'

  abbrev or_nothing : Answer (Text × Text) → ((Text × Text) → Call W ℕ) → Call W ℕ
  or_nothing (good zone) f = f zone
  or_nothing (bad e) f = give 0

  unfoldable pub delete_domain_records : Text → Call W ℕ
  delete_domain_records domain w =
      or_nothing (resolve_domain_name domain w).0
        (λ zone. delete_types zone.0 zone.1 (codes "A" ∷ codes "AAAA" ∷ []) 0)
        (resolve_domain_name domain w).1

  abbrev record_id_of : Body → Call W Text
  record_id_of resp = elim (resp.record_id) [
    | none ↦ refuse (codes "No RecordId in response")
    | some id ↦ give id
  ]

  unfoldable pub create_acme_txt : Text → Text → Call W Text
  create_acme_txt domain value = do
    zone ← resolve_domain_name domain
    resp ← add_record zone.0 (codes "_acme-challenge") (codes "TXT") value (codes "60")
    record_id_of resp

  unfoldable pub delete_acme_txt : Text → Call W (Unit {0})
  delete_acme_txt record_id = delete_record record_id >>= λ body. give tt

  abbrev count_good : ℕ → Answer Body → ℕ
  count_good n (good body) = suc n
  count_good n (bad e) = n

  unfoldable pub delete_found : ℕ → List Record → W → ℕ × W
  delete_found deleted [] w = (deleted, w)
  delete_found deleted (r ∷ rs) w =
      let rid = unwrap_or r.record_id [] in
      let skipped = delete_found deleted rs w in
      let (answer, w') = delete_record rid w in
      let after = delete_found (count_good deleted answer) rs w' in
      if is_empty rid then skipped else after

  unfoldable pub cleanup_acme_txts : Text → Call W ℕ
  cleanup_acme_txts domain w =
      or_nothing (resolve_domain_name domain w).0
        (λ zone.
          call_api client keys (codes "DescribeDomainRecords") (
            (codes "DomainName", zone.0)
            ∷ (codes "RRKeyWord", codes "_acme-challenge")
            ∷ (codes "TypeKeyWord", codes "TXT")
            ∷ (codes "PageSize", codes "50")
            ∷ [])
          >>= λ resp w'. let (n, w2) = delete_found 0 resp.records w' in (good n, w2))
        (resolve_domain_name domain w).1

abbrev key_of : Text → AppResult Text → Answer Text
key_of missing (err e) = bad missing
key_of missing (ok t) = if is_empty t then bad missing else good t

-- The errors' texts are not kept.
unfoldable pub get_credentials : Crypto → Db → Answer (Text × Text)
get_credentials crypto db =
    elim (key_of (codes "AccessKey ID")
      (get_secret_setting crypto db (codes "ddns_aliyun_access_key_id"))) [
        | bad e ↦ bad e
        | good id ↦
            elim (key_of (codes "AccessKey Secret")
              (get_secret_setting crypto db (codes "ddns_aliyun_access_key_secret"))) [
                | bad e ↦ bad e
                | good secret ↦ good (id, secret)
              ]
      ]

-- Every operation starts with the credentials.
module _ {W : Type 0} (crypto : Crypto) (client : Client W) where
  abbrev with_keys : {A : Type 0} → Db → (Text × Text → Call W A) → Call W A
  with_keys db f w = elim (get_credentials crypto db) [ good keys ↦ f keys w | bad e ↦ (bad e, w) ]

  unfoldable pub aliyun : DnsProvider W
  aliyun = record {
    upsert_record = λ db domain ip kind. with_keys db (λ k. upsert_record client k domain ip kind);
    delete_domain_records = λ db domain. with_keys db (λ k. delete_domain_records client k domain);
    create_acme_txt = λ db domain value. with_keys db (λ k. create_acme_txt client k domain value);
    delete_acme_txt = λ db domain id. with_keys db (λ k. delete_acme_txt client k id);
    cleanup_acme_txts = λ db domain. with_keys db (λ k. cleanup_acme_txts client k domain);
  }
