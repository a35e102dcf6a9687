-- ===== src/Dns/Cloudflare/Challenges.antt =====
-- The TXT records of ACME challenges and the list of zones, of
-- backend/src/ddns/providers/cloudflare.rs, and the provider.
use unver.Prelude.{
  ℕ, zero, suc, ◌-◌, Bool, true, false, Option, none, some, List, [], ◌∷◌, ◌++◌, Text, codes,
  is_empty, length, split_on, unwrap_or, if◌then◌else◌,
}
use unver.Prelude.Int.{pos, int_leb}
use unver.State.{Db}
use unver.Security.{Crypto}
use unver.Dns.{Answer, good, bad, Call, DnsProvider, ◌>>=◌}
use unver.Dns.Cloudflare.{
  Api, Record, Reply, Zone, answered, delete_domain_records, get_credentials, or_no_zone, result_of,
  suffix, unreachable, upsert_record,
}

module _ {W : Type 0} (api : Api W) where
  -- `fuel` bounds the pages that are asked for: `none` where it runs out.
  unfoldable pub list_pages : ℕ → ℕ → List Zone → W → Option (Answer (List Zone)) × W
  list_pages zero page zones w = (none, w)
  list_pages (suc fuel) page zones w =
      let (reply, w') = api.zones_page page w in
      elim reply [
        | unreachable e ↦ (some (bad e), w')
        | answered false body ↦ (some (bad (codes "Cloudflare API error")), w')
        | answered true none ↦ (some (bad []), w')
        | answered true (some body) ↦ elim (body.success) [
          | false ↦ (some (bad (codes "errors")), w')
          | true ↦ elim (body.result) [
            | none ↦ (some (good zones), w')
            | some arr ↦
                let later = list_pages fuel (suc page) (zones ++ arr) w' in
                elim (int_leb body.total_count (pos (length (zones ++ arr)))) [
                  | true ↦ (some (good (zones ++ arr)), w')
                  | false ↦ later
                ]
          ]
        ]
      ]

  unfoldable pub list_zones : ℕ → W → Option (Answer (List Zone)) × W
  list_zones fuel = list_pages fuel 1 []

  abbrev first_zone : Option (List Zone) → Option Text
  first_zone none = none
  first_zone (some []) = none
  first_zone (some (z ∷ zs)) = z.id

  -- The loop of the ACME operations, which asks for the suffixes from the second label on. A body that
  -- does not parse is an error.
  unfoldable pub find_acme_zone : List Text → ℕ → ℕ → Call W Text
  find_acme_zone parts zero i w = (good [], w)
  find_acme_zone parts (suc n) i w =
      let (reply, w') = api.zones_named (suffix parts i) w in
      elim reply [
        | unreachable e ↦ (bad e, w')
        | answered status none ↦ (bad (codes "JSON"), w')
        | answered status (some body) ↦
            let later = find_acme_zone parts n (suc i) w' in
            elim (if body.success then first_zone body.result else none) [
              | none ↦ later
              | some id ↦ (good id, w')
            ]
      ]

  unfoldable pub acme_zone : Text → Call W Text
  acme_zone domain =
      let parts = split_on b'.' domain in
      find_acme_zone parts (length parts - 1) 1 >>= or_no_zone api

  abbrev record_id_of : Option Record → Answer Text
  record_id_of none = bad (codes "No record ID in response")
  record_id_of (some r) = elim (r.id) [
    | none ↦ bad (codes "No record ID in response")
    | some id ↦ good id
  ]

  abbrev posted : Reply Record × W → Answer Text × W
  posted (unreachable e, w) = (bad e, w)
  posted (answered status none, w) = (bad (codes "JSON"), w)
  posted (answered status (some body), w) = (record_id_of body.result, w)

  abbrev txt_name : Text → Text
  txt_name domain = codes "_acme-challenge." ++ domain

  unfoldable pub create_acme_txt : Text → Text → Call W Text
  create_acme_txt domain value = acme_zone domain >>= λ zone_id w.
      posted (api.post_record zone_id (codes "TXT") (txt_name domain) value w)

  abbrev if_sent : Bool × W → Answer (Unit {0}) × W
  if_sent (b, w) = (if b then good tt else bad (codes "CF DELETE"), w)

  unfoldable pub delete_acme_txt : Text → Text → Call W (Unit {0})
  delete_acme_txt domain record_id =
      acme_zone domain >>= λ zone_id w. if_sent (api.delete_record zone_id record_id w)

  unfoldable pub delete_found : Text → ℕ → List Record → W → ℕ × W
  delete_found zone_id deleted [] w = (deleted, w)
  delete_found zone_id deleted (r ∷ rs) w =
      let rid = unwrap_or r.id [] in
      let skipped = delete_found zone_id deleted rs w in
      let (is_sent, w') = api.delete_record zone_id rid w in
      let after = delete_found zone_id (if is_sent then suc deleted else deleted) rs w' in
      if is_empty rid then skipped else after

  unfoldable pub cleanup_acme_txts : Text → Text → Call W ℕ
  cleanup_acme_txts zone_id domain w =
      if is_empty zone_id
      then (good 0, w)
      else (let (reply, w') = api.get_records zone_id (codes "TXT") (txt_name domain) w in
          elim reply [
            | unreachable e ↦ (bad e, w')
            | answered status body ↦
                let (n, w2) = delete_found zone_id 0 (unwrap_or (result_of body) []) w' in
                (good n, w2)
          ])

-- Every operation starts with the credentials; `api` takes the token.
module _ {W : Type 0} (crypto : Crypto) (api : Text → Api W) where
  abbrev with_token : {A : Type 0} → Db → (Text × Text → Call W A) → Call W A
  with_token db f w = elim (get_credentials crypto db) [ good c ↦ f c w | bad e ↦ (bad e, w) ]

  unfoldable pub cloudflare : DnsProvider W
  cloudflare = record {
    upsert_record =
        λ db domain ip kind. with_token db (λ c. upsert_record (api c.0) db c.1 domain ip kind);
    delete_domain_records =
        λ db domain. with_token db (λ c. delete_domain_records (api c.0) c.1 domain);
    create_acme_txt =
        λ db domain value. with_token db (λ c. create_acme_txt (api c.0) domain value);
    delete_acme_txt = λ db domain id. with_token db (λ c. delete_acme_txt (api c.0) domain id);
    cleanup_acme_txts = λ db domain. with_token db (λ c. cleanup_acme_txts (api c.0) c.1 domain);
  }
