-- ===== src/Dns/Aliyun/Zones.antt =====
-- Which zone `resolve_domain_name` of backend/src/ddns/providers/aliyun.rs finds.
use unver.Prelude.{
  ℕ, zero, suc, ◌+◌, ◌-◌, ◌<◌, inl, inr, ◌⊎◌, List, [], ◌∷◌, ◌++◌, ◌≡◌, refl, sym, arith, Text,
  codes, split_on, length, Bool-cases,
}
use unver.Prelude.Join.{join_with, length-split_on, join_with-split_on, join_with-cut}
use unver.Dns.{Answer, good, bad}
use unver.Dns.Aliyun.{Client, Body, call_api}
use unver.Dns.Aliyun.Operations.{candidate, rr_of, is_no_zone, try_zones, resolve_domain_name}

Answer-cases : {A : Type 0} (r : Answer A) → ((e : Text) × (r ≡ bad e)) ⊎ ((a : A) × (r ≡ good a))
Answer-cases (good a) = inr (a, refl)
Answer-cases (bad e) = inl (e, refl)

-- The zone is the domain and the record is at its apex, or the record's name and the zone's spell the
-- domain with a dot between them.
abbrev pub Spells : Text → Text × Text → Type 0
Spells domain zone = ((zone.0 ≡ domain) × (zone.1 ≡ codes "@")) ⊎ (zone.1 ++ b'.' ∷ zone.0 ≡ domain)

module _ {W : Type 0} (client : Client W) (keys : Text × Text) where
  round :
      (parts : List Text) (i : ℕ)
      → i < length parts
      → Spells (join_with b'.' parts) (candidate client keys parts i, rr_of client keys parts i)
  round parts zero h = inl (refl, refl)
  round parts (suc i) h = inr (join_with-cut b'.' (suc i) parts (omega arith) h)

  abbrev asked : List Text → ℕ → W → Answer Body × W
  asked parts i w =
      call_api client keys (codes "DescribeDomainRecords")
        ((codes "DomainName", candidate client keys parts i) ∷ (codes "PageSize", codes "1") ∷ []) w

  try_zones-Spells :
      (parts : List Text) (n i : ℕ) (w : W) (zone : Text × Text)
      → i + n < length parts
      → (try_zones client keys parts n i w).0 ≡ good zone
      → Spells (join_with b'.' parts) zone
  unfolding try_zones
  try_zones-Spells parts zero i w zone h e = absurd (ground arith)
  try_zones-Spells parts (suc n) i w zone h e =
      let later = try_zones-Spells parts n (suc i) (asked parts i w).1 zone (omega arith) in
      elim (Answer-cases (asked parts i w).0) [
        | inr (body, a) ↦
            let same : good (candidate client keys parts i, rr_of client keys parts i) ≡ good zone =
              rw (try_zones, a) at e in
            let found : Path (Text × Text)
                (candidate client keys parts i, rr_of client keys parts i) zone =
              cc in
            rw (sym found) (round parts i (omega arith))
        | inl (x, a) ↦ elim (Bool-cases (is_no_zone client keys x)) [
          | inl t ↦ later (rw (try_zones, a, t) at e)
          | inr t ↦
              let stopped : Path (Answer (Text × Text)) (bad x) (good zone) =
                rw (try_zones, a, t) at e in
              absurd (cc)
        ]
      ]

  -- A zone that is found spells the domain, with the name of the record in front of it and a dot
  -- between them, or it is the domain itself and the record stands at its apex.
  pub resolve_domain_name-Spells :
      (domain : Text) (w : W) (zone : Text × Text)
      → (resolve_domain_name client keys domain w).0 ≡ good zone
      → Spells domain zone
  unfolding resolve_domain_name
  resolve_domain_name-Spells domain w zone e =
      let parts = split_on b'.' domain in
      let some_part = length-split_on b'.' domain in
      rw (sym (join_with-split_on b'.' domain))
        (try_zones-Spells parts (length parts - 1) 0 w zone (omega arith) e)
