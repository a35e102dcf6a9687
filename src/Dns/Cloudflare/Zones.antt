-- ===== src/Dns/Cloudflare/Zones.antt =====
-- The zones that backend/src/ddns/providers/cloudflare.rs asks for.
use mathlib.Core.List.{append-nil}
use unver.Prelude.{
  sym, le→leb, lt→leb-false, take, drop, ◌*◌, length-take, ℕ, zero, suc, ◌+◌, ◌≤◌, ◌<◌, inl, inr,
  Bool, true, some, List, [], ◌∷◌, ◌++◌, ◌≡◌, refl, ap, ◌∙◌, arith, Text, codes, leb, leb→le,
  leb-false→lt, length, Bool-cases,
}
use unver.Prelude.Int.{pos}
use unver.Prelude.Join.{Free, split_on_part, split_on_whole}
use unver.Dns.{Answer, good, bad}
use unver.Dns.Cloudflare.{Zone, Body, answered, Api}
use unver.Dns.Cloudflare.Challenges.{
  list_pages, list_zones, find_acme_zone, acme_zone, create_acme_txt,
}

-- The page of fifty zones, from the first page on, as Cloudflare documents it: beyond the last zone it is
-- empty, and each page gives the number of all zones.
abbrev pub page_of : List Zone → ℕ → Body (List Zone)
page_of zones page = record {
  success = true;
  result = some (take 50 (drop (50 * page) zones));
  total_count = pos (length zones);
}

abbrev pub Serves : {W : Type 0} → Api W → List Zone → Type 0
Serves api zones =
    (page : ℕ) (w : _) → (api.zones_page (suc page) w).0 ≡ answered true (some (page_of zones page))

take_nil : (k : ℕ) → take {A = Zone} k [] ≡ []
take_nil zero = refl
take_nil (suc k) = refl

zero_add : (m : ℕ) → m ≡ 0 + m
zero_add m = omega arith

suc_add : (n m : ℕ) → suc (n + m) ≡ suc n + m
suc_add n m = omega arith

take-next :
    (n m : ℕ) (zones : List Zone) → take n zones ++ take m (drop n zones) ≡ take (n + m) zones
take-next zero m zones = ap (λ k. take k zones) (zero_add m)
take-next (suc n) m [] = take_nil m ∙ sym (take_nil (suc n + m))
take-next (suc n) m (z ∷ zones) =
    ap (λ zs. z ∷ zs) (take-next n m zones) ∙ ap (λ k. take k (z ∷ zones)) (suc_add n m)

take_all : (n : ℕ) (zones : List Zone) → length zones ≤ n → take n zones ≡ zones
take_all zero [] h = refl
take_all zero (z ∷ zones) h = absurd (omega arith)
take_all (suc n) [] h = refl
take_all (suc n) (z ∷ zones) h = ap (λ zs. z ∷ zs) (take_all n zones (omega arith))

page_end : (page : ℕ) → 50 * page + 50 ≡ 50 * suc page
page_end page = omega arith

module _ {W : Type 0} (api : Api W) (zones : List Zone) (serves : Serves api zones) where
  -- After the pages that were asked for, their zones are known.
  list_pages-lists :
      (fuel page : ℕ) (w : W)
      → 0 < fuel
      → length zones < 50 * (page + fuel)
      → (list_pages api fuel (suc page) (take (50 * page) zones) w).0 ≡ some (good zones)
  unfolding list_pages
  list_pages-lists zero page w h k = absurd (omega arith)
  list_pages-lists (suc fuel) page w h k =
      let later = list_pages-lists fuel (suc page) (api.zones_page (suc page) w).1 in
      let next : take (50 * page) zones ++ take 50 (drop (50 * page) zones)
          ≡ take (50 * suc page) zones =
        take-next (50 * page) 50 zones ∙ ap (λ k. take k zones) (page_end page) in
      let total = length-take (50 * suc page) zones in
      elim (Bool-cases (leb (length zones) (50 * suc page))) [
        | inl y ↦
            let all = take_all (50 * suc page) zones (leb→le (length zones) (50 * suc page) y) in
            let known = le→leb (length zones) (length zones) (omega arith) in
            rw (list_pages, serves page w, next, all, known)
              (ap (λ zs. some (good zs)) (next ∙ all))
        | inr n ↦
            let l = leb-false→lt (length zones) (50 * suc page) n in
            let more =
              lt→leb-false (length zones) (length (take (50 * suc page) zones))
                (omega (arith, total)) in
            rw (list_pages, serves page w, next, more)
              (ap
                  (λ zs.
                    (list_pages api fuel (suc (suc page)) zs (api.zones_page (suc page) w).1).0)
                  next
                ∙ later (omega arith) (omega arith))
      ]

  -- The loop over the pages ends, and returns all zones of the account, if the API answers as documented:
  -- with pages of fifty, empty ones beyond the last zone, and the number of all zones. One more request
  -- than there are zones is enough.
  pub list_zones-lists : (w : W) → (list_zones api (suc (length zones)) w).0 ≡ some (good zones)
  unfolding list_zones
  list_zones-lists w = list_pages-lists (suc (length zones)) 0 w (omega arith) (omega arith)

no_suffix :
    {W : Type 0} (api : Api W) (label top : Text) (w : W) (status : Bool) (body : Body (List Zone))
    → (api.zones_named top w).0 ≡ answered status (some body)
    → body.result ≡ some []
    → find_acme_zone api (label ∷ top ∷ []) 1 1 w ≡ (good [], (api.zones_named top w).1)
unfolding find_acme_zone
no_suffix {W = W} api label top w status body r e = elim (Bool-cases body.success) [
  | inl b ↦ rw (find_acme_zone, append-nil top, r, b, e) asked
  | inr b ↦ rw (find_acme_zone, append-nil top, r, b) asked
]
  where
    asked :
        Path
          (Answer Text × W)
          (good [], (api.zones_named (top ++ []) w).1)
          (good [], (api.zones_named top w).1)
    asked = ap (λ t. (good [], (api.zones_named t w).1)) (append-nil top)

-- A TXT record for a domain of two labels is refused where the API knows no zone of the name of the last
-- label: the domain itself is not asked for, whether there is a zone of that name or not.
pub create_acme_txt-two_labels :
    {W : Type 0} (api : Api W) (label top value : Text) (w : W) (status : Bool)
    (body : Body (List Zone))
    → Free b'.' label
    → Free b'.' top
    → (api.zones_named top w).0 ≡ answered status (some body)
    → body.result ≡ some []
    → create_acme_txt api (label ++ b'.' ∷ top) value w
      ≡ (bad (codes "no zone"), (api.zones_named top w).1)
unfolding create_acme_txt acme_zone
create_acme_txt-two_labels api label top value w status body f g r e =
    let parts =
      split_on_part b'.' label top f ∙ ap (λ ps. label ∷ ps) (split_on_whole b'.' top g) in
    rw (parts, no_suffix api label top w status body r e) refl
