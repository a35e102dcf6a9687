-- ===== src/Dns/Aliyun/Encoding.antt =====
-- The signed query of backend/src/ddns/providers/aliyun.rs, read back.
use mathlib.Core.Path.{ap₂}
use unver.Prelude.{
  ℕ, ◌+◌, ◌*◌, ◌/◌, ◌%◌, ◌<◌, ◌-◌, inl, inr, true, false, List, [], ◌∷◌, ◌++◌, map, ◌≡◌, refl, ap,
  sym, ◌∙◌, arith, ◌==◌, ==_iff, codes, Text, ltb, All, split_on, Bool-cases, if◌then◌else◌,
}
use unver.Prelude.Join.{
  Free, append-Free, join_with, split_on_part, split_on_whole, split_on-join_with,
}
use unver.Dns.Aliyun.{
  common_params, sign, build_request, is_unreserved, hex_digit, percent_encode, Params, pair,
}

abbrev hex_value : ℕ → ℕ
hex_value c = if ltb c 58 then c - 48 else c - 55

-- Percent-decoding as RFC 3986 has it, for what is well formed.
unfoldable pub percent_decode : Text → Text
percent_decode [] = []
percent_decode (c ∷ []) = c ∷ []
percent_decode (c ∷ a ∷ []) = c ∷ a ∷ []
percent_decode (c ∷ a ∷ b ∷ s) =
    let plain = percent_decode (a ∷ b ∷ s) in
    let decoded = percent_decode s in
    if c == b'%' then (hex_value a * 16 + hex_value b) ∷ decoded else c ∷ plain

abbrev pub IsBytes : Text → Type 0
IsBytes = All (λ b. b < 256)

hex_value-hex_digit : (d : ℕ) → d < 16 → hex_value (hex_digit d) ≡ d
hex_value-hex_digit d h = ground arith

plain_decode :
    (c : ℕ) (s : Text) → (c == b'%') ≡ false → percent_decode (c ∷ s) ≡ c ∷ percent_decode s
unfolding percent_decode
plain_decode c [] h = refl
plain_decode c (a ∷ []) h = refl
plain_decode c (a ∷ b ∷ s) h = rw h refl

escape_decode :
    (c : ℕ) (s : Text)
    → c < 256
    → percent_decode (b'%' ∷ hex_digit (c / 16) ∷ hex_digit (c % 16) ∷ s) ≡ c ∷ percent_decode s
unfolding percent_decode
escape_decode c s h =
    ap (λ a. a ∷ percent_decode s)
      (rw (hex_value-hex_digit (c / 16) (omega arith), hex_value-hex_digit (c % 16) (omega arith))
        (omega arith))

unreserved_percent : (c : ℕ) → is_unreserved c ≡ true → (c == b'%') ≡ false
unreserved_percent c h = ground arith

pub percent_decode-percent_encode : (s : Text) → IsBytes s → percent_decode (percent_encode s) ≡ s
unfolding percent_encode
percent_decode-percent_encode [] h = unfold percent_decode in refl
percent_decode-percent_encode (c ∷ s) (h, hs) =
    let rest = percent_decode-percent_encode s hs in
    elim (Bool-cases (is_unreserved c)) [
      | inl e ↦
          rw e (plain_decode c (percent_encode s) (unreserved_percent c e) ∙ ap (λ t. c ∷ t) rest)
      | inr e ↦ rw e (escape_decode c (percent_encode s) h ∙ ap (λ t. c ∷ t) rest)
    ]

-- A character that no encoding holds.
abbrev Reserved : ℕ → Type 0
Reserved c = (is_unreserved c ≡ false) × ((b'%' == c) ≡ false)

unreserved-ne : (c x : ℕ) → Reserved c → is_unreserved x ≡ true → (x == c) ≡ false
unreserved-ne c x r h = elim (Bool-cases (x == c)) [
  | inl e ↦ let same : x ≡ c = (==_iff x c).0 e in absurd (cc)
  | inr e ↦ e
]

hex_digit-unreserved : (d : ℕ) → d < 16 → is_unreserved (hex_digit d) ≡ true
hex_digit-unreserved d h = ground arith

percent_encode-Free : (c : ℕ) (s : Text) → Reserved c → IsBytes s → Free c (percent_encode s)
unfolding percent_encode
percent_encode-Free c [] r h = tt
percent_encode-Free c (x ∷ s) r (h, hs) =
    let rest = percent_encode-Free c s r hs in
    elim (Bool-cases (is_unreserved x)) [
      | inl e ↦ rw (percent_encode, e, Free) (unreserved-ne c x r e, rest)
      | inr e ↦
          rw (percent_encode, e, Free)
            (
              r.1,
              (
                unreserved-ne c _ r (hex_digit-unreserved (x / 16) (omega arith)),
                (unreserved-ne c _ r (hex_digit-unreserved (x % 16) (omega arith)), rest),
              ),
            )
    ]

-- The reader of a query: pairs between `&`, each of two texts between `=`.
abbrev parse_pair : List Text → Text × Text
parse_pair (k ∷ v ∷ []) = (percent_decode k, percent_decode v)
parse_pair _ = ([], [])

unfoldable pub parse_query : Text → Params
parse_query q = map (λ p. parse_pair (split_on b'=' p)) (split_on b'&' q)

abbrev pub IsPair : Text × Text → Type 0
IsPair p = IsBytes p.0 × IsBytes p.1

parse_pair-pair : (p : Text × Text) → IsPair p → parse_pair (split_on b'=' (pair p)) ≡ p
parse_pair-pair p (hk, hv) =
    ap parse_pair (
      split_on_part b'=' (percent_encode p.0) (percent_encode p.1)
        (percent_encode-Free b'=' p.0 (refl, refl) hk)
      ∙ ap (λ r. percent_encode p.0 ∷ r)
          (split_on_whole b'=' (percent_encode p.1) (percent_encode-Free b'=' p.1 (refl, refl) hv)))
    ∙ ap₂ (λ a b. (a, b)) (percent_decode-percent_encode p.0 hk)
        (percent_decode-percent_encode p.1 hv)

pairs-Free : (ps : Params) → All IsPair ps → All (Free b'&') (map pair ps)
pairs-Free [] h = tt
pairs-Free (p ∷ ps) ((hk, hv), hs) = (
  append-Free b'&' (percent_encode p.0) (b'=' ∷ percent_encode p.1)
      (percent_encode-Free b'&' p.0 (refl, refl) hk)
      (refl, percent_encode-Free b'&' p.1 (refl, refl) hv),
  pairs-Free ps hs,
)

parse_pairs :
    (ps : Params) → All IsPair ps → map (λ p. parse_pair (split_on b'=' p)) (map pair ps) ≡ ps
parse_pairs [] h = refl
parse_pairs (p ∷ ps) (h, hs) = ap₂ (λ a b. a ∷ b) (parse_pair-pair p h) (parse_pairs ps hs)

-- A query that the provider writes for parameters, of which there is one at least, is read back as those
-- parameters in their order, whatever bytes the names and values hold.
pub parse_query-pairs :
    (p : Text × Text) (ps : Params)
    → All IsPair (p ∷ ps)
    → parse_query (join_with b'&' (map pair (p ∷ ps))) ≡ p ∷ ps
unfolding parse_query
parse_query-pairs p ps h =
    ap (map (λ p. parse_pair (split_on b'=' p)))
      (split_on-join_with b'&' (pair p) (map pair ps) (pairs-Free (p ∷ ps) h))
    ∙ parse_pairs (p ∷ ps) h

map-append : (ps qs : Params) → map pair (ps ++ qs) ≡ map pair ps ++ map pair qs
map-append [] qs = refl
map-append (p ∷ ps) qs = ap (λ r. pair p ∷ r) (map-append ps qs)

signature_pair :
    (signature : Text)
    → pair (codes "Signature", signature) ≡ codes "Signature=" ++ percent_encode signature
unfolding percent_encode
signature_pair signature = refl

-- The query of a request is read back as the parameters that are common to all requests, those of the
-- action, and last the signature, which is the one of the other parameters under the secret.
pub build_request-query :
    (hmac_base64 : Text → Text → Text) (action : Text) (params : Params) (id secret : Text)
    (timestamp nonce : Text)
    → let sent = common_params hmac_base64 action id timestamp nonce ++ params in
      let signed = sent ++ (codes "Signature", sign hmac_base64 (codes "GET") sent secret) ∷ [] in
      All IsPair signed
      → (query : Text) × (build_request hmac_base64 action params id secret timestamp nonce
          ≡ codes "https://alidns.aliyuncs.com?" ++ query)
        × (parse_query query ≡ signed)
unfolding build_request
build_request-query hmac_base64 action params id secret timestamp nonce h =
    let sent = common_params hmac_base64 action id timestamp nonce ++ params in
    let last : Text × Text = (codes "Signature", sign hmac_base64 (codes "GET") sent secret) in
    (
      join_with b'&' (map pair (sent ++ last ∷ [])),
      ap (λ ps. codes "https://alidns.aliyuncs.com?" ++ join_with b'&' ps)
          (sym (
            map-append sent (last ∷ [])
            ∙ ap (λ t. map pair sent ++ t ∷ []) (signature_pair last.1))),
      parse_query-pairs _ _ h,
    )
