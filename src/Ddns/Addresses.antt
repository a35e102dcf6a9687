-- ===== src/Ddns/Addresses.antt =====
-- The addresses that `fetch_ip` of backend/src/ddns/mod.rs and `detect_ip_with_source` of
-- backend/src/api/settings.rs find.
use unver.Prelude.{
  inl, inr, Bool, true, false, not, ◌||◌, ◌&&◌, ◌≡◌, refl, sym, List, [], ◌∷◌, map, Option, none,
  some, arith, Text, ℕ, is_empty, all, and-eq-true, Any, Bool-cases, leb, contains_char, ◌==◌,
  ==_iff,
}
use unver.Prelude.Trim.{trim}
use unver.Ddns.{is_ip_char, takes, fetch_ip, detect_ip_with_source}

-- The answer, trimmed, is the address.
abbrev pub Answers : Text → Option Text → Type 0
Answers ip none = ⊥
Answers ip (some body) = trim body ≡ ip

fetch_ip-takes :
    (b : Bool) (answers : List (Option Text)) (ip : Text)
    → fetch_ip b answers ≡ some ip
    → (takes b ip ≡ true) × Any (Answers ip) answers
unfolding fetch_ip
fetch_ip-takes b [] ip h = absurd (cc)
fetch_ip-takes b (none ∷ rest) ip h = let (t, a) = fetch_ip-takes b rest ip h in (t, inr a)
fetch_ip-takes b (some body ∷ rest) ip h =
    let later = fetch_ip-takes b rest ip in
    elim (Bool-cases (takes b (trim body))) [
      | inl e ↦
          let same : Path (Option Text) (some (trim body)) (some ip) = rw (fetch_ip, e) at h in
          let eq : trim body ≡ ip = cc in (rw (sym eq) e, inl eq)
      | inr e ↦ let (t, a) = later (rw (fetch_ip, e) at h) in (t, inr a)
    ]

all-contains :
    (ip : Text) (c : ℕ)
    → all is_ip_char ip ≡ true
    → is_ip_char c ≡ false
    → contains_char ip c ≡ false
all-contains [] c h k = refl
all-contains (x ∷ ip) c h k =
    let (hx, hs) = and-eq-true (is_ip_char x) (all is_ip_char ip) h in
    let rest = all-contains ip c hs k in
    elim (Bool-cases (x == c)) [
      | inl e ↦ let same : x ≡ c = (==_iff x c).0 e in absurd (cc)
      | inr e ↦ rw (contains_char, e) rest
    ]

-- An address that is found is one of the answers, trimmed, and holds no character but digits, dots and
-- colons: an IPv6 address with one of the letters a to f is never found, in whichever case.
pub fetch_ip-no_letters :
    (b : Bool) (answers : List (Option Text)) (ip : Text)
    → fetch_ip b answers ≡ some ip
    → Any (Answers ip) answers
      × ((c : ℕ)
          → (leb b'a' c && leb c b'f') || (leb b'A' c && leb c b'F') ≡ true
          → contains_char ip c ≡ false)
fetch_ip-no_letters b answers ip h =
    let (t, a) = fetch_ip-takes b answers ip h in
    let (n, r) =
      and-eq-true (not (is_empty ip) && all is_ip_char ip) (not b || contains_char ip b':') t in
    (
      a,
      λ c k.
          all-contains ip c (and-eq-true (not (is_empty ip)) (all is_ip_char ip) n).1
            (ground arith),
    )

-- The two copies of the loop find the same address.
pub fetch_ip-detect_ip_with_source :
    (b : Bool) (endpoints : List (Text × Option Text))
    → fetch_ip b (map (λ e. e.1) endpoints)
      ≡ elim (detect_ip_with_source b endpoints) [ none ↦ none | some found ↦ some found.0 ]
unfolding fetch_ip detect_ip_with_source
fetch_ip-detect_ip_with_source b [] = refl
fetch_ip-detect_ip_with_source b ((url, none) ∷ rest) = fetch_ip-detect_ip_with_source b rest
fetch_ip-detect_ip_with_source b ((url, some body) ∷ rest) =
    let later = fetch_ip-detect_ip_with_source b rest in
    elim (Bool-cases (takes b (trim body))) [
      | inl e ↦ rw (fetch_ip, detect_ip_with_source, e) refl
      | inr e ↦ rw (fetch_ip, detect_ip_with_source, e) later
    ]
