-- ===== src/Tests/Sni.antt =====
-- Runs of `extract_sni`.
use unver.Prelude.{◌≡◌, refl, [], ◌∷◌, codes, replicate, arith}
use unver.Scan.{go, quit, Finishes}
use unver.Sni.{extract_sni}
use unver.Sni.Hello.{Hello, encode, IsHello}
use unver.Sni.Safety.{extract_sni-Finishes}
use unver.Sni.RoundTrip.{extract_sni-encode}

-- A hello with a session id, two extensions in front of the name, and one behind it.
abbrev hello : Hello
hello = record {
  version = 1;
  random = replicate 34 7;
  session = 1 ∷ 2 ∷ [];
  suites = 19 ∷ 1 ∷ 19 ∷ 2 ∷ [];
  methods = 0 ∷ [];
  before = record { kind = 10; body = 0 ∷ 2 ∷ 0 ∷ 29 ∷ [] } ∷ record { kind = 16; body = [] } ∷ [];
  name = codes "a.io";
  after = 0 ∷ 23 ∷ 0 ∷ 0 ∷ [];
}

hello-IsHello : IsHello hello
hello-IsHello = omega arith

finds_name : extract_sni (encode hello) ≡ go (codes "a.io")
unfolding extract_sni
finds_name = refl

too_short : extract_sni (0x16 ∷ 3 ∷ 1 ∷ []) ≡ quit
unfolding extract_sni
too_short = refl

extract_sni-Finishes_example : Finishes (extract_sni (encode hello))
extract_sni-Finishes_example = extract_sni-Finishes (encode hello)

extract_sni-encode_example : extract_sni (encode hello) ≡ go (codes "a.io")
extract_sni-encode_example = extract_sni-encode hello hello-IsHello (omega arith)
