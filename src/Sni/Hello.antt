-- ===== src/Sni/Hello.antt =====
-- The bytes of a TLS ClientHello record (RFC 8446, section 4.1.2, with the server name of RFC 6066),
-- written independently of the parser.
use unver.Prelude.{ℕ, ◌+◌, ◌/◌, ◌%◌, ◌<◌, ◌≡◌, ◌≢◌, List, [], ◌∷◌, ◌++◌, Text, length, All}

abbrev pub encode16 : ℕ → List ℕ → List ℕ
encode16 n rest = (n / 256) ∷ (n % 256) ∷ rest

pub record Extension : Type 0 where
  pub kind : ℕ
  pub body : List ℕ

-- An extension that is not the server name.
abbrev pub IsOther : Extension → Type 0
IsOther e = (e.kind < 65536) × (e.kind ≢ 0) × (length e.body < 65536)

abbrev pub encode_all : List Extension → List ℕ → List ℕ
encode_all [] rest = rest
encode_all (e ∷ es) rest = encode16 e.kind (encode16 (length e.body) (e.body ++ encode_all es rest))

-- The extension of type 0 with one host name.
abbrev pub encode_name : Text → List ℕ → List ℕ
encode_name name rest = encode16 0 (
    encode16 (length name + 5)
      (encode16 (length name + 3) (0 ∷ encode16 (length name) (name ++ rest))))

pub record Hello : Type 0 where
  pub version : ℕ
  pub random : List ℕ
  pub session : List ℕ
  pub suites : List ℕ
  pub methods : List ℕ
  pub before : List Extension
  pub name : Text
  pub after : List ℕ

abbrev pub extension_bytes : Hello → List ℕ
extension_bytes h = encode_all h.before (encode_name h.name h.after)

-- What follows the session id's length.
abbrev pub tail_bytes : Hello → List ℕ
tail_bytes h =
    h.session
    ++ encode16 (length h.suites) (
        h.suites
        ++ length h.methods
          ∷ (h.methods ++ encode16 (length (extension_bytes h)) (extension_bytes h)))

-- `random` holds the legacy version and the 32 random bytes.
abbrev pub handshake_length : Hello → ℕ
handshake_length h = 35 + length (tail_bytes h)

abbrev pub encode : Hello → List ℕ
encode h =
    let n = handshake_length h in
    0x16
    ∷ 3
    ∷ h.version
    ∷ encode16 (n + 4) (
        0x01
        ∷ (n / 65536)
        ∷ (n / 256 % 256)
        ∷ (n % 256)
        ∷ (h.random ++ length h.session ∷ tail_bytes h))

pub record IsHello (h : Hello) : Type 0 where
  pub random_size : length h.random ≡ 34
  pub session_size : length h.session < 256
  pub methods_size : length h.methods < 256
  pub record_size : handshake_length h + 4 < 65536
  pub others : All IsOther h.before
