-- ===== src/Sni.antt =====
-- `extract_sni` of backend/src/proxy.rs: the server name in the raw bytes of a TLS ClientHello.
-- An index or a slice out of bounds is a panic in Rust, and a value of its own here.
mod Cursor
pub mod Hello
pub mod Safety
pub mod RoundTrip
use unver.Prelude.{
  ℕ, zero, suc, ◌+◌, ◌*◌, Bool, true, false, not, Option, none, some, List, Text, ltb, leb, ◌==◌,
  if◌then◌else◌, length,
}
use unver.Prelude.Utf8.{from_utf8}
use unver.Scan.{Parse, go, quit, out_of_fuel, ◌>>=◌, ◌>>◌, bail, at, slice}

-- `u16::from_be_bytes`
abbrev pub be16 : ℕ → ℕ → ℕ
be16 hi lo = hi * 256 + lo

-- The shifts and ors of three bytes.
abbrev pub be24 : ℕ → ℕ → ℕ → ℕ
be24 a b c = a * 65536 + b * 256 + c

abbrev read16 : List ℕ → ℕ → Parse ℕ
read16 buf i = do hi ← at buf i; lo ← at buf (i + 1); go (be16 hi lo)

abbrev as_name : Option Text → Parse Text
as_name none = quit
as_name (some name) = go name

-- The inner loop, over the names of the SNI extension.
pub names : ℕ → List ℕ → ℕ → ℕ → Parse Text
names zero buf pos list_end = out_of_fuel
names (suc fuel) buf pos list_end =
    let rest = λ (p : ℕ). names fuel buf p list_end in
    do
      bail (not (leb (pos + 3) list_end))
      name_type ← at buf pos
      name_len ← read16 buf (pos + 1)
      bail (ltb list_end (pos + 3 + name_len))
      elim (name_type == 0) [
        | true ↦ do name ← slice buf (pos + 3) name_len; as_name (from_utf8 name)
        | false ↦ rest (pos + 3 + name_len)
      ]

-- The body of an extension of type 0.
pub server_names : List ℕ → ℕ → ℕ → Parse Text
server_names buf pos ext_end = do
  bail (ltb ext_end (pos + 2))
  list_len ← read16 buf pos
  bail (ltb ext_end (pos + 2 + list_len))
  names (suc (length buf)) buf (pos + 2) (pos + 2 + list_len)

-- The outer loop, over the extensions.
pub extensions : ℕ → List ℕ → ℕ → ℕ → Parse Text
extensions zero buf pos ext_end = out_of_fuel
extensions (suc fuel) buf pos ext_end =
    let rest = λ (p : ℕ). extensions fuel buf p ext_end in
    do
      bail (not (leb (pos + 4) ext_end))
      ext_type ← read16 buf pos
      ext_len ← read16 buf (pos + 2)
      bail (ltb ext_end (pos + 4 + ext_len))
      elim (ext_type == 0) [
        | true ↦ server_names buf (pos + 4) ext_end
        | false ↦ rest (pos + 4 + ext_len)
      ]

-- The cipher suites, the compression methods and the extensions, from the position behind the
-- session id on.
pub after_session : List ℕ → ℕ → Parse Text
after_session buf pos = do
  bail (ltb (length buf) (pos + 2))
  cs_len ← read16 buf pos
  let pos_cm = pos + (2 + cs_len)
  bail (ltb (length buf) (pos_cm + 1))
  cm_len ← at buf pos_cm
  let pos_ext = pos_cm + (1 + cm_len)
  bail (ltb (length buf) (pos_ext + 2))
  ext_total ← read16 buf pos_ext
  bail (ltb (length buf) (pos_ext + 2 + ext_total))
  extensions (suc (length buf)) buf (pos_ext + 2) (pos_ext + 2 + ext_total)

-- `quit` is the `None` of the source.
unfoldable pub extract_sni : List ℕ → Parse Text
unfolding names server_names extensions after_session from_utf8
extract_sni buf = do
  bail (ltb (length buf) 43)
  content ← at buf 0
  bail (not (content == 0x16))
  record_len ← read16 buf 3
  bail (ltb (length buf) (record_len + 5))
  handshake ← at buf 5
  bail (not (handshake == 0x01))
  a ← at buf 6
  b ← at buf 7
  c ← at buf 8
  bail (ltb (length buf) (be24 a b c + 9))
  bail (leb (length buf) 43)
  sid_len ← at buf 43
  after_session buf (43 + (1 + sid_len))
