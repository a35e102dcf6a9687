-- ===== src/Sni/RoundTrip.antt =====
-- `extract_sni` of backend/src/proxy.rs finds the name in the bytes of a ClientHello.
use unver.Prelude.{
  ℕ, zero, suc, ◌+◌, ◌/◌, ◌%◌, ◌≤◌, ◌≡◌, refl, ap, ◌∙◌, List, [], ◌∷◌, ◌++◌, arith, length,
  length-append, le→leb, le→ltb-false, lt→leb-false, ==-false_of_ne, All,
}
use unver.Prelude.Utf8.{from_utf8, IsAscii, from_utf8_of_ascii}
use unver.Scan.{go}
use unver.Sni.{
  be16, be24, read16, as_name, names, server_names, extensions, after_session, extract_sni,
}
use unver.Sni.Cursor.{Cursor, Cursor-next, Cursor-skip, at-Cursor, read16-Cursor, slice-Cursor}
use unver.Sni.Hello.{
  encode16, Extension, IsOther, encode_all, encode_name, Hello, extension_bytes, tail_bytes,
  handshake_length, encode, IsHello,
}

be16-encode16 : (n : ℕ) → be16 (n / 256) (n % 256) ≡ n
be16-encode16 n = omega arith

be24-encode24 : (n : ℕ) → be24 (n / 65536) (n / 256 % 256) (n % 256) ≡ n
be24-encode24 n = omega arith

module _ {buf : List ℕ} where
  read16-encode :
      (pos n : ℕ) (rest : List ℕ) → Cursor buf pos (encode16 n rest) → read16 buf pos ≡ go n
  read16-encode pos n rest c = read16-Cursor c ∙ ap go (be16-encode16 n)

  names-encode :
      (fuel pos list_end : ℕ) (name rest : List ℕ)
      → Cursor buf pos (0 ∷ encode16 (length name) (name ++ rest))
      → pos + 3 + length name ≤ list_end
      → names (suc fuel) buf pos list_end ≡ as_name (from_utf8 name)
  unfolding names
  names-encode fuel pos list_end name rest c fits =
      let c1 = Cursor-next c in
      let c3 = Cursor-skip pos (0 ∷ encode16 (length name) []) (name ++ rest) c in
      rw (
        le→leb (pos + 3) list_end (omega arith),
        at-Cursor c,
        read16-encode _ _ _ c1,
        le→ltb-false _ _ fits,
        slice-Cursor _ _ _ c3,
      )

  server_names-encode :
      (pos ext_end : ℕ) (name rest : List ℕ)
      → Cursor buf pos (encode16 (length name + 3) (0 ∷ encode16 (length name) (name ++ rest)))
      → pos + 5 + length name ≤ ext_end
      → server_names buf pos ext_end ≡ as_name (from_utf8 name)
  unfolding server_names
  server_names-encode pos ext_end name rest c fits =
      let c2 = Cursor-skip pos (encode16 (length name + 3) []) _ c in
      rw
        (
          le→ltb-false ext_end (pos + 2) (omega arith),
          read16-encode _ _ _ c,
          le→ltb-false ext_end (pos + 2 + (length name + 3)) (omega arith),
        )
        (names-encode (length buf) (pos + 2) (pos + 2 + (length name + 3)) name rest c2
          (omega arith))

  -- The extensions in front are skipped, one round each.
  extensions-encode :
      (es : List Extension) (fuel pos ext_end : ℕ) (name rest : List ℕ)
      → Cursor buf pos (encode_all es (encode_name name rest))
      → All IsOther es
      → length es ≤ fuel
      → pos + length (encode_all es (encode_name name rest)) ≡ ext_end
      → extensions (suc fuel) buf pos ext_end ≡ as_name (from_utf8 name)
  unfolding extensions
  extensions-encode [] fuel pos ext_end name rest c others enough size =
      let c2 = Cursor-skip pos (encode16 0 []) _ c in
      let c4 = Cursor-skip pos (encode16 0 (encode16 (length name + 5) [])) _ c in
      let n = length-append name rest in
      rw
        (
          le→leb (pos + 4) ext_end (omega arith),
          read16-encode pos 0 _ c,
          read16-encode (pos + 2) (length name + 5) _ c2,
          le→ltb-false ext_end (pos + 4 + (length name + 5)) (omega arith),
        )
        (server_names-encode (pos + 4) ext_end name rest c4 (omega arith))
  extensions-encode (e ∷ es) zero pos ext_end name rest c others enough size = absurd (omega arith)
  extensions-encode (e ∷ es) (suc fuel) pos ext_end name rest c ((_, other, _), others) enough
        size =
      let more = encode_all es (encode_name name rest) in
      let c2 = Cursor-skip pos (encode16 e.kind []) _ c in
      let c4 = Cursor-skip pos (encode16 e.kind (encode16 (length e.body) [])) _ c in
      let c' = Cursor-skip (pos + 4) e.body _ c4 in
      let n = length-append e.body more in
      rw
        (
          le→leb (pos + 4) ext_end (omega arith),
          read16-encode _ _ _ c,
          read16-encode _ _ _ c2,
          le→ltb-false ext_end (pos + 4 + length e.body) (omega arith),
          ==-false_of_ne e.kind 0 other,
        )
        (extensions-encode es fuel (pos + 4 + length e.body) ext_end name rest c' others
          (omega arith) (omega arith))

length-encode_all : (es : List Extension) (rest : List ℕ) → length es ≤ length (encode_all es rest)
length-encode_all [] rest = omega arith
length-encode_all (e ∷ es) rest =
    omega (arith, length-encode_all es rest, length-append e.body (encode_all es rest))

after_session-encode :
    (h : Hello) (buf : List ℕ) (pos : ℕ)
    → Cursor buf pos (
        encode16 (length h.suites) (
          h.suites
          ++ length h.methods
            ∷ (h.methods ++ encode16 (length (extension_bytes h)) (extension_bytes h))))
    → All IsOther h.before
    → after_session buf pos ≡ as_name (from_utf8 h.name)
unfolding after_session
after_session-encode h buf pos c others =
    let c2 = Cursor-skip pos (encode16 (length h.suites) []) _ c in
    let cm = Cursor-skip (pos + 2) h.suites _ c2 in
    let cm1 = Cursor-next cm in
    let ce = Cursor-skip (pos + 2 + length h.suites + 1) h.methods _ cm1 in
    let ce2 =
      Cursor-skip (pos + 2 + length h.suites + 1 + length h.methods)
        (encode16 (length (extension_bytes h)) []) _ ce in
    let bytes = extension_bytes h in
    let p = pos + 2 + length h.suites in
    let q = p + 1 + length h.methods in
    let e1 : pos + (2 + length h.suites) ≡ p = omega arith in
    let e2 : p + (1 + length h.methods) ≡ q = omega arith in
    rw
      (
        le→ltb-false (length buf) (pos + 2) (omega (arith, c.size)),
        read16-encode _ _ _ c,
        e1,
        le→ltb-false (length buf) (p + 1) (omega (arith, cm.size)),
        at-Cursor cm,
        e2,
        le→ltb-false (length buf) (q + 2) (omega (arith, ce.size)),
        read16-encode _ _ _ ce,
        le→ltb-false (length buf) (q + 2 + length bytes) (omega (arith, ce2.size)),
      )
      (extensions-encode h.before (length buf) (q + 2) (q + 2 + length bytes) h.name h.after ce2
        others (omega (arith, ce2.size, length-encode_all h.before (encode_name h.name h.after)))
        refl)

extract_sni-encode_bytes :
    (h : Hello) → IsHello h → extract_sni (encode h) ≡ as_name (from_utf8 h.name)
unfolding extract_sni
extract_sni-encode_bytes h v =
    let buf = encode h in
    let n = handshake_length h in
    let m = length-append h.random (length h.session ∷ tail_bytes h) in
    let c : Cursor buf 9 (h.random ++ length h.session ∷ tail_bytes h) = record {
      left = refl;
      size = omega arith;
    } in
    let e : 9 + length h.random ≡ 43 = omega (arith, v.random_size) in
    let cs : Cursor buf 43 (length h.session ∷ tail_bytes h) =
      rw e at (Cursor-skip 9 h.random _ c) in
    let ct = Cursor-skip 44 h.session _ (Cursor-next cs) in
    let e3 : 43 + (1 + length h.session) ≡ 44 + length h.session = omega arith in
    rw
      (
        le→ltb-false (length buf) 43 (omega (arith, v.random_size)),
        be16-encode16 (n + 4),
        le→ltb-false (length buf) (n + 4 + 5) (omega (arith, v.random_size)),
        be24-encode24 n,
        le→ltb-false (length buf) (n + 9) (omega (arith, v.random_size)),
        lt→leb-false (length buf) 43 (omega (arith, v.random_size)),
        at-Cursor cs,
      )
      (after_session-encode h buf (43 + (1 + length h.session)) (rw e3 ct) v.others)

-- In every well-formed ClientHello with an ASCII server name that name is found, whatever the
-- session id, the cipher suites, the compression methods, the other extensions in front of the
-- name and the bytes behind it.
pub extract_sni-encode :
    (h : Hello) → IsHello h → IsAscii h.name → extract_sni (encode h) ≡ go h.name
extract_sni-encode h v a = extract_sni-encode_bytes h v ∙ ap as_name (from_utf8_of_ascii h.name a)
