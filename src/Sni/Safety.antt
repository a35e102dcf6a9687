-- ===== src/Sni/Safety.antt =====
-- `extract_sni` of backend/src/proxy.rs ends on every input, without a panic.
use unver.Prelude.{
  ℕ, zero, suc, ◌+◌, ◌≤◌, ◌<◌, none, some, Option, List, Bool-cases, ◌==◌, inl, inr, length, arith,
  not, ltb, not-false, leb→le, ltb-false→le, leb-false→lt, le→leb, get_elem?-total,
}
use unver.Scan.{Parse, Finishes, went, quits, bail-Finishes, at-Finishes, slice-Finishes, ◌>>=◌}
use unver.Prelude.Utf8.{from_utf8}
use unver.Sni.{be24, read16, as_name, names, server_names, extensions, after_session, extract_sni}

module _ {ℓ} {B : Type ℓ} where
  read16-Finishes :
      (buf : List ℕ) (i : ℕ) (f : ℕ → Parse B)
      → i + 1 < length buf
      → ((n : ℕ) → Finishes (f n))
      → Finishes (read16 buf i >>= f)
  read16-Finishes buf i f inside h =
      let (hi, e) = get_elem?-total buf i (omega arith) in
      let (lo, e') = get_elem?-total buf (i + 1) inside in rw (e, e') (h _)

as_name-Finishes : (o : Option (List ℕ)) → Finishes (as_name o)
as_name-Finishes none = quits
as_name-Finishes (some name) = went name

-- The fuel of a loop is more than the bytes that are left.
names-Finishes :
    (fuel : ℕ) (buf : List ℕ) (pos list_end : ℕ)
    → pos ≤ list_end
    → list_end ≤ length buf
    → length buf < fuel + pos
    → Finishes (names fuel buf pos list_end)
unfolding names
names-Finishes zero buf pos list_end p h k = absurd (omega arith)
names-Finishes (suc fuel) buf pos list_end p h k = bail-Finishes _ _ λ more.
    let room : pos + 3 ≤ list_end = leb→le _ _ (not-false _ more) in
    at-Finishes buf pos _ (omega arith) λ name_type.
      read16-Finishes buf (pos + 1) _ (omega arith) λ name_len. bail-Finishes _ _ λ fits.
        let inside : pos + 3 + name_len ≤ list_end = ltb-false→le _ _ fits in
        elim (Bool-cases (name_type == 0)) [
          | inl e ↦ rw e (
              slice-Finishes buf (pos + 3) name_len _ (le→leb _ _ (omega arith))
                λ name. as_name-Finishes (from_utf8 name))
          | inr e ↦
              rw e (names-Finishes fuel buf (pos + 3 + name_len) list_end inside h (omega arith))
        ]

server_names-Finishes :
    (buf : List ℕ) (pos ext_end : ℕ)
    → ext_end ≤ length buf
    → Finishes (server_names buf pos ext_end)
unfolding server_names
server_names-Finishes buf pos ext_end h = bail-Finishes _ _ λ first.
    let room : pos + 2 ≤ ext_end = ltb-false→le _ _ first in
    read16-Finishes buf pos _ (omega arith) λ list_len. bail-Finishes _ _ λ fits.
      let inside : pos + 2 + list_len ≤ ext_end = ltb-false→le _ _ fits in
      names-Finishes (suc (length buf)) buf (pos + 2) (pos + 2 + list_len) (omega arith)
        (omega arith) (omega arith)

extensions-Finishes :
    (fuel : ℕ) (buf : List ℕ) (pos ext_end : ℕ)
    → pos ≤ ext_end
    → ext_end ≤ length buf
    → length buf < fuel + pos
    → Finishes (extensions fuel buf pos ext_end)
unfolding extensions
extensions-Finishes zero buf pos ext_end p h k = absurd (omega arith)
extensions-Finishes (suc fuel) buf pos ext_end p h k = bail-Finishes _ _ λ more.
    let room : pos + 4 ≤ ext_end = leb→le _ _ (not-false _ more) in
    read16-Finishes buf pos _ (omega arith) λ ext_type.
      read16-Finishes buf (pos + 2) _ (omega arith) λ ext_len. bail-Finishes _ _ λ fits.
        let inside : pos + 4 + ext_len ≤ ext_end = ltb-false→le _ _ fits in
        elim (Bool-cases (ext_type == 0)) [
          | inl e ↦ rw e (server_names-Finishes buf (pos + 4) ext_end h)
          | inr e ↦
              rw e (extensions-Finishes fuel buf (pos + 4 + ext_len) ext_end inside h (omega arith))
        ]

after_session-Finishes : (buf : List ℕ) (pos : ℕ) → Finishes (after_session buf pos)
unfolding after_session
after_session-Finishes buf pos = bail-Finishes _ _ λ suites.
    let room : pos + 2 ≤ length buf = ltb-false→le _ _ suites in
    read16-Finishes buf pos _ (omega arith) λ cs_len. bail-Finishes _ _ λ methods.
      let room' : pos + (2 + cs_len) + 1 ≤ length buf = ltb-false→le _ _ methods in
      at-Finishes buf (pos + (2 + cs_len)) _ (omega arith) λ cm_len. bail-Finishes _ _ λ header.
        let room'' : pos + (2 + cs_len) + (1 + cm_len) + 2 ≤ length buf = ltb-false→le _ _ header in
        read16-Finishes buf (pos + (2 + cs_len) + (1 + cm_len)) _ (omega arith) λ ext_total.
          bail-Finishes _ _ λ fits.
            let inside : pos + (2 + cs_len) + (1 + cm_len) + 2 + ext_total ≤ length buf =
              ltb-false→le _ _ fits in
            extensions-Finishes (suc (length buf)) buf _ _ (omega arith) inside (omega arith)

-- Whatever the bytes, `extract_sni` returns a name or `None`: no index or slice is out of bounds,
-- and the loops end.
pub extract_sni-Finishes : (buf : List ℕ) → Finishes (extract_sni buf)
unfolding extract_sni
extract_sni-Finishes buf = bail-Finishes _ _ λ long.
    let room : 43 ≤ length buf = ltb-false→le _ _ long in
    at-Finishes buf 0 _ (omega arith) λ content. bail-Finishes (not (content == 0x16)) _ λ _.
      read16-Finishes buf 3 _ (omega arith) λ record_len.
        bail-Finishes (ltb (length buf) (record_len + 5)) _ λ _.
          at-Finishes buf 5 _ (omega arith) λ handshake.
            bail-Finishes (not (handshake == 0x01)) _ λ _. at-Finishes buf 6 _ (omega arith) λ a.
              at-Finishes buf 7 _ (omega arith) λ b. at-Finishes buf 8 _ (omega arith) λ c.
                bail-Finishes (ltb (length buf) (be24 a b c + 9)) _ λ _. bail-Finishes _ _ λ more.
                  at-Finishes buf 43 _ (leb-false→lt _ _ more)
                    λ sid_len. after_session-Finishes buf _
