-- ===== src/Sni/Cursor.antt =====
-- Reading from a known place of a buffer: what stands at `pos` and behind it.
use unver.Prelude.{
  ℕ, zero, suc, ◌+◌, ◌≤◌, ◌≡◌, refl, ap, some, List, [], ◌∷◌, ◌++◌, arith, le→leb, length,
  get_elem?, length-append, take, drop,
}
use unver.Scan.{go, at, slice}
use unver.Sni.{be16, read16}

pub record Cursor (buf : List ℕ) (pos : ℕ) (rest : List ℕ) : Type 0 where
  pub left : drop pos buf ≡ rest
  pub size : pos + length rest ≡ length buf

drop-suc :
    (pos : ℕ) (buf : List ℕ) (b : ℕ) (rest : List ℕ)
    → drop pos buf ≡ b ∷ rest
    → drop (suc pos) buf ≡ rest
drop-suc zero [] b rest e = cc
drop-suc zero (x ∷ buf) b rest e = cc
drop-suc (suc pos) [] b rest e = cc
drop-suc (suc pos) (x ∷ buf) b rest e = drop-suc pos buf b rest e

get_elem?-drop :
    (pos : ℕ) (buf : List ℕ) (b : ℕ) (rest : List ℕ)
    → drop pos buf ≡ b ∷ rest
    → get_elem? buf pos ≡ some b
get_elem?-drop zero [] b rest e = cc
get_elem?-drop zero (x ∷ buf) b rest e = cc
get_elem?-drop (suc pos) [] b rest e = cc
get_elem?-drop (suc pos) (x ∷ buf) b rest e = get_elem?-drop pos buf b rest e

take-append : (xs rest : List ℕ) → take (length xs) (xs ++ rest) ≡ xs
take-append [] rest = refl
take-append (x ∷ xs) rest = ap (λ ys. x ∷ ys) (take-append xs rest)

module _ {buf : List ℕ} where
  pub Cursor-next :
      {pos : ℕ} {b : ℕ} {rest : List ℕ} → Cursor buf pos (b ∷ rest) → Cursor buf (pos + 1) rest
  Cursor-next {pos} {b} {rest} c = record {
    left = let e : pos + 1 ≡ suc pos = omega arith in rw e (drop-suc pos buf b rest c.left);
    size = omega (arith, c.size);
  }

  pub Cursor-skip :
      (pos : ℕ) (xs rest : List ℕ) → Cursor buf pos (xs ++ rest) → Cursor buf (pos + length xs) rest
  Cursor-skip pos [] rest c = let e : pos + 0 ≡ pos = omega arith in rw e c
  Cursor-skip pos (x ∷ xs) rest c =
      let e : pos + suc (length xs) ≡ pos + 1 + length xs = omega arith in
      rw e (Cursor-skip (pos + 1) xs rest (Cursor-next c))

  pub at-Cursor : {pos : ℕ} {b : ℕ} {rest : List ℕ} → Cursor buf pos (b ∷ rest) → at buf pos ≡ go b
  at-Cursor {pos} {b} {rest} c = rw (get_elem?-drop pos buf b rest c.left)

  pub read16-Cursor :
      {pos hi lo : ℕ} {rest : List ℕ}
      → Cursor buf pos (hi ∷ lo ∷ rest)
      → read16 buf pos ≡ go (be16 hi lo)
  read16-Cursor c = rw (at-Cursor c, at-Cursor (Cursor-next c))

  pub slice-Cursor :
      (pos : ℕ) (xs rest : List ℕ) → Cursor buf pos (xs ++ rest) → slice buf pos (length xs) ≡ go xs
  slice-Cursor pos xs rest c =
      let inside : pos + length xs ≤ length buf = omega (arith, c.size, length-append xs rest) in
      rw (le→leb _ _ inside) (rw (c.left) (ap go (take-append xs rest)))
