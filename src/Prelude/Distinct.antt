-- ===== src/Prelude/Distinct.antt =====
-- Lists whose elements have different keys.
use mathlib.Core.Path.{◌≡◌}
use mathlib.Core.Bool.{Bool, false}
use mathlib.Core.Logic.{inl, inr}
use mathlib.Core.List.{List, [], ◌∷◌, ◌++◌}
use native.Mathlib.Omega.{arith}
use unver.Prelude.Tests.{Bool-cases, is_some}
use unver.Prelude.Lists.{find_first, retain, All, All-append, retain-All}
use unver.Prelude.Bytes.{Text, text_eq, text_eq_iff}

pub text_eq_sym : (s t : Text) → text_eq s t ≡ false → text_eq t s ≡ false
text_eq_sym s t h = ground (arith, text_eq_iff s t, text_eq_iff t s)

module _ {A : Type 0} (key : A → Text) where
  -- No element of the list has the key.
  abbrev pub Lacks : Text → List A → Type 0
  Lacks k xs = All (λ x. text_eq (key x) k ≡ false) xs

  abbrev pub Distinct : List A → Type 0
  Distinct [] = Unit
  Distinct (x ∷ xs) = Lacks (key x) xs × Distinct xs

  pub find_first-Lacks :
      (k : Text) (xs : List A)
      → is_some (find_first (λ x. text_eq (key x) k) xs) ≡ false
      → Lacks k xs
  find_first-Lacks k [] h = tt
  find_first-Lacks k (x ∷ xs) h = elim (Bool-cases (text_eq (key x) k)) [
    | inl e ↦ absurd (ground arith)
    | inr e ↦ (e, find_first-Lacks k xs (ground arith))
  ]

  pub retain-Distinct : (test : A → Bool) (xs : List A) → Distinct xs → Distinct (retain test xs)
  retain-Distinct test [] d = tt
  retain-Distinct test (x ∷ xs) (l, d) =
      let rest = retain-Distinct test xs d in
      elim (Bool-cases (test x)) [
        | inl e ↦ rw (e, Distinct) (retain-All test _ xs l, rest)
        | inr e ↦ rw (e, Distinct) rest
      ]

  pub append-Distinct :
      (xs : List A) (x : A) → Distinct xs → Lacks (key x) xs → Distinct (xs ++ x ∷ [])
  append-Distinct [] x d l = (tt, tt)
  append-Distinct (y ∷ xs) x (ly, d) (e, l) = (
    All-append (λ z. text_eq (key z) (key y) ≡ false) xs (x ∷ []) ly
        (text_eq_sym (key y) (key x) e, tt),
    append-Distinct xs x d l,
  )
