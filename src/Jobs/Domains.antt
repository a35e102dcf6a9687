-- ===== src/Jobs/Domains.antt =====
-- The names of the certificate that `issue_certificate` of backend/src/api/settings.rs asks for.
use unver.Prelude.{
  inl, inr, false, ◌≡◌, refl, List, [], ◌∷◌, ◌++◌, Option, none, some, arith, Text, is_empty, All,
  All-append, Bool-cases,
}
use unver.Prelude.Trim.{trim}
use unver.Prelude.Distinct.{Lacks, Distinct, append-Distinct}
use unver.Jobs.{has_name, push_names, split_sans, domains_of}

abbrev self : Text → Text
self d = d

-- The names are all different, none is empty, and the first is the primary one.
abbrev pub IsNames : Text → List Text → Type 0
IsNames primary [] = ⊥
IsNames primary (d ∷ ds) =
    (d ≡ primary) × Distinct self (d ∷ ds) × All (λ e. is_empty e ≡ false) (d ∷ ds)

Lacks-has_name : (d : Text) (ds : List Text) → has_name d ds ≡ false → Lacks self d ds
Lacks-has_name d [] h = tt
Lacks-has_name d (e ∷ ds) h = (ground arith, Lacks-has_name d ds (ground arith))

append-IsNames :
    (primary name : Text) (ds : List Text)
    → IsNames primary ds
    → is_empty name ≡ false
    → has_name name ds ≡ false
    → IsNames primary (ds ++ name ∷ [])
append-IsNames primary name [] n e h = absurd n
append-IsNames primary name (d ∷ ds) (p, u, a) e h = (
  p,
  append-Distinct self (d ∷ ds) name u (Lacks-has_name name (d ∷ ds) h),
  All-append _ (d ∷ ds) (name ∷ []) a (e, tt),
)

push_names-IsNames :
    (primary : Text) (names ds : List Text)
    → IsNames primary ds
    → IsNames primary (push_names ds names)
unfolding push_names
push_names-IsNames primary [] ds n = n
push_names-IsNames primary (s ∷ names) ds n =
    let name = trim s in
    let skipped = push_names-IsNames primary names ds n in
    elim (Bool-cases (is_empty name)) [
      | inl e ↦ rw (push_names, e) skipped
      | inr e ↦ elim (Bool-cases (has_name name ds)) [
        | inl h ↦ rw (push_names, e, h) skipped
        | inr h ↦
            rw (push_names, e, h)
              (push_names-IsNames primary names (ds ++ name ∷ [])
                (append-IsNames primary name ds n e h))
      ]
    ]

-- The names of a certificate start with the primary domain, are all different, and none is empty, whatever
-- stands in the text of the other names.
pub domains_of-IsNames :
    (primary : Text) (sans : Option Text)
    → is_empty primary ≡ false
    → IsNames primary (domains_of primary sans)
unfolding domains_of
domains_of-IsNames primary none e = (refl, (tt, tt), (e, tt))
domains_of-IsNames primary (some sans) e =
    push_names-IsNames primary (split_sans sans) (primary ∷ []) (refl, (tt, tt), (e, tt))
