-- ===== src/Prelude/Decimal.antt =====
-- Reading a number back from its decimal digits.
use unver.Prelude.{
  ℕ, zero, suc, ◌+◌, ◌-◌, ◌*◌, ◌^◌, ◌%◌, ◌/◌, ◌≤◌, ◌<◌, ◌≡◌, refl, some, [], ◌∷◌, arith, Text, leb,
  Bool-cases, inl, inr, le→leb, ap, ◌∙◌, leb→le, leb-false→lt, ==-false_of_ne,
}
use native.Mathlib.Omega.{pow_step}
use unver.Prelude.Int.{digits, decimal, parse_digits, parse_uint}

parse_digits-digit :
    (max n d : ℕ) (acc : Text)
    → d < 10
    → 10 * n + d ≤ max
    → parse_digits max n ((48 + d) ∷ acc) ≡ parse_digits max (10 * n + d) acc
unfolding parse_digits
parse_digits-digit max n d acc small fits =
    let same : 48 + d - 48 ≡ d = omega arith in
    rw
      (
        same,
        le→leb 48 (48 + d) (omega arith),
        le→leb (48 + d) 57 (omega arith),
        le→leb (10 * n + d) max fits,
      )
      refl

parse_digits-digits :
    (max fuel n : ℕ) (acc : Text)
    → n < 10 ^ fuel
    → n ≤ max
    → parse_digits max 0 (digits fuel n acc) ≡ parse_digits max n acc
parse_digits-digits max zero n acc b l = let nought : n ≡ 0 = omega arith in rw nought refl
parse_digits-digits max (suc fuel) n acc b l =
    let here = (48 + n % 10) ∷ acc in
    elim (Bool-cases (leb 10 n)) [
      | inl e ↦
          let le = leb→le 10 n e in
          let less : n / 10 < 10 ^ fuel = omega (arith, pow_step 10 fuel, b) in
          let joined : 10 * (n / 10) + n % 10 ≡ n = omega arith in
          rw e (
            parse_digits-digits max fuel (n / 10) here less (omega arith)
            ∙ parse_digits-digit max (n / 10) (n % 10) acc (omega arith) (omega arith)
            ∙ ap (λ m. parse_digits max m acc) joined)
      | inr e ↦
          let lt = leb-false→lt 10 n e in
          let same : 10 * 0 + n % 10 ≡ n = omega arith in
          rw e (
            parse_digits-digit max 0 (n % 10) acc (omega arith) (omega arith)
            ∙ ap (λ m. parse_digits max m acc) same)
    ]

abbrev IsNumeral : Text → Type 0
IsNumeral t = (c : ℕ) × (r : Text) × (t ≡ c ∷ r) × (48 ≤ c)

digits-IsNumeral : (fuel n c : ℕ) (acc : Text) → 48 ≤ c → IsNumeral (digits fuel n (c ∷ acc))
digits-IsNumeral zero n c acc h = (c, acc, refl, h)
digits-IsNumeral (suc fuel) n c acc h = elim (Bool-cases (leb 10 n)) [
  | inl e ↦ rw e (digits-IsNumeral fuel (n / 10) (48 + n % 10) (c ∷ acc) (omega arith))
  | inr e ↦ rw e (48 + n % 10, c ∷ acc, refl, omega arith)
]

decimal-IsNumeral : (n : ℕ) → IsNumeral (decimal n)
decimal-IsNumeral n = elim (Bool-cases (leb 10 n)) [
  | inl e ↦ rw e (digits-IsNumeral 19 (n / 10) (48 + n % 10) [] (omega arith))
  | inr e ↦ rw e (48 + n % 10, [], refl, omega arith)
]

parse_uint-numeral : (max : ℕ) (t : Text) → IsNumeral t → parse_uint max t ≡ parse_digits max 0 t
unfolding parse_uint
parse_uint-numeral max t (c, r, e, h) = rw (e, ==-false_of_ne c 43 (λ q. omega arith)) refl

pub parse_uint-decimal : (max n : ℕ) → n < 10 ^ 20 → n ≤ max → parse_uint max (decimal n) ≡ some n
parse_uint-decimal max n b l =
    rw
      (
        parse_uint-numeral max (decimal n) (decimal-IsNumeral n),
        parse_digits-digits max 20 n [] b l,
      )
      (unfold parse_digits in refl)
