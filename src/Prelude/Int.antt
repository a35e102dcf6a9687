-- ===== src/Prelude/Int.antt =====
-- `i64` values as integers over the native numbers: `negsuc n` is -(n + 1).
use Prim.Native.Nat.{ℕ, zero, suc, ◌+◌, ◌-◌, ◌*◌, ◌%◌, ◌/◌}
use mathlib.Core.Path.{◌≡◌, refl}
use mathlib.Core.Bool.{Bool, true, false, ◌&&◌}
use native.Mathlib.Omega.{arith}
use mathlib.Core.List.{[], ◌∷◌}
use mathlib.Core.Option.{Option, none, some}
use unver.Prelude.Bytes.{Text}
use unver.Prelude.Tests.{leb, ◌==◌, if◌then◌else◌}

pub data ℤ : Type 0 where
  pos : ℕ → ℤ
  negsuc : ℕ → ℤ

abbrev pub int_eq : ℤ → ℤ → Bool
int_eq (pos m) (pos n) = m == n
int_eq (negsuc m) (negsuc n) = m == n
int_eq (pos m) (negsuc n) = false
int_eq (negsuc m) (pos n) = false

pub int_eq→eq : (a b : ℤ) → int_eq a b ≡ true → a ≡ b
int_eq→eq (pos m) (pos n) h = ground arith
int_eq→eq (negsuc m) (negsuc n) h = ground arith
int_eq→eq (pos m) (negsuc n) h = cc
int_eq→eq (negsuc m) (pos n) h = cc

pub int_eq_refl : (a : ℤ) → int_eq a a ≡ true
int_eq_refl (pos m) = ground arith
int_eq_refl (negsuc m) = ground arith

-- `1 <= a && a <= hi`
abbrev pub from_one_to : ℕ → ℤ → Bool
from_one_to hi (pos n) = leb 1 n && leb n hi
from_one_to hi (negsuc n) = false

-- `a as u16`
abbrev pub as_u16 : ℤ → ℕ
as_u16 (pos n) = n % 65536
as_u16 (negsuc n) = 65535 - n % 65536

-- `to_string` of a number: its decimal digits. Twenty digits are enough for 64 bits.
abbrev pub digits : ℕ → ℕ → Text → Text
digits zero n acc = acc
digits (suc fuel) n acc =
    let here = (48 + n % 10) ∷ acc in
    let rest = digits fuel (n / 10) here in if leb 10 n then rest else here

abbrev pub decimal : ℕ → Text
decimal n = digits 20 n []

-- `str::parse` of an unsigned integer up to `max`: a `+` may stand in front, and there is a digit.
unfoldable pub parse_digits : ℕ → ℕ → Text → Option ℕ
parse_digits max n [] = some n
parse_digits max n (c ∷ t) =
    let rest = parse_digits max (10 * n + (c - 48)) t in
    if leb 48 c && leb c 57 && leb (10 * n + (c - 48)) max then rest else none

abbrev pub unsigned : ℕ → Text → Option ℕ
unsigned max [] = none
unsigned max (c ∷ t) = parse_digits max 0 (c ∷ t)

unfoldable pub parse_uint : ℕ → Text → Option ℕ
parse_uint max [] = none
parse_uint max (c ∷ t) = if c == b'+' then unsigned max t else unsigned max (c ∷ t)

abbrev pub int_decimal : ℤ → Text
int_decimal (pos n) = decimal n
int_decimal (negsuc n) = b'-' ∷ decimal (suc n)

-- `a <= b`
abbrev pub int_leb : ℤ → ℤ → Bool
int_leb (pos m) (pos n) = leb m n
int_leb (pos m) (negsuc n) = false
int_leb (negsuc m) (pos n) = true
int_leb (negsuc m) (negsuc n) = leb n m

decimal_tests : (decimal 0 ≡ b'0' ∷ []) × (int_decimal (negsuc 9) ≡ b'-' ∷ b'1' ∷ b'0' ∷ [])
decimal_tests = (refl, refl)
