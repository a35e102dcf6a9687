-- ===== src/Prelude/Bytes.antt =====
-- A Rust `str` or `String` as the list of its UTF-8 bytes, with the operations of the standard
-- library that the program calls. Positions and lengths count bytes, as in Rust.
use Prim.Native.Char.{code}
use Prim.Native.Nat.{ℕ, ◌+◌}
use Prim.Native.String.{String}
use mathlib.Core.Path.{◌≡◌, refl, sym, ap, ap₂}
use mathlib.Core.Logic.{◌↔◌}
use mathlib.Core.Bool.{Bool, true, false, ◌&&◌, ◌||◌}
use mathlib.Core.List.{List, [], ◌∷◌, ◌++◌, map}
use mathlib.Core.Option.{Option, none, some}
use native.Mathlib.Omega.{arith}
use unver.Prelude.Lists.{length, take, drop}
use unver.Prelude.Tests.{ltb, leb, ◌==◌, ==_iff, and-eq-true, if◌then◌else◌}

abbrev pub Text : Type 0
Text = List ℕ

-- A literal of the source, which is ASCII wherever this is used.
abbrev pub codes : String → Text
codes String.[] = []
codes (String.◌∷◌ c s) = code c ∷ codes s

abbrev pub text_eq : Text → Text → Bool
text_eq [] [] = true
text_eq [] (y ∷ ys) = false
text_eq (x ∷ xs) [] = false
text_eq (x ∷ xs) (y ∷ ys) = x == y && text_eq xs ys

pub text_eq→eq : (s t : Text) → text_eq s t ≡ true → s ≡ t
text_eq→eq [] [] h = refl
text_eq→eq [] (y ∷ ys) h = cc
text_eq→eq (x ∷ xs) [] h = cc
text_eq→eq (x ∷ xs) (y ∷ ys) h =
    let (e, r) = and-eq-true (x == y) (text_eq xs ys) h in
    ap₂ (λ a b. a ∷ b) ((==_iff x y).0 e) (text_eq→eq xs ys r)

pub text_eq_refl : (s : Text) → text_eq s s ≡ true
text_eq_refl [] = refl
text_eq_refl (x ∷ xs) = ground (arith, text_eq_refl xs)

pub text_eq_iff : (s t : Text) → (text_eq s t ≡ true) ↔ (s ≡ t)
text_eq_iff s t = (text_eq→eq s t, λ e. cc (text_eq_refl s, ap (text_eq s) e))

abbrev pub is_empty : Text → Bool
is_empty [] = true
is_empty (x ∷ xs) = false

-- `s.contains(c)` for a character
abbrev pub contains_char : Text → ℕ → Bool
contains_char [] c = false
contains_char (x ∷ xs) c = x == c || contains_char xs c

abbrev pub starts_with : Text → Text → Bool
starts_with s [] = true
starts_with [] (p ∷ ps) = false
starts_with (x ∷ xs) (p ∷ ps) = x == p && starts_with xs ps

-- `s.contains(t)` for a text
abbrev pub contains : Text → Text → Bool
contains [] t = is_empty t
contains (x ∷ xs) t = starts_with (x ∷ xs) t || contains xs t

abbrev pub strip_prefix : Text → Text → Option Text
strip_prefix s [] = some s
strip_prefix [] (p ∷ ps) = none
strip_prefix (x ∷ xs) (p ∷ ps) =
    let rest = strip_prefix xs ps in elim (x == p) [ true ↦ rest | false ↦ none ]

-- What stands from the first `c` on, `c` included: `&s[s.find(c)?..]`.
abbrev pub from_char : Text → ℕ → Option Text
from_char [] c = none
from_char (x ∷ xs) c =
    let rest = from_char xs c in elim (x == c) [ true ↦ some (x ∷ xs) | false ↦ rest ]

-- What stands before the first `c`, or all: `s.split(c).next()`.
abbrev pub before_char : Text → ℕ → Text
before_char [] c = []
before_char (x ∷ xs) c =
    let rest = before_char xs c in elim (x == c) [ true ↦ [] | false ↦ x ∷ rest ]

-- The first piece and the others of `s.split(c)`.
abbrev pub push_front : ℕ → List Text → List Text
push_front x [] = (x ∷ []) ∷ []
push_front x (p ∷ ps) = (x ∷ p) ∷ ps

abbrev pub split_on : ℕ → Text → List Text
split_on c [] = [] ∷ []
split_on c (x ∷ xs) =
    let rest = split_on c xs in elim (x == c) [ true ↦ [] ∷ rest | false ↦ push_front x rest ]

abbrev pub ascii_lower : ℕ → ℕ
ascii_lower c = if leb 65 c && leb c 90 then c + 32 else c

-- `eq_ignore_ascii_case`
abbrev pub eq_ignore_case : Text → Text → Bool
eq_ignore_case [] [] = true
eq_ignore_case [] (y ∷ ys) = false
eq_ignore_case (x ∷ xs) [] = false
eq_ignore_case (x ∷ xs) (y ∷ ys) = ascii_lower x == ascii_lower y && eq_ignore_case xs ys

-- `to_lowercase` of an ASCII text.
abbrev pub lowercase : Text → Text
lowercase = map ascii_lower

abbrev pub is_digit : ℕ → Bool
is_digit c = leb 48 c && leb c 57

abbrev pub is_alnum : ℕ → Bool
is_alnum c = is_digit c || leb 65 c && leb c 90 || leb 97 c && leb c 122

pub ascii_lower_idem : (c : ℕ) → ascii_lower (ascii_lower c) ≡ ascii_lower c
ascii_lower_idem c = ground arith

pub lowercase_idem : (s : Text) → lowercase (lowercase s) ≡ lowercase s
lowercase_idem [] = refl
lowercase_idem (c ∷ s) = ap₂ (λ a b. a ∷ b) (ascii_lower_idem c) (lowercase_idem s)

-- Two texts are equal up to ASCII case exactly when their lower-case forms are equal.
pub eq_ignore_case-lowercase :
    (s t : Text) → eq_ignore_case s t ≡ text_eq (lowercase s) (lowercase t)
eq_ignore_case-lowercase [] [] = refl
eq_ignore_case-lowercase [] (y ∷ t) = refl
eq_ignore_case-lowercase (x ∷ s) [] = refl
eq_ignore_case-lowercase (x ∷ s) (y ∷ t) =
    ap (λ b. ascii_lower x == ascii_lower y && b) (eq_ignore_case-lowercase s t)

-- SQLite's `a > b` on texts under the BINARY collation, as `text_lt b a`.
abbrev pub text_lt : Text → Text → Bool
text_lt [] [] = false
text_lt [] (y ∷ ys) = true
text_lt (x ∷ xs) [] = false
text_lt (x ∷ xs) (y ∷ ys) = ltb x y || x == y && text_lt xs ys

-- `trim_end_matches(c)`
abbrev pub trim_end_char : ℕ → Text → Text
trim_end_char c [] = []
trim_end_char c (x ∷ s) =
    let rest = trim_end_char c s in if x == c && is_empty rest then [] else x ∷ rest

take-append : (xs ys : Text) → take (length xs) (xs ++ ys) ≡ xs
take-append [] ys = refl
take-append (x ∷ xs) ys = rw (take-append xs ys) refl

drop-append : (xs ys : Text) → drop (length xs) (xs ++ ys) ≡ ys
drop-append [] ys = refl
drop-append (x ∷ xs) ys = drop-append xs ys

pub take-append_at : (n : ℕ) (xs ys : Text) → length xs ≡ n → take n (xs ++ ys) ≡ xs
take-append_at n xs ys l = rw (sym l) (take-append xs ys)

pub drop-append_at : (n : ℕ) (xs ys : Text) → length xs ≡ n → drop n (xs ++ ys) ≡ ys
drop-append_at n xs ys l = rw (sym l) (drop-append xs ys)
