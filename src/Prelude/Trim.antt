-- ===== src/Prelude/Trim.antt =====
-- `str::trim` of Rust's standard library, and its `str::split_whitespace` on ASCII texts.
use Prim.Native.Nat.{ℕ, zero, suc}
use mathlib.Core.Path.{◌≡◌, refl}
use mathlib.Core.Bool.{Bool, true, false, not, ◌&&◌, ◌||◌}
use mathlib.Core.List.{List, [], ◌∷◌, ◌++◌}
use mathlib.Core.Option.{Option, none, some}
use unver.Prelude.Tests.{leb, ◌==◌, if◌then◌else◌}
use unver.Prelude.Lists.{length, retain}
use unver.Prelude.Bytes.{Text, codes, is_empty, push_front}

-- What is left behind one white-space character (Unicode's White_Space, as `char::is_whitespace`).
abbrev is_ascii_space : ℕ → Bool
is_ascii_space b = leb 9 b && leb b 13 || b == 32

abbrev when : Bool → Text → Option Text
when true s = some s
when false s = none

abbrev skip_two : ℕ → ℕ → Text → Option Text
skip_two a b s = when (a == 0xc2 && (b == 0x85 || b == 0xa0)) s

abbrev skip_three : ℕ → ℕ → ℕ → Text → Option Text
skip_three a b c s =
    when
      (a == 0xe1 && b == 0x9a && c == 0x80
        || a == 0xe2
          && b == 0x80
          && (leb 0x80 c && leb c 0x8a || c == 0xa8 || c == 0xa9 || c == 0xaf)
        || a == 0xe2 && b == 0x81 && c == 0x9f
        || a == 0xe3 && b == 0x80 && c == 0x80)
      s

abbrev first_some : Option Text → Option Text → Option Text
first_some (some s) o = some s
first_some none o = o

abbrev skip_space : Text → Option Text
skip_space [] = none
skip_space (a ∷ []) = when (is_ascii_space a) []
skip_space (a ∷ b ∷ []) = first_some (when (is_ascii_space a) (b ∷ [])) (skip_two a b [])
skip_space (a ∷ b ∷ c ∷ s) =
    first_some (when (is_ascii_space a) (b ∷ c ∷ s))
      (first_some (skip_two a b (c ∷ s)) (skip_three a b c s))

-- Each round takes a character, so that the length is fuel enough.
trim_rounds : ℕ → Text → Text
trim_rounds zero s = s
trim_rounds (suc n) s = elim (skip_space s) [ none ↦ s | some rest ↦ trim_rounds n rest ]

unfoldable pub trim_start : Text → Text
unfolding trim_rounds
trim_start s = trim_rounds (length s) s

unfoldable pub trim_end : Text → Text
unfolding trim_start
trim_end [] = []
trim_end (x ∷ s) =
    let rest = trim_end s in elim (is_empty (trim_start (x ∷ s))) [ true ↦ [] | false ↦ x ∷ rest ]

unfoldable pub trim : Text → Text
unfolding trim_start trim_end
trim s = trim_end (trim_start s)

trim_test : trim (codes "  a b " ++ 0xc2 ∷ 0xa0 ∷ []) ≡ codes "a b"
unfolding trim
trim_test = refl

abbrev pieces : Text → List Text
pieces [] = [] ∷ []
pieces (x ∷ s) =
    let rest = pieces s in if leb 9 x && leb x 13 || x == 32 then [] ∷ rest else push_front x rest

-- `split_whitespace` of an ASCII text
abbrev pub split_whitespace : Text → List Text
split_whitespace s = retain (λ w. not (is_empty w)) (pieces s)
