-- ===== src/Prelude/Utf8.antt =====
-- `String::from_utf8` of Rust's standard library: the bytes as they are, if they are well-formed
-- UTF-8. The scan carries how many continuation bytes are due and the range of the next one.
use unver.Prelude.Tests.{ltb, leb, ◌==◌, if◌then◌else◌}
use unver.Prelude.Lists.{All}
use unver.Prelude.Bytes.{Text}
use Prim.Native.Nat.{ℕ, zero, suc, ◌<◌}
use mathlib.Core.Path.{◌≡◌, refl}
use mathlib.Core.Bool.{Bool, true, false, ◌&&◌}
use mathlib.Core.List.{List, [], ◌∷◌}
use mathlib.Core.Option.{Option, none, some}
use native.Mathlib.Omega.{arith}

-- What may follow a byte: how many continuation bytes, and the range of the first of them.
pub record Due : Type 0 where
  pub more : ℕ
  pub low : ℕ
  pub high : ℕ

abbrev due : ℕ → ℕ → ℕ → Option Due
due n l h = some (record { more = n; low = l; high = h })

-- `none` for a byte that begins no character.
lead : ℕ → Option Due
lead b =
    if ltb b 0x80
    then due 0 0x80 0xbf
    else if leb 0xc2 b && leb b 0xdf
    then due 1 0x80 0xbf
    else if b == 0xe0
    then due 2 0xa0 0xbf
    else if b == 0xed
    then due 2 0x80 0x9f
    else if leb 0xe1 b && leb b 0xef
    then due 2 0x80 0xbf
    else if b == 0xf0
    then due 3 0x90 0xbf
    else if leb 0xf1 b && leb b 0xf3
    then due 3 0x80 0xbf
    else if b == 0xf4
    then due 3 0x80 0x8f
    else none

utf8_from : ℕ → ℕ → ℕ → List ℕ → Bool
utf8_from zero l h [] = true
utf8_from (suc n) l h [] = false
utf8_from (suc n) l h (b ∷ bs) = leb l b && leb b h && utf8_from n 0x80 0xbf bs
utf8_from zero l h (b ∷ bs) = elim (lead b) [
  | none ↦ false
  | some d ↦ utf8_from d.more d.low d.high bs
]

unfoldable pub is_utf8 : List ℕ → Bool
unfolding utf8_from lead
is_utf8 bs = utf8_from 0 0x80 0xbf bs

unfoldable pub from_utf8 : List ℕ → Option Text
unfolding is_utf8
from_utf8 bs = if is_utf8 bs then some bs else none

abbrev pub IsAscii : Text → Type 0
IsAscii = All (λ b. b < 128)

lead_of_ascii : (b : ℕ) → b < 128 → lead b ≡ due 0 0x80 0xbf
unfolding lead
lead_of_ascii b h = ground arith

is_utf8_of_ascii : (l h : ℕ) (bs : Text) → IsAscii bs → utf8_from 0 l h bs ≡ true
unfolding utf8_from
is_utf8_of_ascii l h [] a = refl
is_utf8_of_ascii l h (b ∷ bs) (p, a) =
    rw (lead_of_ascii b p, utf8_from) (is_utf8_of_ascii 0x80 0xbf bs a)

-- ASCII bytes are text.
pub from_utf8_of_ascii : (bs : Text) → IsAscii bs → from_utf8 bs ≡ some bs
unfolding from_utf8
from_utf8_of_ascii bs a = rw (is_utf8_of_ascii 0x80 0xbf bs a)

from_utf8_tests :
    (from_utf8 (0xc3 ∷ 0xa9 ∷ []) ≡ some (0xc3 ∷ 0xa9 ∷ []))
    × (from_utf8 (0xc0 ∷ 0x80 ∷ []) ≡ none)
    × (from_utf8 (0xed ∷ 0xa0 ∷ 0x80 ∷ []) ≡ none)
unfolding from_utf8
from_utf8_tests = (refl, refl, refl)
