-- ===== src/Prelude/Join.antt =====
-- `join` of Rust's slices of texts, with one character between the parts, and `split`.
use Prim.Native.Nat.{ℕ, suc, zero, ◌<◌}
use mathlib.Core.Path.{◌≡◌, refl, ap, ◌∙◌}
use mathlib.Core.Bool.{false}
use mathlib.Core.Logic.{inl, inr}
use mathlib.Core.List.{List, [], ◌∷◌, ◌++◌, append_assoc, append-nil}
use native.Mathlib.Omega.{arith}
use unver.Prelude.Tests.{◌==◌, if◌then◌else◌, ==_iff, ==_refl, Bool-cases}
use unver.Prelude.Lists.{length, take, drop, All}
use unver.Prelude.Bytes.{Text, is_empty, split_on, push_front}

-- What follows the first part: each part behind a separator.
abbrev pub behind : ℕ → List Text → Text
behind c [] = []
behind c (p ∷ ps) = (c ∷ p) ++ behind c ps

abbrev pub join_with : ℕ → List Text → Text
join_with c [] = []
join_with c (p ∷ ps) = p ++ behind c ps

join-push_front : (c x : ℕ) (ps : List Text) → join_with c (push_front x ps) ≡ x ∷ join_with c ps
join-push_front c x [] = refl
join-push_front c x (p ∷ ps) = refl

split_on-cons : (c : ℕ) (s : Text) → (p : Text) × (ps : List Text) × (split_on c s ≡ p ∷ ps)
split_on-cons c [] = ([], [], refl)
split_on-cons c (x ∷ s) =
    let (p, ps, e) = split_on-cons c s in
    elim (Bool-cases (x == c)) [
      | inl t ↦ ([], split_on c s, rw (split_on, t) refl)
      | inr t ↦ (x ∷ p, ps, rw (split_on, t, e) refl)
    ]

pub length-split_on : (c : ℕ) (s : Text) → 0 < length (split_on c s)
length-split_on c s = let (p, ps, e) = split_on-cons c s in rw e (omega arith)

-- Joining the parts of a split gives the text back.
pub join_with-split_on : (c : ℕ) (s : Text) → join_with c (split_on c s) ≡ s
join_with-split_on c [] = refl
join_with-split_on c (x ∷ s) =
    let rest = join_with-split_on c s in
    let (p, ps, e) = split_on-cons c s in
    elim (Bool-cases (x == c)) [
      | inl t ↦ let same : x ≡ c = (==_iff x c).0 t in rw (split_on, t, e) (cc (same, rw e at rest))
      | inr t ↦ rw (split_on, t) (join-push_front c x (split_on c s) ∙ ap (λ r. x ∷ r) rest)
    ]

cut_behind :
    (c i : ℕ) (ps : List Text)
    → i < length ps
    → behind c (take i ps) ++ c ∷ join_with c (drop i ps) ≡ behind c ps
cut_behind c i [] k = absurd (omega arith)
cut_behind c zero (p ∷ ps) k = refl
cut_behind c (suc i) (p ∷ ps) k =
    ap (λ r. c ∷ r)
      (append_assoc p (behind c (take i ps)) (c ∷ join_with c (drop i ps))
        ∙ ap (λ r. p ++ r) (cut_behind c i ps (omega arith)))

-- A join is cut between two parts.
pub join_with-cut :
    (c i : ℕ) (ps : List Text)
    → 0 < i
    → i < length ps
    → join_with c (take i ps) ++ c ∷ join_with c (drop i ps) ≡ join_with c ps
join_with-cut c zero ps h k = absurd (omega arith)
join_with-cut c (suc i) [] h k = absurd (omega arith)
join_with-cut c (suc i) (p ∷ ps) h k =
    append_assoc p (behind c (take i ps)) (c ∷ join_with c (drop i ps))
    ∙ ap (λ r. p ++ r) (cut_behind c i ps (omega arith))

-- The separator does not occur.
abbrev pub Free : ℕ → Text → Type 0
Free c [] = Unit
Free c (x ∷ s) = ((x == c) ≡ false) × Free c s

pub append-Free : (c : ℕ) (s t : Text) → Free c s → Free c t → Free c (s ++ t)
append-Free c [] t f g = g
append-Free c (x ∷ s) t (e, f) g = (e, append-Free c s t f g)

pub split_on_whole : (c : ℕ) (s : Text) → Free c s → split_on c s ≡ s ∷ []
split_on_whole c [] f = refl
split_on_whole c (x ∷ s) (e, f) = rw (split_on, e, split_on_whole c s f) refl

pub split_on_part : (c : ℕ) (s t : Text) → Free c s → split_on c (s ++ c ∷ t) ≡ s ∷ split_on c t
split_on_part c [] t f = rw (split_on, ==_refl c) refl
split_on_part c (x ∷ s) t (e, f) = rw (split_on, e, split_on_part c s t f) refl

split_on-behind :
    (c : ℕ) (p : Text) (ps : List Text)
    → Free c p
    → All (Free c) ps
    → split_on c (p ++ behind c ps) ≡ p ∷ ps
split_on-behind c p [] f g = rw (append-nil p) (split_on_whole c p f)
split_on-behind c p (q ∷ ps) f (g, gs) =
    split_on_part c p (q ++ behind c ps) f ∙ ap (λ r. p ∷ r) (split_on-behind c q ps g gs)

-- Splitting a join gives the parts back, if there is a part and none holds the separator.
pub split_on-join_with :
    (c : ℕ) (p : Text) (ps : List Text)
    → All (Free c) (p ∷ ps)
    → split_on c (join_with c (p ∷ ps)) ≡ p ∷ ps
split_on-join_with c p ps (f, g) = split_on-behind c p ps f g

abbrev without_cr : Text → Text
without_cr [] = []
without_cr (c ∷ []) = if c == 13 then [] else c ∷ []
without_cr (c ∷ d ∷ s) = c ∷ without_cr (d ∷ s)

abbrev lines_of : List Text → List Text
lines_of [] = []
lines_of (l ∷ []) = if is_empty l then [] else l ∷ []
lines_of (l ∷ k ∷ ls) = without_cr l ∷ lines_of (k ∷ ls)

-- `str::lines`: no line after a last newline, and no `\r` before one.
abbrev pub text_lines : Text → List Text
text_lines s = lines_of (split_on 10 s)
