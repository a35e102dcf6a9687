-- ===== src/Settings/Token.antt =====
-- Saving the settings as backend/src/api/settings.rs shows them.
use unver.Prelude.{
  drop-append_at, ◌-◌, ◌<◌, ◌≡◌, refl, Bool, true, false, not, ◌&&◌, [], ◌∷◌, ◌++◌, arith, Text,
  length, length-append, length-take, length-drop, take, drop, lt→ltb, le→leb, starts_with,
  contains, is_empty,
}
use mathlib.Core.List.{append_assoc}
use unver.Errors.{ok}
use unver.State.{Db}
use unver.Security.{Crypto}
use unver.Settings.{mask_token, is_masked, stars, cf_token, update_token}

starts_with-append : (p s : Text) → starts_with (p ++ s) p ≡ true
starts_with-append [] [] = refl
starts_with-append [] (x ∷ s) = refl
starts_with-append (x ∷ p) s = ground (arith, starts_with-append p s)

starts_with_self : (p : Text) → starts_with p p ≡ true
starts_with_self [] = refl
starts_with_self (x ∷ p) = ground (arith, starts_with_self p)

contains-stars : (p s : Text) → contains (p ++ (stars ++ s)) stars ≡ true
contains-stars [] s = refl
contains-stars (x ∷ p) s = ground (arith, contains-stars p s)

longer-not_empty : (t : Text) → 8 < length t → is_empty t ≡ false
longer-not_empty [] l = absurd (omega arith)
longer-not_empty (x ∷ t) l = refl

all_five :
    {long has empty four pre room post : Bool}
    → long ≡ true
    → has ≡ true
    → empty ≡ false
    → four ≡ true
    → pre ≡ true
    → room ≡ true
    → post ≡ true
    → (long && has && not empty && (four && pre) && (four && (room && post))) ≡ true
all_five a b c d e f g = rw (a, b, c, d, e, f, g) refl

shown-is_masked : (token : Text) → 8 < length token → is_masked token (mask_token token) ≡ true
unfolding mask_token is_masked
shown-is_masked token l =
    let a = take 4 token in
    let z = drop (length token - 4) token in
    let la : length a ≡ 4 = omega (arith, length-take 4 token) in
    let lz : length z ≡ 4 = omega (arith, length-drop (length token - 4) token) in
    let lm : length (a ++ (stars ++ z)) ≡ 12 = omega (arith, length-append a (stars ++ z)) in
    let shown : mask_token token ≡ a ++ (stars ++ z) =
      rw (mask_token, lt→ltb 8 (length token) l) refl in
    let d : length (a ++ (stars ++ z)) - length z ≡ 8 = omega arith in
    let rest : drop 8 (a ++ (stars ++ z)) ≡ z =
      rw⁻¹ (append_assoc a stars z)
        (drop-append_at 8 (a ++ stars) z (omega (arith, length-append a stars, la))) in
    let tail : starts_with (drop (length (a ++ (stars ++ z)) - length z) (a ++ (stars ++ z))) z
        ≡ true =
      rw (d, rest) (starts_with_self z) in
    rw shown (
      all_five (lt→ltb 8 _ (omega arith)) (contains-stars a z) (longer-not_empty token l)
        (le→leb 4 (length token) (omega arith)) (starts_with-append a (stars ++ z))
        (le→leb (length z) _ (omega arith)) tail)

-- Where the stored token has more than eight bytes, saving it as it is shown changes nothing.
pub update_token-mask_token :
    (crypto : Crypto) (nonce : _) (db : Db)
    → 8 < length (cf_token crypto db)
    → update_token crypto nonce (mask_token (cf_token crypto db)) db ≡ (ok tt, db)
unfolding update_token
update_token-mask_token crypto nonce db l = rw (shown-is_masked (cf_token crypto db) l) refl
