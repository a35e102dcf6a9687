-- ===== src/Prelude/Lists.antt =====
-- Lists measured and indexed by native numbers, under the library's names, and predicates on all
-- elements.
use Prim.Native.Nat.{ℕ, zero, suc, ◌+◌, ◌-◌, ◌<◌, min}
use mathlib.Core.Path.{◌≡◌, refl}
use mathlib.Core.Bool.{Bool, true, false, not, ◌&&◌, ◌||◌}
use unver.Prelude.Tests.{Bool-cases}
use mathlib.Core.Logic.{◌⊎◌, inl, inr}
use mathlib.Core.List.{List, [], ◌∷◌, ◌++◌}
use mathlib.Core.Option.{Option, none, some}
use native.Mathlib.Omega.{arith}

module _ {ℓ} {A : Type ℓ} where
  abbrev pub length : List A → ℕ
  length [] = 0
  length (x ∷ xs) = suc (length xs)

  abbrev pub get_elem? : List A → ℕ → Option A
  get_elem? [] i = none
  get_elem? (x ∷ xs) zero = some x
  get_elem? (x ∷ xs) (suc i) = get_elem? xs i

  abbrev pub take : ℕ → List A → List A
  take zero xs = []
  take (suc n) [] = []
  take (suc n) (x ∷ xs) = x ∷ take n xs

  abbrev pub drop : ℕ → List A → List A
  drop zero xs = xs
  drop (suc n) [] = []
  drop (suc n) (x ∷ xs) = drop n xs

  abbrev pub any : (A → Bool) → List A → Bool
  any p [] = false
  any p (x ∷ xs) = p x || any p xs

  abbrev pub all : (A → Bool) → List A → Bool
  all p [] = true
  all p (x ∷ xs) = p x && all p xs

  -- the elements that pass a Boolean test
  abbrev pub retain : (A → Bool) → List A → List A
  retain p [] = []
  retain p (x ∷ xs) = let rest = retain p xs in elim (p x) [ true ↦ x ∷ rest | false ↦ rest ]

  abbrev pub find_first : (A → Bool) → List A → Option A
  find_first p [] = none
  find_first p (x ∷ xs) = let rest = find_first p xs in elim (p x) [ true ↦ some x | false ↦ rest ]

  pub length-append : (xs ys : List A) → length (xs ++ ys) ≡ length xs + length ys
  length-append [] ys = omega arith
  length-append (x ∷ xs) ys = omega (arith, length-append xs ys)

  pub length-take : (n : ℕ) (xs : List A) → length (take n xs) ≡ min n (length xs)
  length-take zero xs = omega arith
  length-take (suc n) [] = omega arith
  length-take (suc n) (x ∷ xs) = omega (arith, length-take n xs)

  pub length-drop : (n : ℕ) (xs : List A) → length (drop n xs) ≡ length xs - n
  length-drop zero xs = omega arith
  length-drop (suc n) [] = omega arith
  length-drop (suc n) (x ∷ xs) = omega (arith, length-drop n xs)

  pub get_elem?-total : (xs : List A) (i : ℕ) → i < length xs → (a : A) × (get_elem? xs i ≡ some a)
  get_elem?-total [] i h = absurd (omega arith)
  get_elem?-total (x ∷ xs) zero h = (x, refl)
  get_elem?-total (x ∷ xs) (suc i) h = get_elem?-total xs i (omega arith)

module _ {ℓ κ} {A : Type ℓ} (P : A → Type κ) where
  abbrev pub All : List A → Type κ
  All [] = Unit
  All (x ∷ xs) = P x × All xs

  pub All-append : (xs ys : List A) → All xs → All ys → All (xs ++ ys)
  All-append [] ys h k = k
  All-append (x ∷ xs) ys (p, h) k = (p, All-append xs ys h k)

-- Some element of the list has the property.
module _ {ℓ} {A : Type ℓ} (P : A → Type 0) where
  abbrev pub Any : List A → Type 0
  Any [] = ⊥
  Any (x ∷ xs) = P x ⊎ Any xs

  pub Any-append_left : (xs ys : List A) → Any xs → Any (xs ++ ys)
  Any-append_left [] ys h = absurd h
  Any-append_left (x ∷ xs) ys (inl p) = inl p
  Any-append_left (x ∷ xs) ys (inr h) = inr (Any-append_left xs ys h)

  pub Any-append_right : (xs ys : List A) → Any ys → Any (xs ++ ys)
  Any-append_right [] ys h = h
  Any-append_right (x ∷ xs) ys h = inr (Any-append_right xs ys h)

  pub Any-append_split : (xs ys : List A) → Any (xs ++ ys) → Any xs ⊎ Any ys
  Any-append_split [] ys h = inr h
  Any-append_split (x ∷ xs) ys (inl p) = inl (inl p)
  Any-append_split (x ∷ xs) ys (inr h) = elim (Any-append_split xs ys h) [
    | inl k ↦ inl (inr k)
    | inr k ↦ inr k
  ]

module _ {ℓ} {A : Type ℓ} {P Q : A → Type 0} where
  pub Any-map : ((x : A) → P x → Q x) → (xs : List A) → Any P xs → Any Q xs
  Any-map f [] h = absurd h
  Any-map f (x ∷ xs) (inl p) = inl (f x p)
  Any-map f (x ∷ xs) (inr h) = inr (Any-map f xs h)

pub Any-const {ℓ} : {A : Type ℓ} {P : Type 0} (xs : List A) → Any (λ x. P) xs → P
Any-const [] h = absurd h
Any-const (x ∷ xs) (inl p) = p
Any-const (x ∷ xs) (inr h) = Any-const xs h

pub Any-none {ℓ} : {A : Type ℓ} (xs : List A) → Any (λ x. ⊥) xs → ⊥
Any-none [] h = h
Any-none (x ∷ xs) (inl p) = p
Any-none (x ∷ xs) (inr h) = Any-none xs h

-- What passes a test is what was there and passes it.
module _ {ℓ} {A : Type ℓ} (test : A → Bool) (P : A → Type 0) where
  pub Any-retain : (xs : List A) → Any P (retain test xs) → Any (λ x. P x × (test x ≡ true)) xs
  Any-retain [] h = absurd h
  Any-retain (x ∷ xs) h = go (test x) refl (Any-retain xs) h
    where
      go :
          (b : Bool)
          → test x ≡ b
          → (Any P (retain test xs) → Any (λ y. P y × (test y ≡ true)) xs)
          → Any P (elim b [ true ↦ x ∷ retain test xs | false ↦ retain test xs ])
          → Any (λ y. P y × (test y ≡ true)) (x ∷ xs)
      go true e later (inl p) = inl (p, e)
      go true e later (inr k) = inr (later k)
      go false e later k = inr (later k)

  pub Any-retain_of : (xs : List A) → Any (λ x. P x × (test x ≡ true)) xs → Any P (retain test xs)
  Any-retain_of [] h = absurd h
  Any-retain_of (x ∷ xs) h = go (test x) refl (Any-retain_of xs) h
    where
      go :
          (b : Bool)
          → test x ≡ b
          → (Any (λ y. P y × (test y ≡ true)) xs → Any P (retain test xs))
          → Any (λ y. P y × (test y ≡ true)) (x ∷ xs)
          → Any P (elim b [ true ↦ x ∷ retain test xs | false ↦ retain test xs ])
      go true e later (inl (p, q)) = inl p
      go true e later (inr k) = inr (later k)
      go false e later (inl (p, q)) = cc
      go false e later (inr k) = later k

module _ {A : Type 0} (test : A → Bool) where
  pub find_first-eq-some :
      (xs : List A) (x : A) → find_first test xs ≡ some x → Any (λ y. (y ≡ x) × (test y ≡ true)) xs
  find_first-eq-some [] x h = cc
  find_first-eq-some (y ∷ xs) x h = go (test y) refl (find_first-eq-some xs x) h
    where
      go :
          (b : Bool)
          → test y ≡ b
          → (find_first test xs ≡ some x → Any (λ z. (z ≡ x) × (test z ≡ true)) xs)
          → elim b [ true ↦ some y | false ↦ find_first test xs ] ≡ some x
          → Any (λ z. (z ≡ x) × (test z ≡ true)) (y ∷ xs)
      go true e later k = inl (cc, e)
      go false e later k = inr (later k)

  pub find_first-eq-none : (xs : List A) → All (λ x. test x ≡ false) xs → find_first test xs ≡ none
  find_first-eq-none [] h = refl
  find_first-eq-none (y ∷ xs) (e, h) = ground (arith, find_first-eq-none xs h)

abbrev pub replicate {ℓ} : {A : Type ℓ} → ℕ → A → List A
replicate zero a = []
replicate (suc n) a = a ∷ replicate n a

-- What passes the opposite test fails the test.
pub retain-none {ℓ} :
    {A : Type ℓ} (test : A → Bool) (xs : List A)
    → All (λ x. test x ≡ false) (retain (λ x. not (test x)) xs)
retain-none test [] = tt
retain-none test (x ∷ xs) =
    let rest = retain-none test xs in
    elim (Bool-cases (test x)) [ inl e ↦ rw (e, All) rest | inr e ↦ rw (e, All) (e, rest) ]

pub All-map {ℓ} :
    {A : Type ℓ} (P Q : A → Type 0) → ((x : A) → P x → Q x) → (xs : List A) → All P xs → All Q xs
All-map P Q f [] h = tt
All-map P Q f (x ∷ xs) (p, h) = (f x p, All-map P Q f xs h)

pub retain-All {ℓ} :
    {A : Type ℓ} (test : A → Bool) (P : A → Type 0) (xs : List A)
    → All P xs
    → All P (retain test xs)
retain-All test P [] h = tt
retain-All test P (x ∷ xs) (p, h) =
    let rest = retain-All test P xs h in
    elim (Bool-cases (test x)) [ inl e ↦ rw (e, All) (p, rest) | inr e ↦ rw (e, All) rest ]

pub All-zip :
    {A : Type 0} (P Q R : A → Type 0)
    → ((x : A) → P x → Q x → R x)
    → (xs : List A) → All P xs
    → All Q xs
    → All R xs
All-zip P Q R f [] p q = tt
All-zip P Q R f (x ∷ xs) (p, ps) (q, qs) = (f x p q, All-zip P Q R f xs ps qs)

pub All-always : {A : Type 0} (P : A → Type 0) → ((x : A) → P x) → (xs : List A) → All P xs
All-always P f [] = tt
All-always P f (x ∷ xs) = (f x, All-always P f xs)
