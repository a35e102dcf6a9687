-- ===== src/Action.antt =====
-- A handler: it changes a state and returns a value or an `AppError`. What was written before an
-- error stays written: no handler of the program rolls back.
use unver.Prelude.{sym, if◌then◌else◌, ◌≡◌, refl, Bool, Option, none, some}
use unver.Errors.{AppError, AppResult, ok, err}

abbrev pub Action {ℓ} : Type ℓ → Type ℓ → Type ℓ
Action S A = S → AppResult A × S

-- `option.ok_or(e)`
abbrev pub to_result {ℓ} : {A : Type ℓ} → Option A → AppError → AppResult A
to_result none e = err e
to_result (some a) e = ok a

module _ {ℓ} {S A : Type ℓ} where
  abbrev pub pure : A → Action S A
  pure a s = (ok a, s)

  abbrev pub fail : AppError → Action S A
  fail e s = (err e, s)

  abbrev pub ok_or : Option A → AppError → Action S A
  ok_or o e s = (to_result o e, s)

  -- a pure check
  abbrev pub lift : AppResult A → Action S A
  lift r s = (r, s)

  abbrev pub gets : (S → A) → Action S A
  gets f s = (ok (f s), s)

module _ {ℓ} {S A B : Type ℓ} where
  abbrev resume : AppResult A → (A → Action S B) → Action S B
  resume (ok a) f s = f a s
  resume (err e) f s = (err e, s)

  infixl 5 ◌>>=◌
  abbrev pub ◌>>=◌ : Action S A → (A → Action S B) → Action S B
  ◌>>=◌ m f s = resume (m s).0 f (m s).1

module _ {S : Type 0} where
  infixl 5 ◌>>◌
  abbrev pub ◌>>◌ : {B : Type 0} → Action S (Unit {0}) → Action S B → Action S B
  m >> k = m >>= λ _. k

  abbrev pub modify : (S → S) → Action S (Unit {0})
  modify f s = (ok tt, f s)

  -- `if test { return Err(e); }`
  abbrev pub reject_if : Bool → AppError → Action S (Unit {0})
  reject_if test e s = (if test then err e else ok tt, s)

  -- `if let Some(a) = option { … }`
  abbrev pub for_some : {A : Type 0} → Option A → (A → Action S (Unit {0})) → Action S (Unit {0})
  for_some none f s = (ok tt, s)
  for_some (some a) f s = f a s

-- `check?`, a check that reads the state
abbrev pub guarded : {S : Type 0} → (S → AppResult (Unit {0})) → Action S (Unit {0})
guarded check s = (check s, s)

-- `f(&state).await?`, which only reads
abbrev pub reads : {S A : Type 0} → (S → AppResult A) → Action S A
reads f s = (f s, s)

-- An action keeps a property of the state, also where it fails.
unfoldable pub Keeps : {S A : Type 0} → (S → Type 0) → Action S A → Type 0
Keeps P m = (s : _) → P s → P (m s).1

module _ {S : Type 0} (P : S → Type 0) where
  pub resume-Keeps :
      {A B : Type 0} (f : A → Action S B)
      → ((a : A) → Keeps P (f a))
      → (r : AppResult A) (s : S) → P s
      → P (resume r f s).1
  unfolding Keeps
  resume-Keeps f k (ok a) s h = k a s h
  resume-Keeps f k (err e) s h = h

  pub bind-Keeps :
      {A B : Type 0} (m : Action S A) (f : A → Action S B)
      → Keeps P m
      → ((a : A) → Keeps P (f a))
      → Keeps P (m >>= f)
  unfolding Keeps
  bind-Keeps m f h k s p = resume-Keeps f k (m s).0 (m s).1 (h s p)

  pub reject_if-Keeps : (test : Bool) (e : AppError) → Keeps P (reject_if test e)
  unfolding Keeps
  reject_if-Keeps test e s p = p

  pub for_some-Keeps :
      {A : Type 0} (o : Option A) (f : A → Action S (Unit {0}))
      → ((a : A) → Keeps P (f a))
      → Keeps P (for_some o f)
  unfolding Keeps
  for_some-Keeps none f k s p = p
  for_some-Keeps (some a) f k s p = k a s p

  pub ok_or-Keeps : {A : Type 0} (o : Option A) (e : AppError) → Keeps P (ok_or o e)
  unfolding Keeps
  ok_or-Keeps o e s p = p

  pub gets-Keeps : {A : Type 0} (f : S → A) → Keeps P (gets f)
  unfolding Keeps
  gets-Keeps f s p = p

  pub guarded-Keeps : (f : S → AppResult (Unit {0})) → Keeps P (guarded f)
  unfolding Keeps
  guarded-Keeps f s p = p

  pub reads-Keeps : {A : Type 0} (f : S → AppResult A) → Keeps P (reads f)
  unfolding Keeps
  reads-Keeps f s p = p

  pub pure-Keeps : {A : Type 0} (a : A) → Keeps P (pure a)
  unfolding Keeps
  pure-Keeps a s p = p

  pub fail-Keeps : (A : Type 0) (e : AppError) → Keeps P (fail {A = A} e)
  unfolding Keeps
  fail-Keeps A e s p = p

  pub modify-Keeps : (f : S → S) → ((s : S) → P s → P (f s)) → Keeps P (modify f)
  unfolding Keeps
  modify-Keeps f k s p = k s p

-- `Keeps` as a record, so that a chain of steps is written as one.
pub record Chain {S B : Type 0} (P : S → Type 0) (m : Action S B) : Type 0 where
  pub keeps : Keeps P m

infixr 6 ◌▸◌
pub ◌▸◌ :
    {S B : Type 0} {P : S → Type 0} {m : Action S (Unit {0})} {k : Action S B}
    → Chain P m
    → Chain P k
    → Chain P (m >> k)
◌▸◌ {P = P} {m = m} {k = k} h g = record { keeps = bind-Keeps P m (λ _. k) h.keeps (λ _. g.keeps) }

-- Where an action that runs from `s` succeeds, its result and the new state have a property.
unfoldable pub Ensures : {S A : Type 0} → (A → S → Type 0) → Action S A → S → Type 0
Ensures Q m s = (a : _) → (m s).0 ≡ ok a → Q a (m s).1

module _ {S B : Type 0} (Q : B → S → Type 0) where
  resume-Ensures :
      {A : Type 0} (f : A → Action S B) (r : AppResult A) (s : S)
      → ((a : A) → r ≡ ok a → Ensures Q (f a) s)
      → (b : B) → (resume r f s).0 ≡ ok b
      → Q b (resume r f s).1
  unfolding Ensures
  resume-Ensures f (ok a) s k b e = k a refl b e
  resume-Ensures f (err x) s k b e = cc

  pub bind-Ensures :
      {A : Type 0} (m : Action S A) (f : A → Action S B) (s : S)
      → ((a : A) → (m s).0 ≡ ok a → Ensures Q (f a) (m s).1)
      → Ensures Q (m >>= f) s
  unfolding Ensures
  bind-Ensures m f s k b e = resume-Ensures f (m s).0 (m s).1 k b e

  pub pure-Ensures : (b : B) (s : S) → Q b s → Ensures Q (pure b) s
  unfolding Ensures
  pure-Ensures b s q c e = let same : b ≡ c = cc in rw (sym same) q

  pub Ensures-map :
      (P : B → S → Type 0) (m : Action S B) (s : S)
      → ((b : B) (t : S) → P b t → Q b t)
      → Ensures P m s
      → Ensures Q m s
  unfolding Ensures
  Ensures-map P m s f p b e = f b (m s).1 (p b e)

-- A property of the result and the state after a sequence, from one of each part: where the first
-- part fails, and of the second after a first that succeeds.
module _ {S A B : Type 0} (Q : AppResult B → S → Type 0) where
  resume-Outcome :
      (f : A → Action S B) (r : AppResult A) (s : S)
      → ((e : AppError) → r ≡ err e → Q (err e) s)
      → ((a : A) → r ≡ ok a → Q (f a s).0 (f a s).1)
      → Q (resume r f s).0 (resume r f s).1
  resume-Outcome f (ok a) s g h = h a refl
  resume-Outcome f (err e) s g h = g e refl

  pub bind-Outcome :
      (m : Action S A) (f : A → Action S B) (s : S)
      → ((e : AppError) → (m s).0 ≡ err e → Q (err e) (m s).1)
      → ((a : A) → (m s).0 ≡ ok a → Q (f a (m s).1).0 (f a (m s).1).1)
      → Q ((m >>= f) s).0 ((m >>= f) s).1
  bind-Outcome m f s g h = resume-Outcome f (m s).0 (m s).1 g h

-- Where a sequence succeeds, both parts do, one after the other.
module _ {S B : Type 0} where
  resume-ok :
      (k : Action S B) (r : AppResult (Unit {0})) (s : S) (b : B)
      → (resume r (λ _. k) s).0 ≡ ok b
      → (r ≡ ok tt) × ((k s).0 ≡ ok b) × ((resume r (λ _. k) s).1 ≡ (k s).1)
  resume-ok k (ok a) s b e = (refl, e, refl)
  resume-ok k (err x) s b e = absurd (cc)

  pub then-ok :
      (m : Action S (Unit {0})) (k : Action S B) (s : S) (b : B)
      → ((m >> k) s).0 ≡ ok b
      → ((m s).0 ≡ ok tt) × ((k (m s).1).0 ≡ ok b) × (((m >> k) s).1 ≡ (k (m s).1).1)
  then-ok m k s b e = resume-ok k (m s).0 (m s).1 b e
