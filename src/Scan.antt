-- ===== src/Scan.antt =====
-- A run of Rust code that returns an `Option`: it goes on with a value, returns `None` early,
-- panics on an index out of bounds, or meets the bound that the model puts on a loop.
use unver.Prelude.{
  ℕ, ◌+◌, ◌<◌, ◌≡◌, refl, Bool, true, false, Option, none, some, List, leb, length, get_elem?,
  get_elem?-total, take, drop, if◌then◌else◌,
}

pub data Parse {ℓ} (A : Type ℓ) : Type ℓ where
  go : A → Parse A
  quit panic out_of_fuel : Parse A

infixl 5 ◌>>=◌ ◌>>◌
abbrev pub ◌>>=◌ {ℓ κ} : {A : Type ℓ} {B : Type κ} → Parse A → (A → Parse B) → Parse B
go a >>= f = f a
quit >>= f = quit
panic >>= f = panic
out_of_fuel >>= f = out_of_fuel

abbrev pub ◌>>◌ {ℓ} : {B : Type ℓ} → Parse (Unit {0}) → Parse B → Parse B
m >> k = m >>= λ _. k

-- `if test { return None; }`
abbrev pub bail : Bool → Parse (Unit {0})
bail true = quit
bail false = go tt

abbrev or_panic {ℓ} : {A : Type ℓ} → Option A → Parse A
or_panic none = panic
or_panic (some a) = go a

-- `buf[i]`
abbrev pub at : List ℕ → ℕ → Parse ℕ
at buf i = or_panic (get_elem? buf i)

-- `buf[pos..pos + n].to_vec()`
abbrev pub slice : List ℕ → ℕ → ℕ → Parse (List ℕ)
slice buf pos n = if leb (pos + n) (length buf) then go (take n (drop pos buf)) else panic

-- The run ends by itself and without a panic.
pub data Finishes {ℓ} {A : Type ℓ} : Parse A → Type ℓ where
  went : (a : A) → Finishes (go a)
  quits : Finishes quit

module _ {ℓ} {B : Type ℓ} where
  pub bail-Finishes :
      (test : Bool) (k : Parse B) → (test ≡ false → Finishes k) → Finishes (bail test >> k)
  bail-Finishes true k h = quits
  bail-Finishes false k h = h refl

  pub at-Finishes :
      (buf : List ℕ) (i : ℕ) (f : ℕ → Parse B)
      → i < length buf
      → ((b : ℕ) → Finishes (f b))
      → Finishes (at buf i >>= f)
  at-Finishes buf i f inside h = let (b, e) = get_elem?-total buf i inside in rw e (h b)

  pub slice-Finishes :
      (buf : List ℕ) (pos n : ℕ) (f : List ℕ → Parse B)
      → leb (pos + n) (length buf) ≡ true
      → ((bs : List ℕ) → Finishes (f bs))
      → Finishes (slice buf pos n >>= f)
  slice-Finishes buf pos n f inside h = rw inside (h _)
