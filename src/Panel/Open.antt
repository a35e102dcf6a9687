-- ===== src/Panel/Open.antt =====
-- Which files the panel's file service of backend/src/api/mod.rs gives out.
use unver.Prelude.{
  ℕ, zero, suc, ◌<◌, ◌≡◌, refl, ap, ◌∙◌, Bool, true, false, some, List, [], ◌∷◌, ◌++◌, Text, codes,
  text_eq, is_empty, length, length-append, replicate, split_on, All, All-append, arith,
}
use mathlib.Core.List.{append_assoc, append-nil}
use unver.Prelude.Join.{Free, join_with, split_on-join_with}
use unver.Disk.{FilePath, Entry, file, dir, Files, IsClosed}
use unver.Cli.Update.{parent_of}
use unver.Panel.{walk, trim_slashes, requested, spa_service}

-- A name that leads into its directory.
abbrev pub IsPlain : Text → Type 0
IsPlain n =
    (is_empty n ≡ false)
    × (text_eq n (codes ".") ≡ false)
    × (text_eq n (codes "..") ≡ false)
    × Free b'/' n

module _ (files : Files) (closed : IsClosed files) where
  walk_down :
      (p x : FilePath) (e : Entry)
      → All IsPlain x
      → files (p ++ x) ≡ some e
      → walk files p x ≡ some (p ++ x)
  unfolding walk
  walk_down p [] e h f = rw (append-nil p) refl
  walk_down p (n ∷ x) e ((a, b, c, s), h) f =
      let inner : files ((p ++ n ∷ []) ++ x) ≡ some e = rw (append_assoc p (n ∷ []) x) f in
      rw (closed p n x e f, a, b, c)
        (walk_down (p ++ n ∷ []) x e h inner ∙ ap some (append_assoc p (n ∷ []) x))

  snoc :
      (n : Text) (p : FilePath)
      → (last : Text) × ((n ∷ p) ≡ parent_of (n ∷ p) ++ last ∷ [])
        × (suc (length (parent_of (n ∷ p))) ≡ length (n ∷ p))
  snoc n [] = (n, refl, refl)
  snoc n (m ∷ p) = let (last, e, l) = snoc m p in (last, ap (λ r. n ∷ r) e, ap suc l)

  -- As many steps up as the directory is deep lead to the root.
  walk_up :
      (k : ℕ) (p x : FilePath)
      → length p ≡ k
      → files p ≡ some dir
      → walk files p (replicate k (codes "..") ++ x) ≡ walk files [] x
  unfolding walk
  walk_up zero [] x l d = refl
  walk_up zero (n ∷ p) x l d = absurd (omega arith)
  walk_up (suc k) [] x l d = absurd (omega arith)
  walk_up (suc k) (n ∷ p) x l d =
      let (last, e, m) = snoc n p in
      let above : files (parent_of (n ∷ p)) ≡ some dir =
        closed (parent_of (n ∷ p)) last [] dir (rw⁻¹ e d) in
      rw d (walk_up k (parent_of (n ∷ p)) x (omega arith) above)

abbrev IsPart : Text → Type 0
IsPart n = (is_empty n ≡ false) × Free b'/' n

All-parts : (x : List Text) → All IsPlain x → All IsPart x
All-parts [] h = tt
All-parts (n ∷ x) ((a, b, c, s), h) = ((a, s), All-parts x h)

replicate-parts : (k : ℕ) → All IsPart (replicate k (codes ".."))
replicate-parts zero = tt
replicate-parts (suc k) = ((refl, (refl, (refl, tt))), replicate-parts k)

All-Free : (x : List Text) → All IsPart x → All (Free b'/') x
All-Free [] h = tt
All-Free (n ∷ x) ((a, s), h) = (s, All-Free x h)

-- The path of a request that names these parts.
abbrev pub request_of : List Text → Text
request_of parts = b'/' ∷ join_with b'/' parts

trim_slashes-request :
    (parts : List Text)
    → 0 < length parts
    → All IsPart parts
    → trim_slashes (request_of parts) ≡ join_with b'/' parts
trim_slashes-request [] l h = absurd (omega arith)
trim_slashes-request ([] ∷ qs) l ((e, s), h) = cc
trim_slashes-request ((c ∷ q) ∷ qs) l ((e, (f, s)), h) = rw f refl

join-not_empty :
    (parts : List Text)
    → 0 < length parts
    → All IsPart parts
    → is_empty (join_with b'/' parts) ≡ false
join-not_empty [] l h = absurd (omega arith)
join-not_empty ([] ∷ qs) l ((e, s), h) = cc
join-not_empty ((c ∷ q) ∷ qs) l h = refl

split_on-parts :
    (parts : List Text)
    → 0 < length parts
    → All IsPart parts
    → split_on b'/' (join_with b'/' parts) ≡ parts
split_on-parts [] l h = absurd (omega arith)
split_on-parts (q ∷ qs) l h = split_on-join_with b'/' q qs (All-Free (q ∷ qs) h)

requested-request_of :
    (parts : List Text) → 0 < length parts → All IsPart parts → requested (request_of parts) ≡ parts
unfolding requested
requested-request_of parts l h =
    rw (trim_slashes-request parts l h, join-not_empty parts l h) (split_on-parts parts l h)

module _ (files : Files) (closed : IsClosed files) (can_read : FilePath → Bool)
    (static_dir : FilePath) where
  -- The parts that lead from the directory of the panel up to the root and down to a file.
  abbrev pub climb : FilePath → List Text
  climb x = replicate (length static_dir) (codes "..") ++ x

  -- Whoever asks is given any file of the disk that the process can read: the request climbs out of the
  -- directory of the panel. The directory is there, and the names of the path are plain.
  pub spa_service-climb :
      (n : Text) (x : FilePath) (bytes : Text) (mode : ℕ)
      → files static_dir ≡ some dir
      → All IsPlain (n ∷ x)
      → files (n ∷ x) ≡ some (file bytes mode)
      → can_read (n ∷ x) ≡ true
      → ((spa_service files can_read static_dir (request_of (climb (n ∷ x)))).status ≡ 200)
        × ((spa_service files can_read static_dir (request_of (climb (n ∷ x)))).body ≡ bytes)
  unfolding spa_service
  spa_service-climb n x bytes mode here plain there readable =
      let parts = climb (n ∷ x) in
      let long : 0 < length parts =
        omega (arith, length-append (replicate (length static_dir) (codes "..")) (n ∷ x)) in
      let h : All IsPart parts =
        All-append IsPart (replicate (length static_dir) (codes "..")) (n ∷ x)
          (replicate-parts (length static_dir)) (All-parts (n ∷ x) plain) in
      let found : walk files static_dir parts ≡ some (n ∷ x) =
        walk_up files closed (length static_dir) static_dir (n ∷ x) refl here
        ∙ walk_down files closed [] (n ∷ x) (file bytes mode) plain there in
      rw (spa_service, requested-request_of parts long h, found, there, readable) (refl, refl)
