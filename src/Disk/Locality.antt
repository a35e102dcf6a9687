-- ===== src/Disk/Locality.antt =====
-- Which entries a call on the file system leaves alone.
use unver.Prelude.{
  ℕ, ◌≡◌, refl, ◌∙◌, true, false, Option, none, some, List, [], ◌∷◌, ◌++◌, Text, text_eq,
  text_eq_refl, Bool-cases, inl, inr, is_some, arith,
}
use unver.Action.{Action, Keeps}
use unver.Disk.{
  FilePath, Entry, dir, Files, Outcome, done, failed, Disk, is_under, same_path, put, within, moved,
  operate, effect, settle, untouched, written, copy_file, with_mode, set_permissions, renamed,
  rename, without_file, remove_file, without_dir, remove_dir_all, with_dir, create_dir_all,
  when_exists, ignore_error,
}

pub same_path→is_under : (p q : FilePath) → is_under p q ≡ false → same_path p q ≡ false
same_path→is_under [] q h = cc
same_path→is_under (x ∷ p) [] h = refl
same_path→is_under (x ∷ p) (y ∷ q) h = ground (arith, same_path→is_under p q)

pub is_under_self : (p : FilePath) → is_under p p ≡ true
is_under_self [] = refl
is_under_self (x ∷ p) = rw (text_eq_refl x) (is_under_self p)

pub is_under-sibling :
    (parent : FilePath) (m n : Text) (rest : FilePath)
    → is_under (parent ++ m ∷ []) (parent ++ n ∷ rest) ≡ text_eq m n
is_under-sibling [] m n rest = ground arith
is_under-sibling (x ∷ parent) m n rest = rw (text_eq_refl x) (is_under-sibling parent m n rest)

-- An entry is what it was.
abbrev pub At : FilePath → Option Entry → Disk → Type 0
At x v d = d.files x ≡ v

module _ (x : FilePath) (v : Option Entry) where
  abbrev pub Local : (Files → Option Files) → Type 0
  Local f = (files after : Files) → f files ≡ some after → after x ≡ files x

  effect-At :
      (o : Option Files) (rest : List Outcome) (d : Disk)
      → At x v d
      → ((after : Files) → o ≡ some after → after x ≡ v)
      → At x v (effect o rest d).1
  effect-At none rest d h k = h
  effect-At (some after) rest d h k = k after refl

  settle-At :
      (rest : List Outcome) (spoil : Files → Files → Files) (f : Files → Option Files)
      → ((junk files : Files) → spoil junk files x ≡ files x)
      → Local f
      → (d : Disk) → At x v d
      → At x v (settle rest spoil f d).1
  settle-At [] spoil f s l d h = effect-At (f d.files) [] d h λ after e. l d.files after e ∙ h
  settle-At (done ∷ rest) spoil f s l d h =
      effect-At (f d.files) rest d h λ after e. l d.files after e ∙ h
  settle-At (failed junk ∷ rest) spoil f s l d h = s junk d.files ∙ h

  pub operate-Keeps :
      (spoil : Files → Files → Files) (f : Files → Option Files)
      → ((junk files : Files) → spoil junk files x ≡ files x)
      → Local f
      → Keeps (At x v) (operate spoil f)
  unfolding Keeps operate
  operate-Keeps spoil f s l d h = settle-At d.outcomes spoil f s l d h

  pub when_exists-Keeps :
      (p : FilePath) (m : Action Disk (Unit {0}))
      → Keeps (At x v) m
      → Keeps (At x v) (when_exists p m)
  unfolding Keeps
  when_exists-Keeps p m k d h = elim (Bool-cases (is_some (d.files p))) [
    | inl y ↦ rw y (k d h)
    | inr n ↦ rw n h
  ]

  pub ignore_error-Keeps :
      (m : Action Disk (Unit {0})) → Keeps (At x v) m → Keeps (At x v) (ignore_error m)
  unfolding Keeps
  ignore_error-Keeps m k d h = k d h

  module _ (p : FilePath) (away : is_under p x ≡ false) where
    put-elsewhere : (e : Entry) (files : Files) → put p e files x ≡ files x
    put-elsewhere e files = rw (same_path→is_under p x away) refl

    within-elsewhere : (inner files : Files) → within p inner files x ≡ files x
    within-elsewhere inner files = rw away refl

    written-Local : (e : Entry) → Local (written p e)
    written-Local e files after q = ground (arith, put-elsewhere e files)

    pub copy_file-Keeps : (e : Entry) → Keeps (At x v) (copy_file e p)
    copy_file-Keeps e = operate-Keeps (within p) (written p e) within-elsewhere (written-Local e)

    with_mode-Local : (mode : _) → Local (with_mode p mode)
    with_mode-Local mode files after q = grind (arith, put-elsewhere)

    pub set_permissions-Keeps : (mode : ℕ) → Keeps (At x v) (set_permissions p mode)
    set_permissions-Keeps mode =
        operate-Keeps untouched (with_mode p mode) (λ junk files. refl) (with_mode-Local mode)

    without_dir-Local : Local (without_dir p)
    without_dir-Local files after q = ground (arith, within-elsewhere (λ y. none) files)

    pub remove_dir_all-Keeps : Keeps (At x v) (remove_dir_all p)
    remove_dir_all-Keeps =
        operate-Keeps (within p) (without_dir p) within-elsewhere without_dir-Local

    without_file-Local : Local (without_file p)
    without_file-Local files after q = ground (arith, within-elsewhere (λ y. none) files)

    pub remove_file-Keeps : Keeps (At x v) (remove_file p)
    remove_file-Keeps =
        operate-Keeps untouched (without_file p) (λ junk files. refl) without_file-Local

    with_dir-Local : Local (with_dir p)
    with_dir-Local files after q = ground (arith, put-elsewhere dir files)

    pub create_dir_all-Keeps : Keeps (At x v) (create_dir_all p)
    create_dir_all-Keeps = operate-Keeps untouched (with_dir p) (λ junk files. refl) with_dir-Local

    module _ (q : FilePath) (away_too : is_under q x ≡ false) where
      moved-elsewhere : (files : Files) → moved p q files x ≡ files x
      moved-elsewhere files = rw (away_too, away) refl

      renamed-Local : Local (renamed p q)
      renamed-Local files after e = grind (arith, moved-elsewhere files)

      pub rename-Keeps : Keeps (At x v) (rename p q)
      rename-Keeps = operate-Keeps untouched (renamed p q) (λ junk files. refl) renamed-Local
