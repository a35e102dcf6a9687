-- ===== src/Disk/Effects.antt =====
-- What a call on the file system that succeeds has done, and that a call on one entry that fails has
-- done nothing.
use unver.Prelude.{
  ℕ, ◌≡◌, refl, true, false, Option, none, some, List, [], ◌∷◌, ◌++◌, Text, text_eq_refl,
  Option-cases, inl, inr, length, drop, arith,
}
use mathlib.Core.List.{append-nil}
use unver.Errors.{AppError, ok, err}
use unver.Disk.{
  FilePath, Entry, file, dir, Files, IsClosed, Outcome, done, failed, Disk, is_under, same_path,
  put, within, moved, operate, effect, settle, untouched, written, copy_file, with_mode,
  set_permissions, renamed, rename, without_dir, remove_dir_all, with_dir, create_dir_all,
}
use unver.Disk.Locality.{At, is_under_self}

effect-ok :
    (o : Option Files) (rest : List Outcome) (d : Disk)
    → (effect o rest d).0 ≡ ok tt
    → o ≡ some (effect o rest d).1.files
effect-ok none rest d e = cc
effect-ok (some after) rest d e = refl

effect-err :
    (o : Option Files) (rest : List Outcome) (d : Disk) (x : AppError)
    → (effect o rest d).0 ≡ err x
    → (effect o rest d).1.files ≡ d.files
effect-err none rest d x e = refl
effect-err (some after) rest d x e = cc

pub same_path_self : (p : FilePath) → same_path p p ≡ true
same_path_self [] = refl
same_path_self (x ∷ p) = rw (text_eq_refl x) (same_path_self p)

drop_all : (q : FilePath) → drop (length q) q ≡ []
drop_all [] = refl
drop_all (x ∷ q) = drop_all q

moved_target : (p q : FilePath) (files : Files) → moved p q files q ≡ files p
moved_target p q files = rw (is_under_self q, drop_all q, append-nil p) refl

-- What a call that succeeds has done, and that a call on one entry that fails has done nothing.
settle-ok :
    (rest : List Outcome) (spoil : Files → Files → Files) (f : Files → Option Files) (d : Disk)
    → (settle rest spoil f d).0 ≡ ok tt
    → f d.files ≡ some (settle rest spoil f d).1.files
settle-ok [] spoil f d e = effect-ok (f d.files) [] d e
settle-ok (done ∷ rest) spoil f d e = effect-ok (f d.files) rest d e
settle-ok (failed junk ∷ rest) spoil f d e = cc

settle-err :
    (rest : List Outcome) (f : Files → Option Files) (d : Disk) (x : AppError)
    → (settle rest untouched f d).0 ≡ err x
    → (settle rest untouched f d).1.files ≡ d.files
settle-err [] f d x e = effect-err (f d.files) [] d x e
settle-err (done ∷ rest) f d x e = effect-err (f d.files) rest d x e
settle-err (failed junk ∷ rest) f d x e = refl

module _ (spoil : Files → Files → Files) (f : Files → Option Files) (d : Disk) where
  operate-ok : (operate spoil f d).0 ≡ ok tt → f d.files ≡ some (operate spoil f d).1.files
  unfolding operate
  operate-ok e = settle-ok d.outcomes spoil f d e

pub copy_file-At :
    (e : Entry) (p : FilePath) (d : Disk)
    → (copy_file e p d).0 ≡ ok tt
    → At p (some e) (copy_file e p d).1
copy_file-At e p d o =
    let w = operate-ok (within p) (written p e) d o in ground (arith, same_path_self p)

pub set_permissions-At :
    (p : FilePath) (b : Text) (m mode : ℕ) (d : Disk)
    → At p (some (file b m)) d
    → (set_permissions p mode d).0 ≡ ok tt
    → At p (some (file b mode)) (set_permissions p mode d).1
set_permissions-At p b m mode d h o =
    let w = operate-ok untouched (with_mode p mode) d o in ground (arith, same_path_self p)

pub rename-At :
    (p q : FilePath) (e : Entry) (d : Disk)
    → At p (some e) d
    → (rename p q d).0 ≡ ok tt
    → At q (some e) (rename p q d).1
rename-At p q e d h o =
    let w = operate-ok untouched (renamed p q) d o in ground (arith, moved_target p q d.files)

pub rename-err :
    (p q : FilePath) (d : Disk) (x : AppError)
    → (rename p q d).0 ≡ err x
    → (rename p q d).1.files ≡ d.files
unfolding operate
rename-err p q d x e = settle-err d.outcomes (renamed p q) d x e

-- A file or a directory that was not there stands alone in its place.
pub copy_file-put :
    (e : Entry) (p : FilePath) (d : Disk)
    → d.files p ≡ none
    → (copy_file e p d).0 ≡ ok tt
    → (copy_file e p d).1.files ≡ put p e d.files
copy_file-put e p d h o = let w = operate-ok (within p) (written p e) d o in ground arith

pub create_dir_all-put :
    (p : FilePath) (d : Disk)
    → d.files p ≡ none
    → (create_dir_all p d).0 ≡ ok tt
    → (create_dir_all p d).1.files ≡ put p dir d.files
create_dir_all-put p d h o = let w = operate-ok untouched (with_dir p) d o in ground arith

pub same_path-append : (p : FilePath) (n : Text) (r : FilePath) → same_path p (p ++ n ∷ r) ≡ false
same_path-append [] n r = refl
same_path-append (x ∷ p) n r = rw (text_eq_refl x) (same_path-append p n r)

pub is_under-shorter : (p : FilePath) (n : Text) → is_under (p ++ n ∷ []) p ≡ false
is_under-shorter [] n = refl
is_under-shorter (x ∷ p) n = rw (text_eq_refl x) (is_under-shorter p n)

pub is_under-append : (p r : FilePath) → is_under p (p ++ r) ≡ true
is_under-append [] r = refl
is_under-append (x ∷ p) r = rw (text_eq_refl x) (is_under-append p r)

drop-append : (p r : FilePath) → drop (length p) (p ++ r) ≡ r
drop-append [] r = refl
drop-append (x ∷ p) r = drop-append p r

pub remove_dir_all-cleared :
    (p r : FilePath) (d : Disk)
    → (remove_dir_all p d).0 ≡ ok tt
    → (remove_dir_all p d).1.files (p ++ r) ≡ none
remove_dir_all-cleared p r d o =
    let w = operate-ok (within p) (without_dir p) d o in ground (arith, is_under-append p r)

-- What lay below a directory lies below its new name.
pub rename-below :
    (p q r : FilePath) (d : Disk)
    → (rename p q d).0 ≡ ok tt
    → (rename p q d).1.files (q ++ r) ≡ d.files (p ++ r)
rename-below p q r d o =
    let w = operate-ok untouched (renamed p q) d o in
    let m : moved p q d.files (q ++ r) ≡ d.files (p ++ r) =
      rw (is_under-append q r, drop-append q r) refl in
    ground (arith, m)

-- Below what is not there nothing is.
pub nothing_below :
    (p r : FilePath) (files : Files) → IsClosed files → files p ≡ none → files (p ++ r) ≡ none
nothing_below p [] files closed h = rw (append-nil p) h
nothing_below p (n ∷ r) files closed h = elim (Option-cases (files (p ++ n ∷ r))) [
  | inl e ↦ e
  | inr (x, e) ↦ absurd (cc (closed p n r x e))
]
