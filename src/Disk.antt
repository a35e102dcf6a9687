-- ===== src/Disk.antt =====
-- The file system, as the standard library and POSIX document the calls of backend/src/cli.rs on it: a
-- path leads to a file, a directory or nothing. Every call can fail, as the next of the `outcomes`
-- says. A rename, or a call on one entry, that fails has done nothing; a copy or a removal that fails
-- leaves anything at its path and below it. There are no symbolic links.
pub mod Locality
pub mod Effects
use unver.Prelude.{
  ◌≡◌, ℕ, Bool, true, false, ◌&&◌, Option, none, some, List, [], ◌∷◌, ◌++◌, Text, text_eq, is_some,
  length, drop, if◌then◌else◌,
}
use unver.Prelude.Int.{ℤ}
use unver.Errors.{AppResult, ok, err, internal}
use unver.Action.{Action, pure, ◌>>=◌, ◌>>◌}

-- The names from the root to the entry.
abbrev pub FilePath : Type 0
FilePath = List Text

-- A file has its bytes and its permission bits.
pub data Entry : Type 0 where
  file : Text → ℕ → Entry
  dir : Entry

abbrev pub Files : Type 0
Files = FilePath → Option Entry

pub data Outcome : Type 0 where
  done : Outcome
  failed : Files → Outcome

-- `ran` holds the commands that were started, and `killed` the processes that were sent SIGTERM.
pub record Disk : Type 0 where
  pub files : Files
  pub outcomes : List Outcome
  pub ran : List (List Text)
  pub killed : List ℤ

-- The second path is the first or lies below it.
abbrev pub is_under : FilePath → FilePath → Bool
is_under [] q = true
is_under (x ∷ p) [] = false
is_under (x ∷ p) (y ∷ q) = text_eq x y && is_under p q

abbrev pub same_path : FilePath → FilePath → Bool
same_path [] [] = true
same_path [] (y ∷ q) = false
same_path (x ∷ p) [] = false
same_path (x ∷ p) (y ∷ q) = text_eq x y && same_path p q

abbrev pub put : FilePath → Entry → Files → Files
put p e files q = if same_path p q then some e else files q

-- The first files at and below a path, the second elsewhere.
abbrev pub within : FilePath → Files → Files → Files
within p inner files q = if is_under p q then inner q else files q

abbrev pub cleared : FilePath → Files → Files
cleared p files = within p (λ q. none) files

abbrev pub moved : FilePath → FilePath → Files → Files
moved p q files x =
    if is_under q x then files (p ++ drop (length q) x) else if is_under p x then none else files x

abbrev pub effect : Option Files → List Outcome → Action Disk (Unit {0})
effect none rest d = (err internal, record d { outcomes = rest })
effect (some files) rest d = (ok tt, record d { files = files; outcomes = rest })

abbrev pub settle :
    List Outcome → (Files → Files → Files) → (Files → Option Files) → Action Disk (Unit {0})
settle [] spoil f d = effect (f d.files) [] d
settle (done ∷ rest) spoil f d = effect (f d.files) rest d
settle (failed junk ∷ rest) spoil f d =
    (err internal, record d { files = spoil junk d.files; outcomes = rest })

-- A call: what a failure leaves, and what a success does, `none` where there can be none.
unfoldable pub operate : (Files → Files → Files) → (Files → Option Files) → Action Disk (Unit {0})
operate spoil f d = settle d.outcomes spoil f d

abbrev pub untouched : Files → Files → Files
untouched junk files = files

-- `std::fs::copy` of a file with these bytes and permissions, and `File::create`
abbrev pub written : FilePath → Entry → Files → Option Files
written p e files = elim (files p) [
  | none ↦ some (put p e files)
  | some old ↦ elim old [ file b m ↦ some (put p e files) | dir ↦ none ]
]

abbrev pub copy_file : Entry → FilePath → Action Disk (Unit {0})
copy_file e p = operate (within p) (written p e)

abbrev pub with_mode : FilePath → ℕ → Files → Option Files
with_mode p mode files = elim (files p) [
  | none ↦ none
  | some old ↦ elim old [ file b m ↦ some (put p (file b mode) files) | dir ↦ some files ]
]

abbrev pub set_permissions : FilePath → ℕ → Action Disk (Unit {0})
set_permissions p mode = operate untouched (with_mode p mode)

-- A file takes the place of a file; nothing is renamed over a directory.
abbrev pub can_replace : Entry → Option Entry → Bool
can_replace e none = true
can_replace (file b m) (some (file c n)) = true
can_replace (file b m) (some dir) = false
can_replace dir (some old) = false

abbrev pub renamed : FilePath → FilePath → Files → Option Files
renamed p q files = elim (files p) [
  | none ↦ none
  | some e ↦ if can_replace e (files q) then some (moved p q files) else none
]

abbrev pub rename : FilePath → FilePath → Action Disk (Unit {0})
rename p q = operate untouched (renamed p q)

abbrev pub without_file : FilePath → Files → Option Files
without_file p files = elim (files p) [
  | none ↦ none
  | some old ↦ elim old [ file b m ↦ some (cleared p files) | dir ↦ none ]
]

abbrev pub remove_file : FilePath → Action Disk (Unit {0})
remove_file p = operate untouched (without_file p)

abbrev pub without_dir : FilePath → Files → Option Files
without_dir p files = elim (files p) [
  | none ↦ none
  | some old ↦ elim old [ file b m ↦ none | dir ↦ some (cleared p files) ]
]

abbrev pub remove_dir_all : FilePath → Action Disk (Unit {0})
remove_dir_all p = operate (within p) (without_dir p)

-- Where the parent is there.
abbrev pub with_dir : FilePath → Files → Option Files
with_dir p files = elim (files p) [
  | none ↦ some (put p dir files)
  | some old ↦ elim old [ file b m ↦ none | dir ↦ some files ]
]

abbrev pub create_dir_all : FilePath → Action Disk (Unit {0})
create_dir_all p = operate untouched (with_dir p)

-- `if p.exists() { … }`
abbrev pub when_exists : FilePath → Action Disk (Unit {0}) → Action Disk (Unit {0})
when_exists p m d = if is_some (d.files p) then m d else (ok tt, d)

-- `let _ = …`, and `if ….is_ok()` around a message
abbrev pub ignore_error : Action Disk (Unit {0}) → Action Disk (Unit {0})
ignore_error m d = (ok tt, (m d).1)

-- What is there lies in directories.
abbrev pub IsClosed : Files → Type 0
IsClosed files =
    (p : FilePath) (n : Text) (q : FilePath) (e : Entry)
    → files (p ++ n ∷ q) ≡ some e
    → files p ≡ some dir
