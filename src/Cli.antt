-- ===== src/Cli.antt =====
-- The command line: backend/src/cli.rs. The directory /proc, the lines that are typed and the Unix time are
-- arguments; what is printed is left out, but for the outcome. An error of `anyhow` is `internal`.
pub mod Update
pub mod Remove
pub mod Password
pub mod Replaced
pub mod Copied
pub mod Static
pub mod Unpacking
pub mod Download
pub mod Whole
pub mod Elsewhere
pub mod Removed
pub mod Sessions
pub mod Processes
use unver.Prelude.{
  ℕ, ◌-◌, ◌^◌, Bool, true, false, not, ◌&&◌, ◌||◌, ◌==◌, Option, none, some, List, [], ◌∷◌, ◌++◌,
  Text, codes, text_eq, contains, ltb, map, if◌then◌else◌,
}
use unver.Prelude.Int.{ℤ, pos, negsuc, parse_uint}
use unver.Prelude.Trim.{trim}
use unver.Errors.{AppResult, ok, err}
use unver.Disk.{Disk}
use unver.Action.{Action}

pub data Commands : Type 0 where
  start : Commands
  version : Commands
  update : Commands
  restart : Commands
  status : Commands
  uninstall : Commands
  reset_password : Commands

-- `read_number`, from what the calls of `read_line` give, one after another, `none` where one fails. It
-- is `none` as long as no line is a number.
unfoldable pub read_number : List (Option Text) → Option ℕ
read_number [] = none
read_number (none ∷ reads) = read_number reads
read_number (some input ∷ reads) =
    let rest = read_number reads in
    elim (parse_uint 255 (trim input)) [ some n ↦ some n | none ↦ rest ]

-- What the choices of the menu run, `none` for those that only print.
unfoldable pub menu_command : ℕ → Option Commands
menu_command choice =
    if choice == 1
    then some start
    else if choice == 2
    then some status
    else if choice == 3
    then some restart
    else if choice == 4
    then some update
    else if choice == 5
    then some version
    else if choice == 6
    then some reset_password
    else if choice == 7
    then some uninstall
    else none

-- An entry of /proc: its name and where its `exe` leads, `none` where that cannot be read.
pub record ProcEntry : Type 0 where
  pub name : Text
  pub exe : Option Text

abbrev pub runs_unver : Text → Option Text → Bool
runs_unver path none = false
runs_unver path (some exe) = contains exe (codes "unver") || text_eq exe path

abbrev pub keep_pid : Text → ℕ → Option Text → Option ℕ → List ℕ → List ℕ
keep_pid path own exe none pids = pids
keep_pid path own exe (some pid) pids =
    if pid == own then pids else if runs_unver path exe then pid ∷ pids else pids

-- `none` for a directory that cannot be read.
unfoldable pub find_unver_pids : Option (List ProcEntry) → Text → ℕ → List ℕ
find_unver_pids none path own = []
find_unver_pids (some []) path own = []
find_unver_pids (some (e ∷ entries)) path own =
    keep_pid path own e.exe (parse_uint (2 ^ 32 - 1) e.name)
      (find_unver_pids (some entries) path own)

-- `pid as i32`
abbrev pub as_i32 : ℕ → ℤ
as_i32 n = if ltb n (2 ^ 31) then pos n else negsuc (2 ^ 32 - 1 - n)

abbrev pub kill_all : List ℕ → Disk → Disk
kill_all pids d = record d { killed = d.killed ++ map as_i32 pids }

-- The process's own number and executable, as texts of the system.
unfoldable pub restart_service :
    Option (List ProcEntry) → ℕ → AppResult Text → Action Disk (Unit {0})
restart_service entries own (err e) d = (err e, d)
restart_service entries own (ok exe) d = (ok tt, kill_all (find_unver_pids entries exe own) d)
