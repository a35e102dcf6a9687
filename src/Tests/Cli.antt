-- ===== src/Tests/Cli.antt =====
-- Runs of the command line on concrete data.
use unver.Prelude.{
  false, Text, inl, inr, any, text_eq, Bool-cases, if◌then◌else◌, ◌≡◌, refl, none, some, List, [],
  ◌∷◌, ◌++◌, codes, replicate,
}
use unver.Prelude.Trim.{trim, trim_start, trim_end}
use unver.Prelude.Int.{parse_uint, parse_digits, pos}
use mathlib.Core.Path.{subst}
use unver.Errors.{ok, err, internal}
use unver.Disk.{
  FilePath, Entry, Files, Outcome, done, failed, Disk, put, is_under, cleared, operate,
}
use unver.Cli.{ProcEntry, read_number, find_unver_pids, restart_service}
use unver.Cli.Update.{
  file, dir, end, entry, Archive, Env, updated, detect_platform, find_url, copy_node, replace,
  replace_binary, replace_static, install, self_update, self_update_programmatic,
}
use unver.Cli.Replaced.{IsApart, Reported, self_update-Reported}
use unver.Cli.Elsewhere.{self_update_programmatic-elsewhere}
use unver.Cli.Remove.{uninstall}
use unver.Cli.Removed.{LeavesAlone, uninstall-spares}

abbrev bin : FilePath
bin = codes "opt" ∷ codes "unver" ∷ []

abbrev pub exe : FilePath
exe = bin ++ codes "unver" ∷ []

abbrev files : Files
files = put exe (Entry.file (codes "old") 0o755) (
    put (bin ++ codes "static" ∷ []) Entry.dir (
      put (bin ++ codes "static" ∷ codes "index.html" ∷ []) (Entry.file (codes "page") 0o644)
        (λ x. none)))

abbrev pub disk : List Outcome → Disk
disk outcomes = record { files = files; outcomes = outcomes; ran = []; killed = [] }

abbrev tmpdir : FilePath
tmpdir = codes "tmp" ∷ codes ".tmpA1b2C3" ∷ []

abbrev unpacked : Files
unpacked = put [] Entry.dir (
    put (codes "unver" ∷ []) (Entry.file (codes "new") 0o644) (
      put (codes "static" ∷ []) Entry.dir (
        put (codes "static" ∷ codes "index.html" ∷ []) (Entry.file (codes "next") 0o644)
          (λ x. none))))

abbrev archive : Archive
archive = record {
  binary = some (file (codes "new") 0o644);
  static_dir = some (dir (entry (codes "index.html") (file (codes "next") 0o644) end));
  tree = unpacked;
}

abbrev pub env : Env
env = record {
  current_version = codes "1.0.0";
  target_arch = codes "x86_64";
  target_env = codes "gnu";
  get_release = ok (record {
    tag_name = some (codes "v1.1.0");
    assets = some (
        record {
          name = some (codes "unver-linux-amd64.tar.gz");
          browser_download_url = some (codes "u");
        }
        ∷ []);
  });
  get_bytes = λ url. ok (codes "bytes");
  unpack = λ bytes. ok archive;
  tempdir = ok tmpdir;
  current_exe = ok exe;
  current_exe_after = ok (bin ++ codes "unver (deleted)" ∷ []);
}

-- A run in which nothing fails, and one in which the rename of the executable does.
updates :
    ((self_update env (disk [])).0 ≡ ok (updated (codes "1.1.0")))
    × ((self_update env (disk [])).1.files exe ≡ some (Entry.file (codes "new") 0o755))
    × ((self_update env (disk [])).1.files (bin ++ codes "static" ∷ codes "index.html" ∷ [])
        ≡ some (Entry.file (codes "next") 0o644))
    × ((self_update env (disk [])).1.files (bin ++ codes ".static.old" ∷ []) ≡ none)
    × ((self_update env (disk [])).1.files (tmpdir ++ codes "unver.tar.gz" ∷ []) ≡ none)
unfolding self_update install replace replace_binary replace_static copy_node operate find_url
    detect_platform
updates = (refl, refl, refl, refl, refl)

abbrev pub broken : Disk
broken = disk (done ∷ done ∷ done ∷ done ∷ done ∷ done ∷ failed files ∷ [])

fails : (self_update env broken).0 ≡ err internal
unfolding self_update install replace replace_binary operate find_url detect_platform
fails = refl

pub env-IsApart : IsApart env exe
env-IsApart t e = let same : tmpdir ≡ t = cc in subst (λ q. is_under q exe ≡ false) same refl

self_update-Reported_example :
    Reported env exe broken (self_update env broken).0 (self_update env broken).1
self_update-Reported_example =
    self_update-Reported env exe (refl, refl, refl, refl) env-IsApart refl broken

self_update_programmatic-elsewhere_example :
    (self_update_programmatic env broken).1.files (codes "etc" ∷ codes "passwd" ∷ [])
    ≡ files (codes "etc" ∷ codes "passwd" ∷ [])
self_update_programmatic-elsewhere_example =
    self_update_programmatic-elsewhere env exe tmpdir (codes "etc" ∷ codes "passwd" ∷ []) broken
      refl refl refl (refl, refl, refl, refl, refl)

abbrev entries : List ProcEntry
entries =
    record { name = codes "12"; exe = some (codes "/opt/unver/unver") }
    ∷ record { name = codes "13"; exe = some (codes "/home/a/unverified/editor") }
    ∷ record { name = codes "self"; exe = none }
    ∷ []

-- The process 13 is not of the service, and is signalled.
signals :
    (restart_service (some entries) 12 (ok (codes "/opt/unver/unver")) (disk [])).1.killed
    ≡ pos 13 ∷ []
unfolding restart_service find_unver_pids parse_uint parse_digits
signals = refl

-- Disabling the service removes the link that enables it.
abbrev link : FilePath
link =
    codes "etc"
    ∷ codes "systemd"
    ∷ codes "system"
    ∷ codes "multi-user.target.wants"
    ∷ codes "unver.service"
    ∷ []

abbrev effect : List Text → Files → Files
effect words files =
    if any (λ w. text_eq w (codes "disable")) words then cleared link files else files

abbrev passwd : FilePath
passwd = codes "etc" ∷ codes "passwd" ∷ []

passwd-LeavesAlone : LeavesAlone effect passwd
passwd-LeavesAlone words files = elim (Bool-cases (any (λ w. text_eq w (codes "disable")) words)) [
  | inl e ↦ rw e refl
  | inr e ↦ rw e refl
]

uninstall-spares_example :
    (uninstall effect (some entries) 12 (codes "/opt/unver/unver") exe broken).1.files passwd
    ≡ files passwd
uninstall-spares_example =
    uninstall-spares effect (some entries) 12 (codes "/opt/unver/unver") exe passwd broken
      passwd-LeavesAlone (refl, refl, refl, refl, refl, refl, refl)

-- At the end of the input every call of `read_line` gives an empty text, and the menu asks on.
asks_on : read_number (replicate 3 (some [])) ≡ none
unfolding read_number trim trim_start trim_end parse_uint
asks_on = refl
