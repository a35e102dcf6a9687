-- ===== src/Tests/Static.antt =====
-- A run of a self-update on a disk whose static files it replaces.
use unver.Prelude.{◌≡◌, refl, text_eq, ◌&&◌, if◌then◌else◌, none, some, [], ◌∷◌, codes, arith}
use unver.Errors.{ok}
use unver.Disk.{Entry, Files, IsClosed, Disk, operate}
use unver.Cli.Update.{
  replace, Node, Entries, file, dir, end, entry, Archive, Release, Env, detect_platform, find_url,
  copy_node, target_static, replace_binary, replace_static, install, self_update_programmatic,
}
use unver.Cli.Copied.{IsProper, proper_file, proper_dir, proper_end, proper_entry, Copies}
use unver.Cli.Whole.{self_update_programmatic-Copies}

-- `/static` has a file that the update does not have.
abbrev files : Files
files [] = some Entry.dir
files (n ∷ []) =
    if text_eq n (codes "static")
    then some Entry.dir
    else if text_eq n (codes "unver")
    then some (Entry.file (codes "old") 0o755)
    else none
files (n ∷ m ∷ []) =
    if text_eq n (codes "static") && text_eq m (codes "old.js")
    then some (Entry.file (codes "old") 0o644)
    else none
files (n ∷ m ∷ k ∷ p) = none

closed : IsClosed files
closed [] n q e h = refl
closed (m ∷ []) n [] e h = ground arith
closed (m ∷ []) n (k ∷ q) e h = cc
closed (m ∷ k ∷ []) n q e h = cc
closed (m ∷ k ∷ j ∷ p) n q e h = cc

abbrev disk : Disk
disk = record { files = files; outcomes = []; ran = []; killed = [] }

abbrev page : Node
page = file (codes "next") 0o644

abbrev pages : Entries
pages = entry (codes "new.js") page (entry (codes "index.html") page end)

proper : IsProper (dir pages)
proper = proper_dir (proper_entry proper_file (refl, tt) (proper_entry proper_file tt proper_end))

abbrev archive : Archive
archive = record {
  binary = some (file (codes "new") 0o644);
  static_dir = some (dir pages);
  tree = λ p. none;
}

abbrev release : Release
release = record {
  tag_name = some (codes "v1.1.0");
  assets = some (
      record {
        name = some (codes "unver-linux-amd64.tar.gz");
        browser_download_url = some (codes "u");
      }
      ∷ []);
}

abbrev env : Env
env = record {
  current_version = codes "1.0.0";
  target_arch = codes "x86_64";
  target_env = codes "gnu";
  get_release = ok release;
  get_bytes = λ url. ok (codes "bytes");
  unpack = λ bytes. ok archive;
  tempdir = ok (codes "tmp" ∷ []);
  current_exe = ok (codes "unver" ∷ []);
  current_exe_after = ok (codes "unver (deleted)" ∷ []);
}

self_update_programmatic-Copies_example :
    Copies (dir pages) (target_static []) (self_update_programmatic env disk).1
unfolding self_update_programmatic install replace replace_binary replace_static copy_node operate
    find_url detect_platform
self_update_programmatic-Copies_example =
    self_update_programmatic-Copies (codes "unver" ∷ []) (codes "tmp" ∷ []) env release
      (codes "bytes") archive pages disk (refl, refl) (λ r. (refl, refl)) refl refl refl refl refl
      refl proper closed refl

-- The old file is gone.
removes : (self_update_programmatic env disk).1.files (codes "static" ∷ codes "old.js" ∷ []) ≡ none
unfolding self_update_programmatic install replace replace_binary replace_static copy_node operate
    find_url detect_platform
removes = refl
