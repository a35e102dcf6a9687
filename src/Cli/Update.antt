-- ===== src/Cli/Update.antt =====
-- `self_update` and `self_update_programmatic` of backend/src/cli.rs. The answers of the HTTP client, the
-- decompression and the path of the executable are parameters. Where JSON has no text at a place that the
-- source reads as one, the field is `none`.
use unver.Prelude.{
  ℕ, Option, none, some, List, [], ◌∷◌, ◌++◌, Text, codes, text_eq, strip_prefix, unwrap_or, length,
  drop, if◌then◌else◌,
}
use unver.Errors.{AppResult, ok, err, internal}
use unver.Action.{Action, pure, fail, lift, ◌>>=◌, ◌>>◌}
use unver.Disk.{
  FilePath, Entry, Files, Disk, operate, within, copy_file, set_permissions, rename, remove_dir_all,
  create_dir_all, when_exists, ignore_error,
}

pub record Asset : Type 0 where
  pub name : Option Text
  pub browser_download_url : Option Text

pub record Release : Type 0 where
  pub tag_name : Option Text
  pub assets : Option (List Asset)

-- What is unpacked.
mutual
  pub data Node : Type 0 where
    file : Text → ℕ → Node
    dir : Entries → Node

  pub data Entries : Type 0 where
    end : Entries
    entry : Text → Node → Entries → Entries

-- Of the archive, what the source looks at, and everything that is unpacked, by its path.
pub record Archive : Type 0 where
  pub binary : Option Node
  pub static_dir : Option Node
  pub tree : Files

-- `CARGO_PKG_VERSION`, the `cfg` values of the build, and the calls outside: `current_exe_after` is the
-- path of the running executable once the file at it has been replaced, which Linux marks as deleted.
pub record Env : Type 0 where
  pub current_version : Text
  pub target_arch : Text
  pub target_env : Text
  pub get_release : AppResult Release
  pub get_bytes : Text → AppResult Text
  pub unpack : Text → AppResult Archive
  pub tempdir : AppResult FilePath
  pub current_exe : AppResult FilePath
  pub current_exe_after : AppResult FilePath

abbrev pub latest_of : Release → Text
latest_of r = elim r.tag_name [
  | none ↦ codes "unknown"
  | some t ↦ unwrap_or (strip_prefix t (codes "v")) (codes "unknown")
]

unfoldable pub detect_platform : Text → Text → Text × Text
detect_platform target_arch target_env = (
  if text_eq target_env (codes "musl") then codes "openwrt" else codes "linux",
  if text_eq target_arch (codes "x86_64") then codes "amd64" else codes "arm64",
)

abbrev pub asset_name : Env → Text
asset_name env =
    let (platform, arch) = detect_platform env.target_arch env.target_env in
    codes "unver-" ++ (platform ++ (codes "-" ++ (arch ++ codes ".tar.gz")))

abbrev pub url_if_named : Text → Asset → Option Text
url_if_named name a = elim a.name [
  | none ↦ none
  | some n ↦ if text_eq n name then a.browser_download_url else none
]

-- `find_map` over the assets
unfoldable pub find_url : Text → List Asset → Option Text
find_url name [] = none
find_url name (a ∷ assets) =
    let rest = find_url name assets in
    elim (url_if_named name a) [ some url ↦ some url | none ↦ rest ]

unfoldable mutual
  -- `copy_dir_all` of a directory, and `std::fs::copy` of a file.
  pub copy_node : Node → FilePath → Action Disk (Unit {0})
  copy_node (file b m) dst = copy_file (Entry.file b m) dst
  copy_node (dir es) dst = create_dir_all dst >> copy_entries es dst

  pub copy_entries : Entries → FilePath → Action Disk (Unit {0})
  copy_entries end dst = pure tt
  copy_entries (entry name child es) dst = copy_node child (dst ++ name ∷ []) >> copy_entries es dst

-- `current_exe.parent()`
abbrev pub parent_of : FilePath → FilePath
parent_of [] = []
parent_of (x ∷ []) = []
parent_of (x ∷ y ∷ p) = x ∷ parent_of (y ∷ p)

abbrev pub tmp_exe : FilePath → FilePath
tmp_exe parent = parent ++ codes ".unver.new" ∷ []

abbrev pub target_static : FilePath → FilePath
target_static parent = parent ++ codes "static" ∷ []

abbrev pub tmp_static : FilePath → FilePath
tmp_static parent = parent ++ codes ".static.new" ∷ []

abbrev pub old_static : FilePath → FilePath
old_static parent = parent ++ codes ".static.old" ∷ []

-- A directory is no file to copy.
unfoldable pub replace_binary : FilePath → Option Node → Action Disk (Unit {0})
replace_binary exe none = fail internal
replace_binary exe (some (dir es)) = fail internal
replace_binary exe (some (file b m)) = do
  copy_file (Entry.file b m) (tmp_exe (parent_of exe))
  set_permissions (tmp_exe (parent_of exe)) 0o755
  rename (tmp_exe (parent_of exe)) exe

unfoldable pub replace_static : FilePath → Option Node → Action Disk (Unit {0})
replace_static parent none = pure tt
replace_static parent (some (file b m)) = pure tt
replace_static parent (some (dir es)) = do
  when_exists (tmp_static parent) (remove_dir_all (tmp_static parent))
  copy_node (dir es) (tmp_static parent)
  when_exists (target_static parent) (
      when_exists (old_static parent) (remove_dir_all (old_static parent))
      >> rename (target_static parent) (old_static parent))
  rename (tmp_static parent) (target_static parent)
  when_exists (old_static parent) (ignore_error (remove_dir_all (old_static parent)))

abbrev tar_path : FilePath → FilePath
tar_path tmpdir = tmpdir ++ codes "unver.tar.gz" ∷ []

abbrev extract_dir : FilePath → FilePath
extract_dir tmpdir = tmpdir ++ codes "extracted" ∷ []

abbrev pub extracted : FilePath → AppResult Archive → Files → Option Files
extracted p (err e) files = none
extracted p (ok archive) files = some (within p (λ q. archive.tree (drop (length p) q)) files)

-- `archive.unpack`, which can fail with anything below its target.
abbrev pub unpack_to : FilePath → AppResult Archive → Action Disk (Unit {0})
unpack_to p archive = operate (within p) (extracted p archive)

-- The directory is removed at the end, also after an error.
abbrev pub with_tempdir : FilePath → Action Disk (Unit {0}) → Action Disk (Unit {0})
with_tempdir tmpdir m d = ((m d).0, (remove_dir_all tmpdir (m d).1).1)

abbrev pub fill : Env → Text → FilePath → Action Disk (Unit {0})
fill env bytes tmpdir = do
  copy_file (Entry.file bytes 0o644) (tar_path tmpdir)
  create_dir_all (extract_dir tmpdir)
  unpack_to (extract_dir tmpdir) (env.unpack bytes)

-- What is copied out of the directory is what was unpacked into it.
unfoldable pub replace : Env → Text → Action Disk (Unit {0})
replace env bytes = do
  archive ← lift (env.unpack bytes)
  exe ← lift (env.current_exe)
  replace_binary exe archive.binary
  replace_static (parent_of exe) archive.static_dir

-- From the temporary directory on, which both updates do alike.
unfoldable pub install : Env → Text → Action Disk (Unit {0})
unfolding replace
install env bytes = do
  tmpdir ← lift (env.tempdir)
  create_dir_all tmpdir
  with_tempdir tmpdir (fill env bytes tmpdir >> replace env bytes)

abbrev pub from_url : Env → Option Text → AppResult Text
from_url env none = err internal
from_url env (some url) = env.get_bytes url

abbrev pub from_assets : Env → Option (List Asset) → AppResult Text
from_assets env none = err internal
from_assets env (some assets) = from_url env (find_url (asset_name env) assets)

abbrev pub download : Env → Release → AppResult Text
download env r = from_assets env r.assets

-- What `self_update` reports.
pub data Update : Type 0 where
  up_to_date : Update
  updated : Text → Update

unfoldable pub self_update : Env → Action Disk Update
self_update env = do
  r ← lift (env.get_release)
  if text_eq (latest_of r) env.current_version
      then pure up_to_date
      else do bytes ← lift (download env r); install env bytes; pure (updated (latest_of r))

unfoldable pub self_update_programmatic : Env → Action Disk (Unit {0})
self_update_programmatic env = do
  r ← lift (env.get_release)
  if text_eq (latest_of r) env.current_version
      then fail internal
      else do bytes ← lift (download env r); install env bytes
