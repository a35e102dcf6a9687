-- ===== src/Config.antt =====
-- backend/src/config.rs. The environment, the configuration file with its TOML and the path of the executable
-- are arguments.
pub mod Paths
use unver.Prelude.{
  ℕ, Bool, true, false, not, ◌&&◌, ◌||◌, ◌==◌, Option, none, some, List, [], ◌∷◌, ◌++◌, Text, codes,
  text_eq, is_empty, retain, split_on, strip_prefix, starts_with, unwrap_or, length, drop,
  if◌then◌else◌,
}
use unver.Errors.{AppResult, ok, err}

-- `PathBuf`, by its components: no name is empty, and `.` stands at most first.
pub record PathBuf : Type 0 where
  pub is_absolute : Bool
  pub names : List Text

abbrev plain_names : List Text → List Text
plain_names ns = retain (λ n. not (is_empty n || text_eq n (codes "."))) ns

abbrev relative_names : List Text → List Text
relative_names [] = []
relative_names (n ∷ ns) = if text_eq n (codes ".") then n ∷ plain_names ns else plain_names (n ∷ ns)

-- `PathBuf::from`
unfoldable pub path_of : Text → PathBuf
path_of [] = record { is_absolute = false; names = [] }
path_of (c ∷ s) =
    if c == b'/'
    then record { is_absolute = true; names = plain_names (split_on b'/' s) }
    else record { is_absolute = false; names = relative_names (split_on b'/' (c ∷ s)) }

-- `a.join(b)`
abbrev pub join : PathBuf → PathBuf → PathBuf
join a b =
    if b.is_absolute
    then b
    else record { is_absolute = a.is_absolute; names = a.names ++ plain_names b.names }

abbrev all_but_last : List Text → List Text
all_but_last [] = []
all_but_last (x ∷ []) = []
all_but_last (x ∷ y ∷ ns) = x ∷ all_but_last (y ∷ ns)

-- `p.parent()`
abbrev has_name : List Text → Bool
has_name [] = false
has_name (n ∷ ns) = true

abbrev pub parent : PathBuf → Option PathBuf
parent p =
    if has_name p.names
    then some (record { is_absolute = p.is_absolute; names = all_but_last p.names })
    else none

pub record Config : Type 0 where
  pub web_port : ℕ
  pub proxy_http_port : ℕ
  pub proxy_https_port : ℕ
  pub data_dir : PathBuf
  pub static_dir : PathBuf
  pub log_level : Text

abbrev pub default : Config
default = record {
  web_port = 19688;
  proxy_http_port = 80;
  proxy_https_port = 443;
  data_dir = path_of (codes "./data");
  static_dir = path_of (codes "./static");
  log_level = codes "info";
}

-- `url.replace("sqlite:", "")`, on fuel for the length of the text.
abbrev without_scheme : ℕ → Text → Text
without_scheme ℕ.zero s = s
without_scheme (ℕ.suc n) [] = []
without_scheme (ℕ.suc n) (c ∷ s) =
    let behind = without_scheme n (drop 7 (c ∷ s)) in
    let rest = without_scheme n s in
    if starts_with (c ∷ s) (codes "sqlite:") then behind else c ∷ rest

unfoldable pub remove_scheme : Text → Text
remove_scheme url = without_scheme (length url) url

abbrev pub root : PathBuf
root = record { is_absolute = true; names = [] }

abbrev overridden : Option Text → Config → Config
overridden none c = c
overridden (some url) c = record c {
  data_dir = unwrap_or (parent (path_of (remove_scheme url))) root;
}

abbrev pub resolved : PathBuf → PathBuf → PathBuf
resolved exe_dir p = if not p.is_absolute then join exe_dir p else p

-- The directory of the executable, or `.`, and `DATABASE_URL`.
unfoldable pub resolve_paths : PathBuf → Option Text → Config → Config
resolve_paths exe_dir database_url c =
    let o = overridden database_url c in
    record o { data_dir = resolved exe_dir o.data_dir; static_dir = resolved exe_dir o.static_dir }

-- The content of the configuration file with its parse, `none` where there is no file.
unfoldable pub load : Option (AppResult Config) → PathBuf → Option Text → AppResult Config
load none exe_dir database_url = ok (resolve_paths exe_dir database_url default)
load (some (err e)) exe_dir database_url = err e
load (some (ok c)) exe_dir database_url = ok (resolve_paths exe_dir database_url c)

abbrev pub database_path : Config → PathBuf
database_path c = join c.data_dir (path_of (codes "unver.db"))
