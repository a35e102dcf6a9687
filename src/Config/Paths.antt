-- ===== src/Config/Paths.antt =====
-- The paths of a configuration that backend/src/config.rs has loaded.
use unver.Prelude.{◌≡◌, refl, true, Option, none, some, Text, arith}
use mathlib.Core.Path.{subst}
use unver.Errors.{AppResult, ok, err}
use unver.Config.{PathBuf, Config, default, path_of, resolved, resolve_paths, load, database_path}

resolved-absolute :
    (exe_dir p : PathBuf) → exe_dir.is_absolute ≡ true → (resolved exe_dir p).is_absolute ≡ true
resolved-absolute exe_dir p h = ground arith

resolved_again : (other p : PathBuf) → p.is_absolute ≡ true → resolved other p ≡ p
resolved_again other p h = rw h refl

-- No path depends on the working directory.
abbrev pub IsSettled : Config → Type 0
IsSettled c = (c.data_dir.is_absolute ≡ true) × (c.static_dir.is_absolute ≡ true)

resolve_paths-IsSettled :
    (exe_dir : PathBuf) (url : Option Text) (c : Config)
    → exe_dir.is_absolute ≡ true
    → IsSettled (resolve_paths exe_dir url c)
unfolding resolve_paths
resolve_paths-IsSettled exe_dir url c h = ground arith

settled_again : (c : Config) (other : PathBuf) → IsSettled c → resolve_paths other none c ≡ c
unfolding resolve_paths
settled_again c other (d, t) =
    rw (resolved_again other c.data_dir d, resolved_again other c.static_dir t) refl

all-IsSettled :
    (c : Config)
    → IsSettled c
    → IsSettled c
      × ((database_path c).is_absolute ≡ true)
      × ((other : PathBuf) → resolve_paths other none c ≡ c)
unfolding path_of
all-IsSettled c s = (s, s.0, λ other. settled_again c other s)

-- A configuration that is loaded by an executable with an absolute path has absolute paths only, that of
-- the database too, and resolving it against any other directory changes nothing.
pub load-IsSettled :
    (content : Option (AppResult Config)) (exe_dir : PathBuf) (url : Option Text) (c : Config)
    → exe_dir.is_absolute ≡ true
    → load content exe_dir url ≡ ok c
    → IsSettled c
      × ((database_path c).is_absolute ≡ true)
      × ((other : PathBuf) → resolve_paths other none c ≡ c)
unfolding load
load-IsSettled none exe_dir url c h e =
    let same : resolve_paths exe_dir url default ≡ c = cc in
    all-IsSettled c (subst IsSettled same (resolve_paths-IsSettled exe_dir url default h))
load-IsSettled (some (err x)) exe_dir url c h e = cc
load-IsSettled (some (ok b)) exe_dir url c h e =
    let same : resolve_paths exe_dir url b ≡ c = cc in
    all-IsSettled c (subst IsSettled same (resolve_paths-IsSettled exe_dir url b h))
