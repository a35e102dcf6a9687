-- ===== src/Cli/Elsewhere.antt =====
-- What a self-update of backend/src/cli.rs leaves alone.
use unver.Prelude.{◌≡◌, refl, false, Option, none, some, Text, text_eq, Bool-cases, inl, inr}
use unver.Errors.{ok, internal}
use unver.Action.{Keeps, bind-Keeps, fail-Keeps, reads-Keeps, ◌>>◌}
use unver.Disk.{FilePath, Entry, Disk, is_under}
use unver.Disk.Locality.{
  remove_dir_all-Keeps, create_dir_all-Keeps, At, copy_file-Keeps, set_permissions-Keeps,
  rename-Keeps,
}
use unver.Cli.Update.{
  fill, replace, with_tempdir, Node, file, dir, Archive, Env, latest_of, download, parent_of,
  tmp_exe, target_static, tmp_static, old_static, replace_binary, replace_static, install,
  self_update_programmatic,
}
use unver.Cli.Unpacking.{fill-Keeps, replace_static-Keeps}

-- A path that is none of the five that an update writes at, nor below one.
abbrev pub IsAway : FilePath → FilePath → Type 0
IsAway exe x =
    (is_under exe x ≡ false)
    × (is_under (tmp_exe (parent_of exe)) x ≡ false)
    × (is_under (target_static (parent_of exe)) x ≡ false)
    × (is_under (tmp_static (parent_of exe)) x ≡ false)
    × (is_under (old_static (parent_of exe)) x ≡ false)

pub replace_binary-Keeps :
    (exe x : FilePath) (v : Option Entry)
    → is_under exe x ≡ false
    → is_under (tmp_exe (parent_of exe)) x ≡ false
    → (binary : Option Node) → Keeps (At x v) (replace_binary exe binary)
unfolding replace_binary
replace_binary-Keeps exe x v e t none = fail-Keeps (At x v) _ internal
replace_binary-Keeps exe x v e t (some (dir es)) = fail-Keeps (At x v) _ internal
replace_binary-Keeps exe x v e t (some (file b m)) =
    bind-Keeps (At x v) _ _ (copy_file-Keeps x v (tmp_exe (parent_of exe)) t (Entry.file b m)) λ _.
      bind-Keeps (At x v) _ _ (set_permissions-Keeps x v (tmp_exe (parent_of exe)) t 0o755)
        λ _. rename-Keeps x v (tmp_exe (parent_of exe)) t exe e

module _ (env : Env) (exe x : FilePath) (away : IsAway exe x) (v : Option Entry) where
  replaced-Keeps :
      (archive : Archive)
      → Keeps
          (At x v)
          (replace_binary exe archive.binary >> replace_static (parent_of exe) archive.static_dir)
  replaced-Keeps archive =
      let (e, t, a, n, o) = away in
      bind-Keeps (At x v) _ _ (replace_binary-Keeps exe x v e t archive.binary)
        λ _. replace_static-Keeps x v (parent_of exe) a n o archive.static_dir

  replace-Keeps : (bytes : Text) → env.current_exe ≡ ok exe → Keeps (At x v) (replace env bytes)
  unfolding replace
  replace-Keeps bytes here =
      bind-Keeps (At x v) _ _ (reads-Keeps (At x v) (λ s. env.unpack bytes))
        λ archive. rw here (replaced-Keeps archive)

  with_tempdir-Keeps :
      (bytes : Text) (tmpdir : FilePath)
      → is_under tmpdir x ≡ false
      → env.current_exe ≡ ok exe
      → Keeps (At x v) (with_tempdir tmpdir (fill env bytes tmpdir >> replace env bytes))
  unfolding Keeps
  with_tempdir-Keeps bytes tmpdir out here d h =
      remove_dir_all-Keeps x v tmpdir out ((fill env bytes tmpdir >> replace env bytes) d).1 (
        bind-Keeps (At x v) (fill env bytes tmpdir) _ (fill-Keeps x v env bytes tmpdir out)
          (λ _. replace-Keeps bytes here) d h)

  install-Keeps :
      (bytes : Text) (tmpdir : FilePath)
      → env.tempdir ≡ ok tmpdir
      → is_under tmpdir x ≡ false
      → env.current_exe ≡ ok exe
      → Keeps (At x v) (install env bytes)
  unfolding install
  install-Keeps bytes tmpdir tmp out here = rw tmp (
      bind-Keeps (At x v) _ _ (create_dir_all-Keeps x v tmpdir out)
        λ _. with_tempdir-Keeps bytes tmpdir out here)

  update-Keeps :
      (tmpdir : FilePath)
      → env.tempdir ≡ ok tmpdir
      → is_under tmpdir x ≡ false
      → env.current_exe ≡ ok exe
      → Keeps (At x v) (self_update_programmatic env)
  unfolding self_update_programmatic
  update-Keeps tmpdir tmp out here =
      bind-Keeps (At x v) _ _ (reads-Keeps (At x v) (λ s. env.get_release)) λ release.
        elim (Bool-cases (text_eq (latest_of release) env.current_version)) [
          | inl y ↦ rw y (fail-Keeps (At x v) _ internal)
          | inr n ↦ rw n (
              bind-Keeps (At x v) _ _ (reads-Keeps (At x v) (λ s. download env release))
                λ bytes. install-Keeps bytes tmpdir tmp out here)
        ]

-- Whatever fails, a self-update changes no path but the temporary directory that it is given, the
-- executable, `.unver.new`, `static`, `.static.new` and `.static.old` beside it, and what lies below them.
pub self_update_programmatic-elsewhere :
    (env : Env) (exe tmpdir x : FilePath) (d : Disk)
    → env.current_exe ≡ ok exe
    → env.tempdir ≡ ok tmpdir
    → is_under tmpdir x ≡ false
    → IsAway exe x
    → (self_update_programmatic env d).1.files x ≡ d.files x
unfolding Keeps
self_update_programmatic-elsewhere env exe tmpdir x d here tmp out away =
    update-Keeps env exe x away (d.files x) tmpdir tmp out here d refl
