-- ===== src/Cli/Replaced.antt =====
-- What a self-update of backend/src/cli.rs can leave of the executable.
use unver.Prelude.{
  ℕ, ◌≡◌, refl, ◌∙◌, ap, ◌⊎◌, inl, inr, false, Option, none, some, [], ◌∷◌, Text, text_eq,
  Bool-cases,
}
use unver.Errors.{AppResult, ok, err}
use unver.Action.{Keeps, bind-Outcome, lift, ◌>>◌}
use unver.Disk.{
  FilePath, Entry, Disk, is_under, copy_file, set_permissions, rename, remove_dir_all,
  create_dir_all,
}
use unver.Disk.Locality.{
  At, copy_file-Keeps, set_permissions-Keeps, remove_dir_all-Keeps, create_dir_all-Keeps,
}
use unver.Disk.Effects.{copy_file-At, set_permissions-At, rename-At, rename-err}
use unver.Cli.Unpacking.{fill-Keeps, replace_static-Keeps}
use unver.Cli.Download.{IsDownloaded, download-IsDownloaded}
use unver.Cli.Update.{
  fill, replace, Node, file, dir, Archive, Env, Update, up_to_date, updated, latest_of, download,
  parent_of, tmp_exe, target_static, tmp_static, old_static, replace_binary, replace_static,
  install, self_update,
}

abbrev pub exe_name : FilePath → Text
exe_name [] = []
exe_name (n ∷ []) = n
exe_name (n ∷ m ∷ p) = exe_name (m ∷ p)

-- The executable lies in a directory and is not called as what the update leaves there.
abbrev pub IsInstalled : FilePath → Type 0
IsInstalled exe =
    (is_under (tmp_exe (parent_of exe)) exe ≡ false)
    × (is_under (target_static (parent_of exe)) exe ≡ false)
    × (is_under (tmp_static (parent_of exe)) exe ≡ false)
    × (is_under (old_static (parent_of exe)) exe ≡ false)

-- The executable is the file of the archive, with the permissions 755.
abbrev pub IsNew : FilePath → Option Node → Disk → Type 0
IsNew exe binary d =
    (b : Text) × (m : ℕ) × (binary ≡ some (file b m)) × At exe (some (Entry.file b 0o755)) d

-- After a failure the old executable, after a success the new one.
abbrev Swapped : FilePath → Option Entry → Option Node → AppResult (Unit {0}) → Disk → Type 0
Swapped exe old binary (ok a) d = IsNew exe binary d
Swapped exe old binary (err e) d = At exe old d

module _ (exe : FilePath) (place : is_under (tmp_exe (parent_of exe)) exe ≡ false) where
  rename-Swapped :
      (b : Text) (m : ℕ) (d : Disk) (old : Option Entry) (r : AppResult (Unit {0}))
      → At exe old d
      → At (tmp_exe (parent_of exe)) (some (Entry.file b 0o755)) d
      → (rename (tmp_exe (parent_of exe)) exe d).0 ≡ r
      → Swapped exe old (some (file b m)) r (rename (tmp_exe (parent_of exe)) exe d).1
  rename-Swapped b m d old (ok a) h t e =
      (b, m, refl, rename-At (tmp_exe (parent_of exe)) exe (Entry.file b 0o755) d t e)
  rename-Swapped b m d old (err x) h t e =
      ap (λ files. files exe) (rename-err (tmp_exe (parent_of exe)) exe d x e) ∙ h

  replace_binary-Swapped :
      (binary : Option Node) (d : Disk) (old : Option Entry)
      → At exe old d
      → Swapped exe old binary (replace_binary exe binary d).0 (replace_binary exe binary d).1
  unfolding replace_binary Keeps
  replace_binary-Swapped none d old h = h
  replace_binary-Swapped (some (dir es)) d old h = h
  replace_binary-Swapped (some (file b m)) d old h =
      let tmp = tmp_exe (parent_of exe) in
      let Q = Swapped exe old (some (file b m)) in
      let e = Entry.file b m in
      let d1 = (copy_file e tmp d).1 in
      let d2 = (set_permissions tmp 0o755 d1).1 in
      let copied : At exe old d1 = copy_file-Keeps exe old tmp place e d h in
      let set : At exe old d2 = set_permissions-Keeps exe old tmp place 0o755 d1 copied in
      bind-Outcome Q (copy_file e tmp) _ d (λ x r. copied)
        λ a r.
          bind-Outcome Q (set_permissions tmp 0o755) _ d1 (λ x r. set)
            λ a' r'.
              rename-Swapped b m d2 old (rename tmp exe d2).0 set
                (set_permissions-At tmp b m 0o755 d1 (copy_file-At e tmp d r) r') refl

-- The executable is that of the archive that was downloaded.
abbrev pub IsUnpacked : Env → FilePath → Disk → Type 0
IsUnpacked env exe d =
    (bytes : Text) × (archive : Archive) × IsDownloaded env bytes
    × (env.unpack bytes ≡ ok archive)
    × IsNew exe archive.binary d

-- After a success the executable is that of the download, and after a failure it is that, or the
-- old one.
abbrev pub Installed : Env → FilePath → Option Entry → AppResult (Unit {0}) → Disk → Type 0
Installed env exe old (ok a) d = IsUnpacked env exe d
Installed env exe old (err e) d = At exe old d ⊎ IsUnpacked env exe d

unpacked-Installed :
    (env : Env) (exe : FilePath) (old : Option Entry) (r : AppResult (Unit {0})) (d : Disk)
    → IsUnpacked env exe d
    → Installed env exe old r d
unpacked-Installed env exe old (ok a) d h = h
unpacked-Installed env exe old (err e) d h = inr h

-- The executable is not in the temporary directory.
abbrev pub IsApart : Env → FilePath → Type 0
IsApart env x = (tmpdir : FilePath) → env.tempdir ≡ ok tmpdir → is_under tmpdir x ≡ false

module _ (env : Env) (exe : FilePath) (placed : IsInstalled exe) (old : Option Entry) (bytes : Text)
    (downloaded : IsDownloaded env bytes) where
  kept_static :
      (b : Text) (m : ℕ) (archive : Archive) (d : Disk)
      → env.unpack bytes ≡ ok archive
      → archive.binary ≡ some (file b m)
      → At exe (some (Entry.file b 0o755)) d
      → (r : AppResult (Unit {0}))
      → Installed env exe old r (replace_static (parent_of exe) archive.static_dir d).1
  unfolding Keeps
  kept_static b m archive d u e h r =
      let (p, a, t, o) = placed in
      let kept =
        replace_static-Keeps exe (some (Entry.file b 0o755)) (parent_of exe) a t o
          archive.static_dir d h in
      unpacked-Installed env exe old r (replace_static (parent_of exe) archive.static_dir d).1
        (bytes, archive, downloaded, u, (b, m, e, kept))

  replaced :
      (archive : Archive) (d : Disk)
      → env.unpack bytes ≡ ok archive
      → At exe old d
      → Installed env exe old
          ((replace_binary exe archive.binary >> replace_static (parent_of exe) archive.static_dir)
            d).0
          ((replace_binary exe archive.binary >> replace_static (parent_of exe) archive.static_dir)
            d).1
  replaced archive d u h =
      let sw = replace_binary-Swapped exe placed.0 archive.binary d old h in
      bind-Outcome (Installed env exe old) (replace_binary exe archive.binary) _ d
        (λ x r. inl (rw r at sw))
        λ a r.
          let (b, m, e, now) : IsNew exe archive.binary (replace_binary exe archive.binary d).1 =
            rw r at sw in
          kept_static b m archive (replace_binary exe archive.binary d).1 u e now _

  replace-Installed :
      (d : Disk)
      → env.current_exe ≡ ok exe
      → At exe old d
      → Installed env exe old (replace env bytes d).0 (replace env bytes d).1
  unfolding replace
  replace-Installed d here h =
      bind-Outcome (Installed env exe old) (lift (env.unpack bytes)) _ d (λ x r. inl h)
        λ archive r. rw here (replaced archive d r h)

  module _ (tmpdir : FilePath) (away : is_under tmpdir exe ≡ false) where
    removed-Installed :
        (r : AppResult (Unit {0})) (d : Disk)
        → Installed env exe old r d
        → Installed env exe old r (remove_dir_all tmpdir d).1
    unfolding Keeps
    removed-Installed (ok a) d (y, archive, w, u, (b, m, e, now)) =
        (y, archive, w, u, (b, m, e, remove_dir_all-Keeps exe _ tmpdir away d now))
    removed-Installed (err x) d (inl h) = inl (remove_dir_all-Keeps exe old tmpdir away d h)
    removed-Installed (err x) d (inr (y, archive, w, u, (b, m, e, now))) =
        inr (y, archive, w, u, (b, m, e, remove_dir_all-Keeps exe _ tmpdir away d now))

    filled-Installed :
        (d : Disk)
        → env.current_exe ≡ ok exe
        → At exe old d
        → Installed env exe old
            ((fill env bytes tmpdir >> replace env bytes) d).0
            ((fill env bytes tmpdir >> replace env bytes) d).1
    unfolding Keeps
    filled-Installed d here h =
        let kept = fill-Keeps exe old env bytes tmpdir away d h in
        bind-Outcome (Installed env exe old) (fill env bytes tmpdir) _ d (λ x r. inl kept)
          λ a r. replace-Installed (fill env bytes tmpdir d).1 here kept

  pub install-Installed :
      (d : Disk)
      → env.current_exe ≡ ok exe
      → IsApart env exe
      → At exe old d
      → Installed env exe old (install env bytes d).0 (install env bytes d).1
  unfolding install Keeps
  install-Installed d here apart h =
      bind-Outcome (Installed env exe old) (lift env.tempdir) _ d (λ x r. inl h)
        λ tmpdir r.
          let away = apart tmpdir r in
          let kept = create_dir_all-Keeps exe old tmpdir away d h in
          bind-Outcome (Installed env exe old) (create_dir_all tmpdir) _ d (λ x r'. inl kept)
            λ a r'.
              removed-Installed tmpdir away
                ((fill env bytes tmpdir >> replace env bytes) (create_dir_all tmpdir d).1).0
                ((fill env bytes tmpdir >> replace env bytes) (create_dir_all tmpdir d).1).1
                (filled-Installed tmpdir away (create_dir_all tmpdir d).1 here kept)

-- What is reported is true of the executable: nothing was done, it is the new one, or, after an error,
-- the old or the new one.
abbrev pub Reported : Env → FilePath → Disk → AppResult Update → Disk → Type 0
Reported env exe before (ok up_to_date) d = d ≡ before
Reported env exe before (ok (updated v)) d = IsUnpacked env exe d
Reported env exe before (err e) d = At exe (before.files exe) d ⊎ IsUnpacked env exe d

module _ (env : Env) (exe : FilePath) (placed : IsInstalled exe) (apart : IsApart env exe)
    (here : env.current_exe ≡ ok exe) where
  -- Whatever fails on the way, the executable is the old one or, with the permissions 755, the whole of
  -- `unver` in the archive that was downloaded from the release's asset for this platform: the new one
  -- where `self_update` reports an update, and where it reports that there is none, nothing at all was
  -- changed.
  pub self_update-Reported :
      (d : Disk) → Reported env exe d (self_update env d).0 (self_update env d).1
  unfolding self_update
  self_update-Reported d =
      let Q = Reported env exe d in
      bind-Outcome Q (lift env.get_release) _ d (λ x r. inl refl)
        λ release r. elim (Bool-cases (text_eq (latest_of release) env.current_version)) [
          | inl y ↦ rw y refl
          | inr n ↦ rw n (
              bind-Outcome Q (lift (download env release)) _ d (λ x f. inl refl)
                λ bytes f.
                  let done =
                    install-Installed env exe placed (d.files exe) bytes
                      (download-IsDownloaded env release bytes r f) d here apart refl in
                  bind-Outcome Q (install env bytes) _ d (λ x g. rw g at done)
                    (λ a g. rw g at done))
        ]
