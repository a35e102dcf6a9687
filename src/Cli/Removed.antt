-- ===== src/Cli/Removed.antt =====
-- What `uninstall` of backend/src/cli.rs removes and what it leaves alone.
use unver.Prelude.{ℕ, ◌≡◌, ◌∙◌, refl, false, Option, List, [], ◌∷◌, Text, codes}
use unver.Action.{Keeps, bind-Keeps, modify-Keeps, modify}
use unver.Disk.{FilePath, Files, Entry, Disk, is_under, remove_file, remove_dir_all}
use unver.Disk.Locality.{
  At, remove_file-Keeps, remove_dir_all-Keeps, when_exists-Keeps, ignore_error-Keeps,
}
use unver.Cli.{ProcEntry, find_unver_pids, kill_all}
use unver.Cli.Remove.{
  remove_systemd, remove_procd, systemd_unit, procd_unit, var_lib_unver, etc_unver, beside, command,
  discard_file, discard_dir, uninstall,
}

-- A path that is none of those that are removed, nor below one.
abbrev pub IsSpared : FilePath → FilePath → Type 0
IsSpared exe x =
    (is_under systemd_unit x ≡ false)
    × (is_under procd_unit x ≡ false)
    × (is_under var_lib_unver x ≡ false)
    × (is_under etc_unver x ≡ false)
    × (is_under (beside exe (codes "unver")) x ≡ false)
    × (is_under (beside exe (codes "static")) x ≡ false)
    × (is_under (beside exe (codes "data")) x ≡ false)

-- A program that is started does nothing to a path.
abbrev pub LeavesAlone : (List Text → Files → Files) → FilePath → Type 0
LeavesAlone effect x = (words : List Text) (files : Files) → effect words files x ≡ files x

module _ (x : FilePath) (v : Option Entry) (effect : List Text → Files → Files)
    (alone : LeavesAlone effect x) where
  command-Keeps : (words : List Text) → Keeps (At x v) (command effect words)
  command-Keeps words = modify-Keeps (At x v) _ λ d h. alone words d.files ∙ h

  discard_file-Keeps : (p : FilePath) → is_under p x ≡ false → Keeps (At x v) (discard_file p)
  discard_file-Keeps p away = ignore_error-Keeps x v (remove_file p) (remove_file-Keeps x v p away)

  discard_dir-Keeps : (p : FilePath) → is_under p x ≡ false → Keeps (At x v) (discard_dir p)
  discard_dir-Keeps p away =
      when_exists-Keeps x v p _
        (ignore_error-Keeps x v (remove_dir_all p) (remove_dir_all-Keeps x v p away))

  kill_all-Keeps : (pids : List ℕ) → Keeps (At x v) (modify (kill_all pids))
  kill_all-Keeps pids = modify-Keeps (At x v) (kill_all pids) λ d h. h

  remove_systemd-Keeps : is_under systemd_unit x ≡ false → Keeps (At x v) (remove_systemd effect)
  remove_systemd-Keeps away = when_exists-Keeps x v systemd_unit _ (
      bind-Keeps (At x v) _ _
        (command-Keeps (codes "systemctl" ∷ codes "stop" ∷ codes "unver" ∷ []))
        λ _.
          bind-Keeps (At x v) _ _
            (command-Keeps (codes "systemctl" ∷ codes "disable" ∷ codes "unver" ∷ []))
            λ _.
              bind-Keeps (At x v) _ _ (discard_file-Keeps systemd_unit away)
                λ _. command-Keeps (codes "systemctl" ∷ codes "daemon-reload" ∷ []))

  remove_procd-Keeps : is_under procd_unit x ≡ false → Keeps (At x v) (remove_procd effect)
  remove_procd-Keeps away = when_exists-Keeps x v procd_unit _ (
      bind-Keeps (At x v) _ _ (command-Keeps (codes "/etc/init.d/unver" ∷ codes "stop" ∷ [])) λ _.
        bind-Keeps (At x v) _ _ (command-Keeps (codes "/etc/init.d/unver" ∷ codes "disable" ∷ []))
          λ _. discard_file-Keeps procd_unit away)

  uninstall-Keeps :
      (entries : Option (List ProcEntry)) (own : ℕ) (path : Text) (exe : FilePath)
      → IsSpared exe x
      → Keeps (At x v) (uninstall effect entries own path exe)
  unfolding uninstall
  uninstall-Keeps entries own path exe (systemd, initd, lib, etc, binary, static_dir, fallback) =
      bind-Keeps (At x v) _ _ (kill_all-Keeps (find_unver_pids entries path own)) λ _.
        bind-Keeps (At x v) _ _ (remove_systemd-Keeps systemd) λ _.
          bind-Keeps (At x v) _ _ (remove_procd-Keeps initd) λ _.
            bind-Keeps (At x v) _ _
              (when_exists-Keeps x v (beside exe (codes "unver")) _
                (discard_file-Keeps (beside exe (codes "unver")) binary))
              λ _.
                bind-Keeps (At x v) _ _ (discard_dir-Keeps (beside exe (codes "static")) static_dir)
                  λ _. bind-Keeps (At x v) _ _ (discard_dir-Keeps var_lib_unver lib) λ _.
                    bind-Keeps (At x v) _ _ (discard_dir-Keeps etc_unver etc)
                      λ _. discard_dir-Keeps (beside exe (codes "data")) fallback

-- An uninstallation, whatever fails in it, leaves alone every path outside the two init scripts, the two
-- data directories of the system, and `unver`, `static` and `data` beside the executable, if the programs
-- that it starts, `systemctl` and the init script, leave that path alone.
pub uninstall-spares :
    (effect : List Text → Files → Files) (entries : Option (List ProcEntry)) (own : ℕ) (path : Text)
    (exe x : FilePath) (d : Disk)
    → LeavesAlone effect x
    → IsSpared exe x
    → (uninstall effect entries own path exe d).1.files x ≡ d.files x
unfolding Keeps
uninstall-spares effect entries own path exe x d alone spared =
    uninstall-Keeps x (d.files x) effect alone entries own path exe spared d refl
