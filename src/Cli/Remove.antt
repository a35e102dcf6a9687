-- ===== src/Cli/Remove.antt =====
-- `uninstall` of backend/src/cli.rs. What a program that it starts does to the files is a parameter, by
-- its words.
use unver.Prelude.{ℕ, List, [], ◌∷◌, ◌++◌, Option, Text, codes}
use unver.Action.{Action, modify, ◌>>◌}
use unver.Disk.{FilePath, Files, Disk, remove_file, remove_dir_all, when_exists, ignore_error}
use unver.Cli.{ProcEntry, find_unver_pids, kill_all}
use unver.Cli.Update.{parent_of}

abbrev pub systemd_unit : FilePath
systemd_unit = codes "etc" ∷ codes "systemd" ∷ codes "system" ∷ codes "unver.service" ∷ []

abbrev pub procd_unit : FilePath
procd_unit = codes "etc" ∷ codes "init.d" ∷ codes "unver" ∷ []

abbrev pub var_lib_unver : FilePath
var_lib_unver = codes "var" ∷ codes "lib" ∷ codes "unver" ∷ []

abbrev pub etc_unver : FilePath
etc_unver = codes "etc" ∷ codes "unver" ∷ []

abbrev pub beside : FilePath → Text → FilePath
beside exe name = parent_of exe ++ name ∷ []

abbrev pub discard_file : FilePath → Action Disk (Unit {0})
discard_file p = ignore_error (remove_file p)

abbrev pub discard_dir : FilePath → Action Disk (Unit {0})
discard_dir p = when_exists p (ignore_error (remove_dir_all p))

module _ (effect : List Text → Files → Files) where
  abbrev pub command : List Text → Action Disk (Unit {0})
  command words = modify λ d. record d { files = effect words d.files; ran = d.ran ++ words ∷ [] }

  abbrev pub systemctl : List Text → Action Disk (Unit {0})
  systemctl args = command (codes "systemctl" ∷ args)

  abbrev pub procd : Text → Action Disk (Unit {0})
  procd arg = command (codes "/etc/init.d/unver" ∷ arg ∷ [])

  abbrev pub remove_systemd : Action Disk (Unit {0})
  remove_systemd = when_exists systemd_unit (
      systemctl (codes "stop" ∷ codes "unver" ∷ [])
      >> (systemctl (codes "disable" ∷ codes "unver" ∷ [])
          >> (discard_file systemd_unit >> systemctl (codes "daemon-reload" ∷ []))))

  abbrev pub remove_procd : Action Disk (Unit {0})
  remove_procd =
      when_exists procd_unit
        (procd (codes "stop") >> (procd (codes "disable") >> discard_file procd_unit))

  unfoldable pub uninstall : Option (List ProcEntry) → ℕ → Text → FilePath → Action Disk (Unit {0})
  uninstall entries own path exe = do
    modify (kill_all (find_unver_pids entries path own))
    remove_systemd
    remove_procd
    when_exists (beside exe (codes "unver")) (discard_file (beside exe (codes "unver")))
    discard_dir (beside exe (codes "static"))
    discard_dir var_lib_unver
    discard_dir etc_unver
    discard_dir (beside exe (codes "data"))
