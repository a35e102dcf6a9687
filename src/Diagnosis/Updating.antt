-- ===== src/Diagnosis/Updating.antt =====
-- The update from the panel: `check_update` and `perform_update` of backend/src/api/settings.rs, which
-- run `self_update_programmatic` of backend/src/cli.rs.
use unver.Prelude.{
  sym, ap, ◌∙◌, ◌≡◌, refl, inl, inr, ◌⊎◌, ◌↔◌, Bool, true, false, not, ◌||◌, Option, none, some, [],
  ◌∷◌, ◌++◌, Text, codes, text_eq, contains, unwrap_or, Bool-cases, if◌then◌else◌,
}
use unver.Errors.{AppResult, ok, err, internal}
use unver.Security.Secrets.{Result-cases}
use unver.Action.{lift, bind-Outcome}
use unver.Disk.{FilePath, Disk}
use unver.Disk.Locality.{At}
use unver.Cli.Update.{
  Release, Env, Update, up_to_date, latest_of, download, install, self_update,
  self_update_programmatic,
}
use unver.Cli.Download.{download-IsDownloaded}
use unver.Cli.Replaced.{IsInstalled, IsApart, IsUnpacked, Installed, install-Installed}

-- Whether `/.dockerenv` exists, and what /proc/1/cgroup holds, `none` where it cannot be read.
pub record Host : Type 0 where
  pub dockerenv : Bool
  pub cgroup : Option Text

abbrev names_docker : Option Text → Bool
names_docker none = false
names_docker (some s) = contains s (codes "docker") || contains s (codes "containerd")

abbrev in_container : Host → Bool
in_container host = host.dockerenv || names_docker host.cgroup

pub record Check : Type 0 where
  pub has_update : Bool
  pub current : Text
  pub latest : Text
  pub html_url : Text
  pub docker : Bool

-- The release with the text at `html_url`.
unfoldable pub check_update : Env → Option Text → Host → AppResult Check
check_update env html_url host = elim env.get_release [
  | err e ↦ err internal
  | ok release ↦ ok (record {
    has_update = not (text_eq (latest_of release) env.current_version);
    current = env.current_version;
    latest = latest_of release;
    html_url = unwrap_or html_url (codes "https://github.com/akapzg/Unver/releases");
    docker = in_container host;
  })
]

pub data Progress : Type 0 where
  manual_required updating : Progress

abbrev path_text : FilePath → Text
path_text [] = []
path_text (n ∷ p) = b'/' ∷ (n ++ path_text p)

abbrev path_or_empty : AppResult FilePath → FilePath
path_or_empty (ok p) = p
path_or_empty (err e) = []

-- The new process is started, and this one exits.
abbrev restarted : Env → AppResult (Unit {0}) × Disk → Bool × Disk
restarted env (ok u, d) = (
  true,
  record d {
    ran = d.ran ++ (path_text (path_or_empty env.current_exe_after) ∷ codes "start" ∷ []) ∷ [];
  },
)
restarted env (err e, d) = (false, d)

-- The answer, and, after the task in the background, whether the process has exited, and the disk.
unfoldable pub perform_update : Env → Host → Disk → Progress × (Bool × Disk)
perform_update env host d =
    if in_container host
    then (manual_required, (false, d))
    else (updating, restarted env (self_update_programmatic env d))

module _ (env : Env) (exe : FilePath) (placed : IsInstalled exe) (apart : IsApart env exe)
    (here : env.current_exe ≡ ok exe) where
  programmatic-Installed :
      (d : Disk)
      → Installed env exe
          (d.files exe)
          (self_update_programmatic env d).0
          (self_update_programmatic env d).1
  unfolding self_update_programmatic
  programmatic-Installed d =
      let Q = Installed env exe (d.files exe) in
      bind-Outcome Q (lift env.get_release) _ d (λ x r. inl refl)
        λ release r. elim (Bool-cases (text_eq (latest_of release) env.current_version)) [
          | inl y ↦ rw y (inl refl)
          | inr n ↦ rw n (
              bind-Outcome Q (lift (download env release)) _ d (λ x f. inl refl)
                λ bytes f.
                  install-Installed env exe placed (d.files exe) bytes
                    (download-IsDownloaded env release bytes r f) d here apart refl)
        ]

  -- Before an exit the new executable is in place; without one it may be the old one.
  abbrev pub Leaves : Disk → Bool × Disk → Type 0
  Leaves before (exited, d) = elim exited [
    | true ↦ IsUnpacked env exe d
    | false ↦ At exe (before.files exe) d ⊎ IsUnpacked env exe d
  ]

  restarted-Leaves :
      (before d : Disk) (r : AppResult (Unit {0}))
      → Installed env exe (before.files exe) r d
      → Leaves before (restarted env (r, d))
  restarted-Leaves before d (ok u) h = h
  restarted-Leaves before d (err e) h = h

  -- Whatever fails, the process exits for a restart only after the executable has become, with the
  -- permissions 755, the whole of `unver` in the archive that was downloaded from the release's asset for
  -- this platform; where it goes on, the executable is the old one or that one.
  pub perform_update-Leaves : (host : Host) (d : Disk) → Leaves d (perform_update env host d).1
  unfolding perform_update
  perform_update-Leaves host d = elim (Bool-cases (in_container host)) [
    | inl y ↦ rw y (inl refl)
    | inr n ↦ rw n (
        restarted-Leaves d (self_update_programmatic env d).1 (self_update_programmatic env d).0
          (programmatic-Installed d))
  ]

abbrev offers : AppResult Check → Bool
offers (err e) = false
offers (ok c) = c.has_update

no_update :
    (env : Env) (release : Release) (d : Disk)
    → text_eq (latest_of release) env.current_version ≡ false
    → env.get_release ≡ ok release
    → ¬ ((self_update env d).0 ≡ ok up_to_date)
unfolding self_update
no_update env release d n g =
    let Q : AppResult Update → Disk → Type 0 = λ r s. ¬ (r ≡ ok up_to_date) in
    bind-Outcome Q (lift env.get_release) _ d (λ x r e. absurd (cc))
      λ found r.
        let same : found ≡ release = cc in
        rw (same, n)
          (bind-Outcome Q (lift (download env release)) _ d (λ x r' e. absurd (cc))
            λ bytes r'.
              bind-Outcome Q (install env bytes) _ d (λ x r'' e. absurd (cc))
                λ a r'' e. absurd (cc))

-- The panel and the command agree: where the panel has an answer, it offers no update exactly if the
-- command, with the same release, reports that there is none.
pub check_update-self_update :
    (env : Env) (html_url : Option Text) (host : Host) (d : Disk) (check : Check)
    → check_update env html_url host ≡ ok check
    → (check.has_update ≡ false) ↔ ((self_update env d).0 ≡ ok up_to_date)
unfolding check_update self_update
check_update-self_update env html_url host d check h = elim (Result-cases env.get_release) [
  | inl (x, e) ↦ absurd (cc (rw (check_update, e) at h))
  | inr (release, e) ↦
      let same = ap offers (rw (check_update, e) at h) in
      elim (Bool-cases (text_eq (latest_of release) env.current_version)) [
        | inl y ↦ (λ f. rw (self_update, e, y) refl, λ f. sym same ∙ rw y refl)
        | inr n ↦ (
          λ f. let yes : true ≡ false = rw n at (same ∙ f) in absurd (cc),
          λ f. absurd (no_update env release d n e f),
        )
      ]
]
