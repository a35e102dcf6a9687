-- ===== src/Cli/Whole.antt =====
-- What a self-update of backend/src/cli.rs that succeeds has made of the static files.
use unver.Prelude.{
  if◌then◌else◌, ap, ◌≡◌, refl, sym, ◌∙◌, inl, inr, false, Option, some, [], ◌∷◌, ◌++◌, Text, codes,
  text_eq, Bool-cases,
}
use mathlib.Core.List.{append_assoc}
use mathlib.Core.Path.{subst}
use unver.Errors.{err, internal, ok}
use unver.Action.{Action, fail, lift, ◌>>=◌, ◌>>◌, Keeps, then-ok}
use unver.Disk.{Entry, create_dir_all, remove_dir_all, FilePath, Disk, IsClosed, is_under}
use unver.Disk.Locality.{At, remove_dir_all-Keeps, create_dir_all-Keeps, is_under-sibling}
use unver.Disk.Effects.{nothing_below}
use unver.Cli.Unpacking.{fill-Keeps}
use unver.Cli.Update.{
  fill, replace, with_tempdir, Node, Entries, dir, Archive, Release, Env, latest_of, download,
  parent_of, target_static, tmp_static, replace_binary, replace_static, install,
  self_update_programmatic,
}
use unver.Cli.Replaced.{exe_name}
use unver.Cli.Copied.{IsProper, Copies}
use unver.Cli.Static.{IsRooted, replace_static-Copies}
use unver.Cli.Elsewhere.{replace_binary-Keeps}

-- The executable lies in a directory and is not called `.static.new`.
abbrev pub IsPlaced : FilePath → Type 0
IsPlaced exe =
    (exe ≡ parent_of exe ++ exe_name exe ∷ [])
    × (text_eq (exe_name exe) (codes ".static.new") ≡ false)

-- The temporary directory is neither `static` nor `.static.new` beside the executable, nor above them.
abbrev pub IsOutside : FilePath → FilePath → Type 0
IsOutside tmpdir parent =
    (r : FilePath)
    → (is_under tmpdir (parent ++ codes "static" ∷ r) ≡ false)
      × (is_under tmpdir (parent ++ codes ".static.new" ∷ r) ≡ false)

-- What is kept below a path is rooted if it was.
Keeps-IsRooted :
    (parent : FilePath) (n : Text) (m : Action Disk (Unit {0})) (d : Disk)
    → ((r : FilePath) (v : Option Entry) → Keeps (At (parent ++ n ∷ r) v) m)
    → IsRooted (parent ++ n ∷ []) d
    → IsRooted (parent ++ n ∷ []) (m d).1
unfolding Keeps
Keeps-IsRooted parent n m d keeps rooted h r =
    let same : (q : FilePath) → (m d).1.files (parent ++ n ∷ q) ≡ d.files (parent ++ n ∷ q) =
      λ q. keeps q _ d refl in
    let below = rooted (sym (same []) ∙ h) r in
    rw (append_assoc parent (n ∷ []) r) (same r ∙ rw (append_assoc parent (n ∷ []) r) at below)

module _ (exe tmpdir : FilePath) (placed : IsPlaced exe)
    (outside : IsOutside tmpdir (parent_of exe)) where
  away-exe : (r : FilePath) → is_under exe (parent_of exe ++ codes ".static.new" ∷ r) ≡ false
  away-exe r =
      subst (λ q. is_under q (parent_of exe ++ codes ".static.new" ∷ r) ≡ false) (sym placed.0)
        (is_under-sibling (parent_of exe) (exe_name exe) (codes ".static.new") r ∙ placed.1)

  -- The replacement of the executable leaves `.static.new` alone.
  replace_binary-IsRooted :
      (binary : Option Node) (d : Disk)
      → IsRooted (tmp_static (parent_of exe)) d
      → IsRooted (tmp_static (parent_of exe)) (replace_binary exe binary d).1
  replace_binary-IsRooted binary d rooted =
      Keeps-IsRooted (parent_of exe) (codes ".static.new") (replace_binary exe binary) d
        (λ r v.
          replace_binary-Keeps exe (parent_of exe ++ codes ".static.new" ∷ r) v (away-exe r)
            (is_under-sibling (parent_of exe) (codes ".unver.new") (codes ".static.new") r) binary)
        rooted

  module _ (env : Env) (bytes : Text) (archive : Archive) (es : Entries)
      (here : env.current_exe ≡ ok exe) (u : env.unpack bytes ≡ ok archive)
      (st : archive.static_dir ≡ some (dir es)) (proper : IsProper (dir es)) where
    replace-Copies :
        (d : Disk)
        → IsRooted (tmp_static (parent_of exe)) d
        → (replace env bytes d).0 ≡ ok tt
        → Copies (dir es) (target_static (parent_of exe)) (replace env bytes d).1
    unfolding replace
    replace-Copies d rooted o =
        let (o1, o2, last) =
          then-ok (replace_binary exe archive.binary)
            (replace_static (parent_of exe) (some (dir es))) d tt (rw (u, here, st) at o) in
        rw (u, here, st)
          (subst (Copies (dir es) (target_static (parent_of exe))) (sym last) (
            replace_static-Copies (parent_of exe) es (replace_binary exe archive.binary d).1
              (replace_binary-IsRooted archive.binary d rooted) proper o2))

    -- The removal of the temporary directory leaves the static files alone.
    removed-Copies :
        (d : Disk)
        → Copies (dir es) (target_static (parent_of exe)) d
        → Copies (dir es) (target_static (parent_of exe)) (remove_dir_all tmpdir d).1
    unfolding Keeps
    removed-Copies d h r = rw (append_assoc (parent_of exe) (codes "static" ∷ []) r) (
        remove_dir_all-Keeps (parent_of exe ++ codes "static" ∷ r) _ tmpdir (outside r).0 d
          (rw (append_assoc (parent_of exe) (codes "static" ∷ []) r) at (h r)))

    install-Copies :
        (d : Disk)
        → env.tempdir ≡ ok tmpdir
        → IsClosed d.files
        → (install env bytes d).0 ≡ ok tt
        → Copies (dir es) (target_static (parent_of exe)) (install env bytes d).1
    unfolding install
    install-Copies d tmp closed o =
        let work : Action Disk (Unit {0}) = fill env bytes tmpdir >> replace env bytes in
        let made : Disk = (create_dir_all tmpdir d).1 in
        let (o1, o2, last) =
          then-ok (create_dir_all tmpdir) (with_tempdir tmpdir work) d tt (rw tmp at o) in
        let (p1, p2, done) = then-ok (fill env bytes tmpdir) (replace env bytes) made tt o2 in
        let rooted : IsRooted (tmp_static (parent_of exe)) d =
          λ h r. nothing_below (tmp_static (parent_of exe)) r d.files closed h in
        let rooted_made : IsRooted (tmp_static (parent_of exe)) made =
          Keeps-IsRooted (parent_of exe) (codes ".static.new") (create_dir_all tmpdir) d
            (λ r v. create_dir_all-Keeps _ v tmpdir (outside r).1) rooted in
        let rooted_filled =
          Keeps-IsRooted (parent_of exe) (codes ".static.new") (fill env bytes tmpdir) made
            (λ r v. fill-Keeps _ v env bytes tmpdir (outside r).1) rooted_made in
        let copied : Copies (dir es) (target_static (parent_of exe)) (work made).1 =
          subst (Copies (dir es) (target_static (parent_of exe))) (sym done)
            (replace-Copies (fill env bytes tmpdir made).1 rooted_filled p2) in
        rw tmp (
          subst (Copies (dir es) (target_static (parent_of exe))) (sym last)
            (removed-Copies (work made).1 copied))

abbrev after_release : Env → Release → Action Disk (Unit {0})
after_release env release =
    if text_eq (latest_of release) env.current_version
    then fail internal
    else lift (download env release) >>= λ bytes. install env bytes

released :
    (env : Env) (release : Release) (d : Disk)
    → env.get_release ≡ ok release
    → self_update_programmatic env d ≡ after_release env release d
unfolding self_update_programmatic
released env release d g = ap (λ r. (lift r >>= after_release env) d) g

programmatic-install :
    (env : Env) (release : Release) (bytes : Text) (d : Disk)
    → env.get_release ≡ ok release
    → download env release ≡ ok bytes
    → (self_update_programmatic env d).0 ≡ ok tt
    → self_update_programmatic env d ≡ install env bytes d
programmatic-install env release bytes d g f o =
    let r = released env release d g in
    elim (Bool-cases (text_eq (latest_of release) env.current_version)) [
      | inl y ↦
          let stale : after_release env release d ≡ (err internal, d) = rw y refl in
          absurd (cc (ap (λ p. p.0) (r ∙ stale)))
      | inr n ↦
          let fresh : after_release env release d
              ≡ (lift (download env release) >>= λ b. install env b) d =
            rw n refl in
          r ∙ fresh ∙ ap (λ q. (lift q >>= λ b. install env b) d) f
    ]

-- Where the self-update for the panel succeeds, on a disk on which whatever is there lies in
-- directories, and the archive that was downloaded has static files, with different names in each
-- directory, then at and below `static` beside the executable is exactly what the archive has there:
-- nothing of the old files is left.
pub self_update_programmatic-Copies :
    (exe tmpdir : FilePath) (env : Env) (release : Release) (bytes : Text) (archive : Archive)
    (es : Entries) (d : Disk)
    → IsPlaced exe
    → IsOutside tmpdir (parent_of exe)
    → env.current_exe ≡ ok exe
    → env.tempdir ≡ ok tmpdir
    → env.get_release ≡ ok release
    → download env release ≡ ok bytes
    → env.unpack bytes ≡ ok archive
    → archive.static_dir ≡ some (dir es)
    → IsProper (dir es)
    → IsClosed d.files
    → (self_update_programmatic env d).0 ≡ ok tt
    → Copies (dir es) (target_static (parent_of exe)) (self_update_programmatic env d).1
self_update_programmatic-Copies exe tmpdir env release bytes archive es d placed outside here tmp g
      f u st proper closed o =
    let same = programmatic-install env release bytes d g f o in
    subst (λ p. Copies (dir es) (target_static (parent_of exe)) p.1) (sym same)
      (install-Copies exe tmpdir placed outside env bytes archive es here u st proper d tmp closed
        (sym (ap (λ p. p.0) same) ∙ o))
