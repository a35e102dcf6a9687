-- ===== src/Cli/Static.antt =====
-- The static files after an update by backend/src/cli.rs that succeeds.
use unver.Prelude.{
  ◌≡◌, refl, ap, ◌∙◌, inl, inr, false, Option, none, some, [], ◌∷◌, ◌++◌, codes, is_some,
  Bool-cases,
}
use unver.Errors.{ok}
use unver.Action.{Action, Keeps, ◌>>◌, bind-Keeps, then-ok}
use unver.Disk.{FilePath, Entry, Disk, is_under, rename, remove_dir_all, when_exists, ignore_error}
use mathlib.Core.List.{append_assoc}
use unver.Disk.Locality.{
  At, is_under-sibling, remove_dir_all-Keeps, rename-Keeps, when_exists-Keeps, ignore_error-Keeps,
}
use unver.Disk.Effects.{remove_dir_all-cleared, rename-below}
use unver.Cli.Update.{
  Entries, dir, copy_node, target_static, tmp_static, old_static, replace_static,
}
use unver.Cli.Copied.{IsProper, IsVacant, Copies, copy_node-Copies, node_at}

is_some-false : {A : Type 0} (o : Option A) → is_some o ≡ false → o ≡ none
is_some-false none e = refl
is_some-false (some a) e = absurd (cc)

-- Below what is not there nothing is.
abbrev pub IsRooted : FilePath → Disk → Type 0
IsRooted p d = d.files p ≡ none → IsVacant p d

-- After the removal of what was there, if something was, nothing is.
clear-IsVacant :
    (p : FilePath) (d : Disk)
    → IsRooted p d
    → (when_exists p (remove_dir_all p) d).0 ≡ ok tt
    → IsVacant p (when_exists p (remove_dir_all p) d).1
clear-IsVacant p d rooted o r = elim (Bool-cases (is_some (d.files p))) [
  | inl y ↦ rw y (remove_dir_all-cleared p r d (rw y at o))
  | inr n ↦ rw n (rooted (is_some-false (d.files p) n) r)
]

-- Five steps that succeed, each from where the one before ended.
five-ok :
    (a b c m e : Action Disk (Unit {0})) (d : Disk)
    → ((a >> (b >> (c >> (m >> e)))) d).0 ≡ ok tt
    → ((a d).0 ≡ ok tt)
      × ((b (a d).1).0 ≡ ok tt)
      × ((m (c (b (a d).1).1).1).0 ≡ ok tt)
      × (((a >> (b >> (c >> (m >> e)))) d).1 ≡ (e (m (c (b (a d).1).1).1).1).1)
five-ok a b c m e d o =
    let (o1, q1, s1) = then-ok a (b >> (c >> (m >> e))) d tt o in
    let (o2, q2, s2) = then-ok b (c >> (m >> e)) (a d).1 tt q1 in
    let (o3, q3, s3) = then-ok c (m >> e) (b (a d).1).1 tt q2 in
    let (o4, q4, s4) = then-ok m e (c (b (a d).1).1).1 tt q3 in (o1, o2, o4, s1 ∙ s2 ∙ s3 ∙ s4)

module _ (parent : FilePath) where
  abbrev swap_out : Action Disk (Unit {0})
  swap_out =
      when_exists (old_static parent) (remove_dir_all (old_static parent))
      >> rename (target_static parent) (old_static parent)

  swap_out-Keeps :
      (r : FilePath) (v : Option Entry)
      → Keeps
          (At (parent ++ codes ".static.new" ∷ r) v)
          (when_exists (target_static parent) swap_out)
  swap_out-Keeps r v =
      let x : FilePath = parent ++ codes ".static.new" ∷ r in
      let not_old : is_under (old_static parent) x ≡ false =
        is_under-sibling parent (codes ".static.old") (codes ".static.new") r in
      let not_target : is_under (target_static parent) x ≡ false =
        is_under-sibling parent (codes "static") (codes ".static.new") r in
      when_exists-Keeps x v (target_static parent) swap_out (
        bind-Keeps (At x v) _ _
          (when_exists-Keeps x v (old_static parent) _
            (remove_dir_all-Keeps x v (old_static parent) not_old))
          λ _. rename-Keeps x v (target_static parent) not_target (old_static parent) not_old)

  clean_up-Keeps :
      (r : FilePath) (v : Option Entry)
      → Keeps
          (At (parent ++ codes "static" ∷ r) v)
          (when_exists (old_static parent) (ignore_error (remove_dir_all (old_static parent))))
  clean_up-Keeps r v =
      let x : FilePath = parent ++ codes "static" ∷ r in
      when_exists-Keeps x v (old_static parent) _ (
        ignore_error-Keeps x v (remove_dir_all (old_static parent)) (
          remove_dir_all-Keeps x v (old_static parent)
            (is_under-sibling parent (codes ".static.old") (codes "static") r)))

  -- Where the static files are replaced without an error by a directory of the archive, in which the
  -- names of each directory are different, then at and below `static` is exactly what it holds.
  pub replace_static-Copies :
      (es : Entries) (d : Disk)
      → IsRooted (tmp_static parent) d
      → IsProper (dir es)
      → (replace_static parent (some (dir es)) d).0 ≡ ok tt
      → Copies (dir es) (target_static parent) (replace_static parent (some (dir es)) d).1
  unfolding replace_static Keeps
  replace_static-Copies es d rooted proper o r =
      let clear : Action Disk (Unit {0}) =
        when_exists (tmp_static parent) (remove_dir_all (tmp_static parent)) in
      let copy : Action Disk (Unit {0}) = copy_node (dir es) (tmp_static parent) in
      let swap : Action Disk (Unit {0}) = when_exists (target_static parent) swap_out in
      let move : Action Disk (Unit {0}) = rename (tmp_static parent) (target_static parent) in
      let clean : Action Disk (Unit {0}) =
        when_exists (old_static parent) (ignore_error (remove_dir_all (old_static parent))) in
      let (o1, o2, o4, last) = five-ok clear copy swap move clean d o in
      let copied : Disk = (copy (clear d).1).1 in
      let swapped : Disk = (swap copied).1 in
      let made : copied.files (tmp_static parent ++ r) ≡ node_at (dir es) r =
        copy_node-Copies (dir es) (tmp_static parent) (clear d).1 proper
          (clear-IsVacant (tmp_static parent) d rooted o1) o2 r in
      let kept : swapped.files (tmp_static parent ++ r) ≡ node_at (dir es) r =
        rw (append_assoc parent (codes ".static.new" ∷ []) r) (
          swap_out-Keeps r (node_at (dir es) r) copied
            (rw (append_assoc parent (codes ".static.new" ∷ []) r) at made)) in
      let renamed : (move swapped).1.files (target_static parent ++ r) ≡ node_at (dir es) r =
        rename-below (tmp_static parent) (target_static parent) r swapped o4 ∙ kept in
      ap (λ after. after.files (target_static parent ++ r)) last
      ∙ rw (append_assoc parent (codes "static" ∷ []) r) (
          clean_up-Keeps r (node_at (dir es) r) (move swapped).1
            (rw (append_assoc parent (codes "static" ∷ []) r) at renamed))
