-- ===== src/Cli/Unpacking.antt =====
-- What the writes of an update of backend/src/cli.rs into the temporary directory and of the static files
-- leave alone.
use unver.Prelude.{◌≡◌, refl, false, Option, [], ◌∷◌, ◌++◌, Text, codes, arith, none, some}
use unver.Errors.{AppResult, ok, err}
use unver.Action.{Keeps, bind-Keeps, pure-Keeps}
use unver.Disk.{FilePath, Entry, is_under, within, remove_dir_all, when_exists}
use unver.Disk.Locality.{
  At, Local, operate-Keeps, copy_file-Keeps, create_dir_all-Keeps, remove_dir_all-Keeps,
  rename-Keeps, when_exists-Keeps, ignore_error-Keeps,
}
use unver.Cli.Update.{
  Archive, Env, extracted, unpack_to, fill, Node, Entries, file, dir, end, entry, copy_node,
  copy_entries, target_static, tmp_static, old_static, replace_static,
}

-- Paths of one tree are kept apart by the names where they part.
pub is_under-append : (p q x : FilePath) → is_under p x ≡ false → is_under (p ++ q) x ≡ false
is_under-append [] q x h = cc
is_under-append (n ∷ p) q [] h = refl
is_under-append (n ∷ p) q (m ∷ x) h = ground (arith, is_under-append p q x)

module _ (x : FilePath) (v : Option Entry) where
  extracted-Local :
      (p : FilePath)
      → is_under p x ≡ false
      → (archive : AppResult Archive) → Local x v (extracted p archive)
  extracted-Local p away (err e) files after h = absurd (cc)
  extracted-Local p away (ok archive) files after h = ground (arith, away)

  unpack_to-Keeps :
      (p : FilePath)
      → is_under p x ≡ false
      → (archive : AppResult Archive) → Keeps (At x v) (unpack_to p archive)
  unpack_to-Keeps p away archive =
      operate-Keeps x v (within p) (extracted p archive) (λ junk files. rw away refl)
        (extracted-Local p away archive)

  pub fill-Keeps :
      (env : Env) (bytes : Text) (tmpdir : FilePath)
      → is_under tmpdir x ≡ false
      → Keeps (At x v) (fill env bytes tmpdir)
  fill-Keeps env bytes tmpdir away =
      let below : (n : Text) → is_under (tmpdir ++ n ∷ []) x ≡ false =
        λ n. is_under-append tmpdir (n ∷ []) x away in
      bind-Keeps (At x v) _ _
        (copy_file-Keeps x v (tmpdir ++ codes "unver.tar.gz" ∷ []) (below (codes "unver.tar.gz")) _)
        λ _.
          bind-Keeps (At x v) _ _
            (create_dir_all-Keeps x v (tmpdir ++ codes "extracted" ∷ [])
              (below (codes "extracted")))
            λ _.
              unpack_to-Keeps (tmpdir ++ codes "extracted" ∷ []) (below (codes "extracted"))
                (env.unpack bytes)

module _ (x : FilePath) (v : Option Entry) where
  -- Copying a directory writes at its target and below.
  mutual
    unfolding copy_node copy_entries

    pub copy_node-Keeps :
        (t : Node) (dst : FilePath) → is_under dst x ≡ false → Keeps (At x v) (copy_node t dst)
    copy_node-Keeps (file b m) dst away = copy_file-Keeps x v dst away (Entry.file b m)
    copy_node-Keeps (dir es) dst away =
        bind-Keeps (At x v) _ _ (create_dir_all-Keeps x v dst away)
          λ _. copy_entries-Keeps es dst away

    copy_entries-Keeps :
        (es : Entries) (dst : FilePath)
        → is_under dst x ≡ false
        → Keeps (At x v) (copy_entries es dst)
    copy_entries-Keeps end dst away = pure-Keeps (At x v) tt
    copy_entries-Keeps (entry name child es) dst away =
        bind-Keeps (At x v) _ _
          (copy_node-Keeps child (dst ++ name ∷ []) (is_under-append dst (name ∷ []) x away))
          λ _. copy_entries-Keeps es dst away

  module _ (parent : FilePath) (a : is_under (target_static parent) x ≡ false)
      (b : is_under (tmp_static parent) x ≡ false)
      (c : is_under (old_static parent) x ≡ false) where
    clear-Keeps :
        (p : FilePath) → is_under p x ≡ false → Keeps (At x v) (when_exists p (remove_dir_all p))
    clear-Keeps p away =
        when_exists-Keeps x v p (remove_dir_all p) (remove_dir_all-Keeps x v p away)

    pub replace_static-Keeps : (t : Option Node) → Keeps (At x v) (replace_static parent t)
    unfolding replace_static
    replace_static-Keeps none = pure-Keeps (At x v) tt
    replace_static-Keeps (some (file bytes m)) = pure-Keeps (At x v) tt
    replace_static-Keeps (some (dir es)) =
        bind-Keeps (At x v) _ _ (clear-Keeps (tmp_static parent) b) λ _.
          bind-Keeps (At x v) _ _ (copy_node-Keeps (dir es) (tmp_static parent) b) λ _.
            bind-Keeps (At x v) _ _
              (when_exists-Keeps x v (target_static parent) _ (
                bind-Keeps (At x v) _ _ (clear-Keeps (old_static parent) c)
                  λ _. rename-Keeps x v (target_static parent) a (old_static parent) c))
              λ _.
                bind-Keeps (At x v) _ _
                  (rename-Keeps x v (tmp_static parent) b (target_static parent) a)
                  λ _.
                    when_exists-Keeps x v (old_static parent) _
                      (ignore_error-Keeps x v _ (remove_dir_all-Keeps x v (old_static parent) c))
