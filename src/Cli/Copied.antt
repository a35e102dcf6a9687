-- ===== src/Cli/Copied.antt =====
-- What `copy_dir_all` of backend/src/cli.rs makes of a place where nothing was.
use unver.Prelude.{
  ℕ, ◌≡◌, refl, sym, ap, ◌∙◌, inl, inr, false, Option, none, some, [], ◌∷◌, ◌++◌, Text, text_eq,
  text_eq_iff, Bool-cases, if◌then◌else◌,
}
use mathlib.Core.Path.{subst}
use unver.Prelude.Distinct.{text_eq_sym}
use mathlib.Core.List.{append_assoc, append-nil}
use unver.Errors.{ok}
use unver.Action.{Keeps, then-ok}
use unver.Disk.{FilePath, Entry, Disk, put, copy_file, create_dir_all}
use unver.Disk.Locality.{is_under-sibling}
use unver.Disk.Effects.{
  copy_file-put, create_dir_all-put, same_path_self, same_path-append, is_under-shorter,
}
use unver.Cli.Update.{Node, Entries, file, dir, end, entry, copy_node, copy_entries}
use unver.Cli.Unpacking.{copy_node-Keeps}

unfoldable mutual
  -- What stands in a tree at a path from its top.
  pub node_at : Node → FilePath → Option Entry
  node_at (file b m) [] = some (Entry.file b m)
  node_at (file b m) (n ∷ r) = none
  node_at (dir es) [] = some Entry.dir
  node_at (dir es) (n ∷ r) = entries_at es n r none

  -- The same below a directory, over what was there.
  pub entries_at : Entries → Text → FilePath → Option Entry → Option Entry
  entries_at end n r old = old
  entries_at (entry m t es) n r old = if text_eq m n then node_at t r else entries_at es n r old

abbrev Lacks : Text → Entries → Type 0
Lacks m end = Unit
Lacks m (entry k t es) = (text_eq k m ≡ false) × Lacks m es

-- The names of each directory are different.
mutual
  pub data IsProper : Node → Type 0 where
    proper_file : {b : Text} {m : ℕ} → IsProper (file b m)
    proper_dir : {es : Entries} → AreProper es → IsProper (dir es)

  pub data AreProper : Entries → Type 0 where
    proper_end : AreProper end
    proper_entry :
        {m : Text} {t : Node} {es : Entries}
        → IsProper t
        → Lacks m es
        → AreProper es
        → AreProper (entry m t es)

-- Nothing is there, nor below.
abbrev pub IsVacant : FilePath → Disk → Type 0
IsVacant p d = (r : FilePath) → d.files (p ++ r) ≡ none

abbrev Vacant : FilePath → Entries → Disk → Type 0
Vacant dst end d = Unit
Vacant dst (entry m t es) d = IsVacant (dst ++ m ∷ []) d × Vacant dst es d

entries_at-Lacks :
    (es : Entries) (n : Text) (r : FilePath) (old : Option Entry)
    → Lacks n es
    → entries_at es n r old ≡ old
unfolding entries_at
entries_at-Lacks end n r old l = refl
entries_at-Lacks (entry k t es) n r old (e, l) = rw e (entries_at-Lacks es n r old l)

-- A write below one name leaves the other names alone.
beside :
    (m : Text) (t : Node) (dst : FilePath) (d : Disk) (n : Text) (r : FilePath)
    → text_eq m n ≡ false
    → (copy_node t (dst ++ m ∷ []) d).1.files (dst ++ n ∷ r) ≡ d.files (dst ++ n ∷ r)
unfolding Keeps
beside m t dst d n r e =
    copy_node-Keeps (dst ++ n ∷ r) (d.files (dst ++ n ∷ r)) t (dst ++ m ∷ [])
      (rw (is_under-sibling dst m n r) e) d refl

Vacant-beside :
    (m : Text) (t : Node) (dst : FilePath) (d : Disk) (es : Entries)
    → Lacks m es
    → Vacant dst es d
    → Vacant dst es (copy_node t (dst ++ m ∷ []) d).1
Vacant-beside m t dst d end l v = tt
Vacant-beside m t dst d (entry k u es) (e, l) (h, v) = (
  λ r.
      rw (append_assoc dst (k ∷ []) r)
        (beside m t dst d k r (text_eq_sym k m e) ∙ rw (append_assoc dst (k ∷ []) r) at (h r)),
  Vacant-beside m t dst d es l v,
)

abbrev pub Copies : Node → FilePath → Disk → Type 0
Copies t dst d = (r : FilePath) → d.files (dst ++ r) ≡ node_at t r

abbrev Overlays : Entries → FilePath → Disk → Disk → Type 0
Overlays es dst before d =
    (d.files dst ≡ before.files dst)
    × ((n : Text) (r : FilePath)
        → d.files (dst ++ n ∷ r) ≡ entries_at es n r (before.files (dst ++ n ∷ r)))

put-alone :
    (e : Entry) (dst : FilePath) (d : Disk)
    → IsVacant dst d
    → (put dst e d.files (dst ++ []) ≡ some e)
      × ((n : Text) (r : FilePath) → put dst e d.files (dst ++ n ∷ r) ≡ none)
put-alone e dst d v =
    (rw (append-nil dst, same_path_self dst) refl, λ n r. rw (same_path-append dst n r) (v (n ∷ r)))

vacant_root : (dst : FilePath) (d : Disk) → IsVacant dst d → d.files dst ≡ none
vacant_root dst d v = rw (append-nil dst) at (v [])

file-Copies :
    (b : Text) (m : ℕ) (dst : FilePath) (d : Disk)
    → IsVacant dst d
    → (copy_file (Entry.file b m) dst d).0 ≡ ok tt
    → Copies (file b m) dst (copy_file (Entry.file b m) dst d).1
unfolding node_at
file-Copies b m dst d v o [] =
    let e = copy_file-put (Entry.file b m) dst d (vacant_root dst d v) o in
    rw e (put-alone (Entry.file b m) dst d v).0
file-Copies b m dst d v o (n ∷ r) =
    let e = copy_file-put (Entry.file b m) dst d (vacant_root dst d v) o in
    rw e ((put-alone (Entry.file b m) dst d v).1 n r)

-- The entries of a directory go to vacant places where it is vacant.
Vacant-of :
    (es : Entries) (dst : FilePath) (d : Disk)
    → ((n : Text) (r : FilePath) → d.files (dst ++ n ∷ r) ≡ none)
    → Vacant dst es d
Vacant-of end dst d h = tt
Vacant-of (entry m t es) dst d h =
    (λ r. rw (append_assoc dst (m ∷ []) r) (h m r), Vacant-of es dst d h)

dir-Copies :
    (es : Entries) (dst : FilePath) (before after : Disk)
    → before.files dst ≡ some Entry.dir
    → ((n : Text) (r : FilePath) → before.files (dst ++ n ∷ r) ≡ none)
    → Overlays es dst before after
    → Copies (dir es) dst after
unfolding node_at
dir-Copies es dst before after top below (same, over) [] = rw (append-nil dst) (same ∙ top)
dir-Copies es dst before after top below (same, over) (n ∷ r) =
    over n r ∙ ap (entries_at es n r) (below n r)

entry-Overlays :
    (m : Text) (t : Node) (es : Entries) (dst : FilePath) (d after : Disk)
    → Lacks m es
    → Copies t (dst ++ m ∷ []) (copy_node t (dst ++ m ∷ []) d).1
    → Overlays es dst (copy_node t (dst ++ m ∷ []) d).1 after
    → Overlays (entry m t es) dst d after
unfolding entries_at Keeps
entry-Overlays m t es dst d after l copied (same, over) = (
  same ∙ copy_node-Keeps dst (d.files dst) t (dst ++ m ∷ []) (is_under-shorter dst m) d refl,
  λ n r. elim (Bool-cases (text_eq m n)) [
    | inl y ↦
        let named : m ≡ n = (text_eq_iff m n).0 y in
        let here = rw (append_assoc dst (m ∷ []) r) at (copied r) in
        rw y (
          over n r
          ∙ entries_at-Lacks es n r _ (subst (λ k. Lacks k es) named l)
          ∙ subst (λ k. (copy_node t (dst ++ m ∷ []) d).1.files (dst ++ k ∷ r) ≡ node_at t r) named
              here)
    | inr z ↦ rw z (over n r ∙ ap (entries_at es n r) (beside m t dst d n r z))
  ],
)

mutual
  unfolding copy_node copy_entries entries_at

  pub copy_node-Copies :
      (t : Node) (dst : FilePath) (d : Disk)
      → IsProper t
      → IsVacant dst d
      → (copy_node t dst d).0 ≡ ok tt
      → Copies t dst (copy_node t dst d).1
  copy_node-Copies (file b m) dst d p v o = file-Copies b m dst d v o
  copy_node-Copies (dir es) dst d (proper_dir p) v o =
      let (e1, e2, e3) = then-ok (create_dir_all dst) (copy_entries es dst) d tt o in
      let c = create_dir_all-put dst d (vacant_root dst d v) e1 in
      let alone = put-alone Entry.dir dst d v in
      let top : (create_dir_all dst d).1.files dst ≡ some Entry.dir =
        rw c (rw (append-nil dst) at alone.0) in
      let below : (n : Text) (r : FilePath) → (create_dir_all dst d).1.files (dst ++ n ∷ r) ≡ none =
        λ n r. rw c (alone.1 n r) in
      subst (Copies (dir es) dst) (sym e3) (
        dir-Copies es dst (create_dir_all dst d).1 (copy_entries es dst (create_dir_all dst d).1).1
          top below
          (copy_entries-Overlays es dst (create_dir_all dst d).1 p (Vacant-of es dst _ below) e2))

  copy_entries-Overlays :
      (es : Entries) (dst : FilePath) (d : Disk)
      → AreProper es
      → Vacant dst es d
      → (copy_entries es dst d).0 ≡ ok tt
      → Overlays es dst d (copy_entries es dst d).1
  copy_entries-Overlays end dst d p v o = (refl, λ n r. refl)
  copy_entries-Overlays (entry m t es) dst d (proper_entry pt l pe) (vt, ve) o =
      let (e1, e2, e3) = then-ok (copy_node t (dst ++ m ∷ [])) (copy_entries es dst) d tt o in
      subst (Overlays (entry m t es) dst d) (sym e3) (
        entry-Overlays m t es dst d (copy_entries es dst (copy_node t (dst ++ m ∷ []) d).1).1 l
          (copy_node-Copies t (dst ++ m ∷ []) d pt vt e1)
          (copy_entries-Overlays es dst (copy_node t (dst ++ m ∷ []) d).1 pe
            (Vacant-beside m t dst d es l ve) e2))
