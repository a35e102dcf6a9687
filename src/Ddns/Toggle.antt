-- ===== src/Ddns/Toggle.antt =====
-- `ddns_toggle` and `ddns_status` of backend/src/api/settings.rs, and the domains that
-- backend/src/ddns/mod.rs updates.
use mathlib.Core.Path.{ap₂}
use unver.Prelude.{
  inl, inr, Bool, true, false, not, ◌||◌, ◌≡◌, refl, sym, ap, ◌∙◌, List, [], ◌∷◌, ◌++◌, map, arith,
  Text, codes, text_eq, text_eq_iff, text_eq_refl, is_empty, any, retain, split_on, All, All-append,
  retain-All, Bool-cases,
}
use unver.Prelude.Trim.{trim}
use unver.Prelude.Assoc.{lookup-insert, lookup-insert_self}
use unver.Prelude.Join.{Free, join_with, split_on-join_with}
use unver.State.{Db, get_setting, set_setting}
use unver.Ddns.{collect_domains}
use unver.Ddns.Switches.{disabled_list, is_disabled, toggled, ddns_toggle}

get_setting-set_setting :
    (key value : Text) (db : Db) → get_setting (set_setting key value db) key ≡ value
unfolding get_setting set_setting
get_setting-set_setting key value db = rw (lookup-insert_self key value db.settings) refl

get_setting-other :
    (key other value : Text) (db : Db)
    → text_eq key other ≡ false
    → get_setting (set_setting key value db) other ≡ get_setting db other
unfolding get_setting set_setting
get_setting-other key other value db h = rw (lookup-insert key other value db.settings, h) refl

-- A name as it stands between commas.
abbrev pub IsName : Text → Type 0
IsName d = (is_empty d ≡ false) × (trim d ≡ d) × Free b',' d

-- The setting holds names with commas between them.
abbrev pub IsSettled : Db → Type 0
IsSettled db =
    (ds : List Text) × (get_setting db (codes "ddns_disabled") ≡ join_with b',' ds) × All IsName ds

kept_names : (ds : List Text) → All IsName ds → retain (λ d. not (is_empty d)) (map trim ds) ≡ ds
kept_names [] h = refl
kept_names (d ∷ ds) ((e, t, f), h) = rw (t, retain, e) (ap₂ (λ a r. a ∷ r) t (kept_names ds h))

names-Free : (ds : List Text) → All IsName ds → All (Free b',') ds
names-Free [] h = tt
names-Free (d ∷ ds) ((e, t, f), h) = (f, names-Free ds h)

split-names :
    (ds : List Text)
    → All IsName ds
    → retain (λ d. not (is_empty d)) (map trim (split_on b',' (join_with b',' ds))) ≡ ds
split-names [] h = unfold trim in refl
split-names (d ∷ ds) h =
    rw (split_on-join_with b',' d ds (names-Free (d ∷ ds) h)) (kept_names (d ∷ ds) h)

abbrev is_name : Text → Text → Bool
is_name domain d = text_eq d domain

any-append : (p : Text → Bool) (ds : List Text) (d : Text) → any p (ds ++ d ∷ []) ≡ any p ds || p d
any-append p [] d = ground arith
any-append p (x ∷ ds) d = ground (arith, any-append p ds d)

any-removed :
    (domain : Text) (ds : List Text)
    → any (is_name domain) (retain (λ d. not (is_name domain d)) ds) ≡ false
any-removed domain [] = refl
any-removed domain (d ∷ ds) =
    let rest = any-removed domain ds in
    elim (Bool-cases (is_name domain d)) [
      | inl e ↦ rw (retain, e) rest
      | inr e ↦ rw (retain, e, any, e) rest
    ]

any-other :
    (domain other : Text) (ds : List Text)
    → text_eq domain other ≡ false
    → any (is_name other) (retain (λ d. not (is_name domain d)) ds) ≡ any (is_name other) ds
any-other domain other [] h = refl
any-other domain other (d ∷ ds) h =
    let rest = any-other domain other ds h in
    elim (Bool-cases (is_name domain d)) [
      | inl e ↦
          let same : d ≡ domain = (text_eq_iff d domain).0 e in
          let no : is_name other d ≡ false = cc in rw (retain, e, no) rest
      | inr e ↦ rw (retain, e) (ap (λ b. is_name other d || b) rest)
    ]

toggled_self :
    (b : Bool) (domain : Text) (ds : List Text) → any (is_name domain) (toggled b domain ds) ≡ not b
toggled_self true domain ds = any-removed domain ds
toggled_self false domain ds = elim (Bool-cases (any (is_name domain) ds)) [
  | inl e ↦ rw (toggled, e) e
  | inr e ↦
      rw (toggled, e) (any-append (is_name domain) ds domain ∙ ground (arith, text_eq_refl domain))
]

toggled_other :
    (b : Bool) (domain other : Text) (ds : List Text)
    → text_eq domain other ≡ false
    → any (is_name other) (toggled b domain ds) ≡ any (is_name other) ds
toggled_other true domain other ds h = any-other domain other ds h
toggled_other false domain other ds h = elim (Bool-cases (any (is_name domain) ds)) [
  | inl e ↦ rw (toggled, e) refl
  | inr e ↦ rw (toggled, e) (any-append (is_name other) ds domain ∙ ground arith)
]

toggled-names :
    (b : Bool) (domain : Text) (ds : List Text)
    → IsName domain
    → All IsName ds
    → All IsName (toggled b domain ds)
toggled-names true domain ds n h = retain-All (λ d. not (is_name domain d)) IsName ds h
toggled-names false domain ds n h = elim (Bool-cases (any (is_name domain) ds)) [
  | inl e ↦ rw (toggled, e) h
  | inr e ↦ rw (toggled, e) (All-append IsName ds (domain ∷ []) h (n, tt))
]

list_after :
    (domain : Text) (b : Bool) (db : Db) (ds : List Text)
    → IsName domain
    → get_setting db (codes "ddns_disabled") ≡ join_with b',' ds
    → All IsName ds
    → disabled_list (ddns_toggle domain b db) ≡ toggled b domain ds
unfolding ddns_toggle
list_after domain b db ds n e h =
    let before : disabled_list db ≡ ds = rw e (split-names ds h) in
    rw
      (
        before,
        get_setting-set_setting (codes "ddns_disabled") (join_with b',' (toggled b domain ds)) db,
      )
      (split-names (toggled b domain ds) (toggled-names b domain ds n h))

-- Where `ddns_disabled` holds trimmed names with commas between them, as it does after every toggle of
-- such a name, a toggle makes the domain disabled or enabled as it is told, leaves every other domain
-- as it was, and changes none of the domains that are updated.
pub ddns_toggle-sets :
    (domain : Text) (b : Bool) (db : Db)
    → IsName domain
    → IsSettled db
    → let after = ddns_toggle domain b db in
      IsSettled after
      × (is_disabled after domain ≡ not b)
      × ((other : Text)
          → text_eq domain other ≡ false
          → is_disabled after other ≡ is_disabled db other)
      × (collect_domains after ≡ collect_domains db)
unfolding ddns_toggle collect_domains
ddns_toggle-sets domain b db n (ds, e, h) =
    let key = codes "ddns_disabled" in
    let before : disabled_list db ≡ ds = rw e (split-names ds h) in
    let after = list_after domain b db ds n e h in
    let value = join_with b',' (toggled b domain (disabled_list db)) in
    (
      (
        toggled b domain ds,
        get_setting-set_setting key value db ∙ ap (λ l. join_with b',' (toggled b domain l)) before,
        toggled-names b domain ds n h,
      ),
      ap (any (is_name domain)) after ∙ toggled_self b domain ds,
      λ other k.
          ap (any (is_name other)) after
          ∙ toggled_other b domain other ds k
          ∙ ap (any (is_name other)) (sym before),
      rw
          (
            get_setting-other key (codes "ddns_domain") value db refl,
            get_setting-other key (codes "ddns_domains") value db refl,
          )
          refl,
    )
