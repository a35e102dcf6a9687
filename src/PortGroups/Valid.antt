-- ===== src/PortGroups/Valid.antt =====
-- The invariant of the table `port_groups` that backend/src/api/port_groups.rs keeps by its checks, as
-- the schema does not: ports are in range, and no two groups share one.
use unver.Prelude.{
  inl, inr, Bool, true, false, some, List, [], ◌∷◌, ◌++◌, ◌≡◌, refl, sym, arith, Text, text_eq,
  text_eq_iff, is_some, find_first, All, All-append, All-zip, Bool-cases, Option-cases,
}
use unver.Prelude.Int.{ℤ, int_eq, int_eq→eq, int_eq_refl, from_one_to}
use unver.Models.{PortGroup, CreatePortGroup}
use unver.Errors.{AppResult, ok, err}
use unver.State.{AppState}
use unver.Action.{Keeps, guarded, ◌>>◌}
use unver.PortGroups.{
  Env, has_id, update_where, set_where, check_new, new_row, insert_row, conflicts, check_port,
  set_port,
}

abbrev pub Apart : PortGroup → PortGroup → Type 0
Apart g h = (text_eq g.id h.id ≡ false) × (int_eq g.listen_port h.listen_port ≡ false)

abbrev pub IsValid : List PortGroup → Type 0
IsValid [] = Unit
IsValid (g ∷ gs) = (from_one_to 65535 g.listen_port ≡ true) × All (Apart g) gs × IsValid gs

abbrev pub HasValid : AppState → Type 0
HasValid s = IsValid s.db.port_groups

text_eq_sym : (s t : Text) → text_eq s t ≡ false → text_eq t s ≡ false
text_eq_sym s t h = ground (arith, text_eq_iff s t, text_eq_iff t s)

int_eq_sym : (a b : ℤ) → int_eq a b ≡ false → int_eq b a ≡ false
int_eq_sym a b h = elim (Bool-cases (int_eq b a)) [
  | inl e ↦ absurd (cc (int_eq→eq b a e, int_eq_refl a))
  | inr e ↦ e
]

-- A new group behind the others.
append-IsValid :
    (gs : List PortGroup) (g : PortGroup)
    → IsValid gs
    → from_one_to 65535 g.listen_port ≡ true
    → All (λ h. Apart h g) gs
    → IsValid (gs ++ g ∷ [])
append-IsValid [] g v r a = (r, tt, tt)
append-IsValid (h ∷ gs) g (p, q, v) r (a, rest) =
    (p, All-append (Apart h) gs (g ∷ []) q (a, tt), append-IsValid gs g v r rest)

find_first-All :
    {A : Type 0} (test : A → Bool) (xs : List A)
    → is_some (find_first test xs) ≡ false
    → All (λ x. test x ≡ false) xs
find_first-All test [] h = tt
find_first-All test (x ∷ xs) h = elim (Bool-cases (test x)) [
  | inl e ↦ absurd (ground arith)
  | inr e ↦ (e, find_first-All test xs (ground arith))
]

pub insert_row-Keeps :
    (env : Env) (body : CreatePortGroup) (s : AppState)
    → HasValid s
    → check_new env body.listen_port s ≡ ok tt
    → HasValid (insert_row (new_row env body) s).1
unfolding check_new
insert_row-Keeps env body s v c =
    elim (Bool-cases (is_some (find_first (has_id env.new_id) s.db.port_groups))) [
      | inl e ↦ rw e v
      | inr e ↦ rw e (
          append-IsValid s.db.port_groups (new_row env body) v (ground arith) (
            All-zip _ _ _ (λ h p q. (p, q)) s.db.port_groups
              (find_first-All (has_id env.new_id) s.db.port_groups e)
              (find_first-All (λ g. int_eq g.listen_port body.listen_port) s.db.port_groups
                (ground arith))))
    ]

-- A change of a row that keeps its id and its port.
abbrev pub KeepsKeys : (PortGroup → PortGroup) → Type 0
KeepsKeys f = (g : PortGroup) → ((f g).id ≡ g.id) × ((f g).listen_port ≡ g.listen_port)

update_where-All :
    (id : Text) (f : PortGroup → PortGroup) (P Q : PortGroup → Type 0)
    → ((g : PortGroup) → has_id id g ≡ true → P g → Q (f g))
    → ((g : PortGroup) → has_id id g ≡ false → P g → Q g)
    → (gs : List PortGroup) → All P gs
    → All Q (update_where id f gs)
update_where-All id f P Q own other [] a = tt
update_where-All id f P Q own other (g ∷ gs) (p, a) =
    let rest = update_where-All id f P Q own other gs a in
    elim (Bool-cases (has_id id g)) [
      | inl e ↦ rw e (own g e p, rest)
      | inr e ↦ rw e (other g e p, rest)
    ]

update_where-Apart :
    (id : Text) (f : PortGroup → PortGroup) (k : KeepsKeys f) (g : PortGroup) (gs : List PortGroup)
    → All (Apart g) gs
    → All (Apart g) (update_where id f gs)
update_where-Apart id f k g gs a =
    update_where-All id f (Apart g) (Apart g) (λ h e (p, q). (rw ((k h).0) p, rw ((k h).1) q))
      (λ h e p. p) gs a

pub update_where-IsValid :
    (id : Text) (f : PortGroup → PortGroup) (k : KeepsKeys f) (gs : List PortGroup)
    → IsValid gs
    → IsValid (update_where id f gs)
update_where-IsValid id f k [] v = tt
update_where-IsValid id f k (g ∷ gs) (p, q, v) =
    let rest = update_where-IsValid id f k gs v in
    let tail = update_where-Apart id f k g gs q in
    elim (Bool-cases (has_id id g)) [
      | inl e ↦ rw e (rw ((k g).1) p, rw ((k g).0, (k g).1) tail, rest)
      | inr e ↦ rw e (p, tail, rest)
    ]

-- Every other group has another port.
abbrev IsFree : Text → ℤ → PortGroup → Type 0
IsFree id port g = has_id id g ≡ false → int_eq g.listen_port port ≡ false

same-id :
    (id : Text) (g h : PortGroup)
    → has_id id g ≡ true
    → has_id id h ≡ true
    → text_eq g.id h.id ≡ false
    → ⊥
same-id id g h p q n =
    ground (arith, text_eq_iff g.id id, text_eq_iff h.id id, text_eq_iff g.id h.id)

set_port-IsValid :
    (env : Env) (id : Text) (port : ℤ) (gs : List PortGroup)
    → IsValid gs
    → from_one_to 65535 port ≡ true
    → All (IsFree id port) gs
    → IsValid (update_where id (set_port env port) gs)
set_port-IsValid env id port [] v r a = tt
set_port-IsValid env id port (g ∷ gs) (p, q, v) r (free, a) =
    let rest = set_port-IsValid env id port gs v r a in
    elim (Bool-cases (has_id id g)) [
      | inl e ↦ rw e (
        r,
        update_where-All id (set_port env port) (λ h. IsFree id port h × Apart g h)
            (Apart (set_port env port g)) (λ h own (y, x). absurd (same-id id g h e own x.0))
            (λ h other (y, x). (x.0, int_eq_sym h.listen_port port (y other))) gs
            (All-zip _ _ _ (λ h x y. (x, y)) gs a q),
        rest,
      )
      | inr e ↦ rw e (
        p,
        update_where-All id (set_port env port) (Apart g) (Apart g) (λ h own (x, y). (x, free e))
            (λ h ne x. x) gs q,
        rest,
      )
    ]

find_first-All_some :
    {A : Type 0} (test : A → Bool) (P : A → Type 0) (xs : List A) (x : A)
    → All P xs
    → find_first test xs ≡ some x
    → P x
find_first-All_some test P [] x a e = cc
find_first-All_some test P (y ∷ xs) x (p, a) e = elim (Bool-cases (test y)) [
  | inl t ↦ let same : y ≡ x = ground arith in rw (sym same) p
  | inr t ↦ find_first-All_some test P xs x a (ground arith)
]

-- The port that a group has already.
current-IsFree :
    (id : Text) (gs : List PortGroup) (c : PortGroup)
    → IsValid gs
    → find_first (has_id id) gs ≡ some c
    → All (IsFree id c.listen_port) gs
current-IsFree id [] c v e = tt
current-IsFree id (g ∷ gs) c (p, q, v) e = elim (Bool-cases (has_id id g)) [
  | inl t ↦
      let same : g ≡ c = ground arith in
      (
        λ f. cc,
        All-zip (Apart g) (Apart g) (IsFree id c.listen_port)
            (λ h x y f. rw (sym same) (int_eq_sym g.listen_port h.listen_port x.1)) gs q q,
      )
  | inr t ↦
      let rest : find_first (has_id id) gs ≡ some c = ground arith in
      (
        λ f. (find_first-All_some (has_id id) (Apart g) gs c q rest).1,
        current-IsFree id gs c v rest,
      )
]

check_port-IsFree :
    (env : Env) (id : Text) (port : ℤ) (s : AppState)
    → HasValid s
    → check_port env id port s ≡ ok tt
    → (from_one_to 65535 port ≡ true) × All (IsFree id port) s.db.port_groups
unfolding check_port
check_port-IsFree env id port s v c =
    elim (Option-cases (find_first (has_id id) s.db.port_groups)) [
      | inl e ↦ absurd (ground arith)
      | inr (current, e) ↦ (
        ground arith,
        elim (Bool-cases (int_eq port current.listen_port)) [
          | inl same ↦
              rw (int_eq→eq port current.listen_port same)
                (current-IsFree id s.db.port_groups current v e)
          | inr other ↦
              All-zip _ _ _ (λ g x y f. ground arith) s.db.port_groups
                (find_first-All (conflicts id port) s.db.port_groups (ground arith))
                (find_first-All (conflicts id port) s.db.port_groups (ground arith))
        ],
      )
    ]

pub port-Keeps :
    (env : Env) (id : Text) (port : ℤ)
    → Keeps HasValid (guarded (check_port env id port) >> set_where id (set_port env port))
unfolding Keeps
port-Keeps env id port s v = go (check_port env id port s) refl
  where
    go :
        (r : AppResult (Unit {0}))
        → check_port env id port s ≡ r
        → HasValid ((guarded (λ t. r) >> set_where id (set_port env port)) s).1
    go (ok tt) e =
        let (r, a) = check_port-IsFree env id port s v e in
        set_port-IsValid env id port s.db.port_groups v r a
    go (err x) e = v
