-- ===== src/PortGroups/Listeners.antt =====
-- The listeners that `reload_listeners` of backend/src/proxy.rs opens, against the table of groups.
use unver.Prelude.{
  inl, inr, ◌⊎◌, Bool, true, false, some, List, [], ◌∷◌, ◌≡◌, arith, Text, text_eq, text_eq_iff,
  retain, if◌then◌else◌, Any, Any-retain, Bool-cases,
}
use unver.Prelude.Int.{ℤ, pos, negsuc, from_one_to, as_u16, int_leb}
use unver.Prelude.Assoc.{Assoc, lookup, lookup-insert, lookup-nil}
use unver.Models.{PortGroup}
use unver.State.{Db}
use unver.PortGroups.{Listener, listener_of, spawn_listeners, by_port, insert_by_port, reload}
use unver.PortGroups.Valid.{IsValid}

-- The listener is the group's: its id and flags, and its port without loss.
abbrev pub IsFor : Text → Listener → PortGroup → Type 0
IsFor id l g = (g.id ≡ id) × (g.enabled ≡ true) × (l ≡ listener_of g) × (g.listen_port ≡ pos l.port)

abbrev Opens : Text → Listener → PortGroup → Type 0
Opens id l g = (g.id ≡ id) × (l ≡ listener_of g)

spawn-Opens :
    (id : Text) (l : Listener) (gs : List PortGroup) (m : Assoc Listener)
    → lookup id (spawn_listeners gs m) ≡ some l
    → Any (Opens id l) gs ⊎ (lookup id m ≡ some l)
spawn-Opens id l [] m e = inr e
spawn-Opens id l (g ∷ gs) m e = elim (spawn-Opens id l gs _ e) [
  | inl a ↦ inl (inr a)
  | inr k ↦ elim (Bool-cases (text_eq g.id id)) [
    | inl t ↦
        inl
          (inl ((text_eq_iff g.id id).0 t, ground (arith, lookup-insert g.id id (listener_of g) m)))
    | inr t ↦ inr (ground (arith, lookup-insert g.id id (listener_of g) m))
  ]
]

insert_by_port-Any :
    (P : PortGroup → Type 0) (g : PortGroup) (gs : List PortGroup)
    → Any P (insert_by_port g gs)
    → Any P (g ∷ gs)
insert_by_port-Any P g [] a = a
insert_by_port-Any P g (h ∷ gs) a =
    go (int_leb g.listen_port h.listen_port) (insert_by_port-Any P g gs) a
  where
    go :
        (b : Bool)
        → (Any P (insert_by_port g gs) → Any P (g ∷ gs))
        → Any P (if b then g ∷ h ∷ gs else h ∷ insert_by_port g gs)
        → Any P (g ∷ h ∷ gs)
    go true later k = k
    go false later (inl p) = inr (inl p)
    go false later (inr k) = elim (later k) [ inl p ↦ inl p | inr a' ↦ inr (inr a') ]

by_port-Any : (P : PortGroup → Type 0) (gs : List PortGroup) → Any P (by_port gs) → Any P gs
by_port-Any P [] a = a
by_port-Any P (g ∷ gs) a = elim (insert_by_port-Any P g (by_port gs) a) [
  | inl p ↦ inl p
  | inr k ↦ inr (by_port-Any P gs k)
]

as_u16_exact : (p : ℤ) → from_one_to 65535 p ≡ true → p ≡ pos (as_u16 p)
as_u16_exact (pos n) h = ground arith
as_u16_exact (negsuc n) h = cc

in_range :
    (P Q : PortGroup → Type 0)
    → ((g : PortGroup) → from_one_to 65535 g.listen_port ≡ true → P g → Q g)
    → (gs : List PortGroup) → IsValid gs
    → Any P gs
    → Any Q gs
in_range P Q f [] v a = a
in_range P Q f (g ∷ gs) (r, _, v) (inl p) = inl (f g r p)
in_range P Q f (g ∷ gs) (r, _, v) (inr a) = inr (in_range P Q f gs v a)

-- After a reload on a valid table every listener belongs to an enabled group of the table and listens
-- on exactly that group's port; no listener of before is left.
pub reload-IsFor :
    (db : Db) (old : Assoc Listener) (id : Text) (l : Listener)
    → IsValid db.port_groups
    → lookup id (reload db old) ≡ some l
    → Any (IsFor id l) db.port_groups
unfolding reload
reload-IsFor db old id l v e =
    let enabled = λ (g : PortGroup). g.enabled in
    elim (spawn-Opens id l (by_port (retain enabled db.port_groups)) [] e) [
      | inr k ↦ absurd (ground (arith, lookup-nil {V = Listener} id))
      | inl a ↦
          in_range (λ g. Opens id l g × (g.enabled ≡ true)) (IsFor id l)
            (λ g r ((i, o), on). (i, on, o, rw o (as_u16_exact g.listen_port r))) db.port_groups v
            (Any-retain enabled (Opens id l) db.port_groups
              (by_port-Any (Opens id l) (retain enabled db.port_groups) a))
    ]
