-- ===== src/PortGroups/Handlers.antt =====
-- What the handlers of backend/src/api/port_groups.rs keep and leave behind, on success and on
-- error.
use unver.Prelude.{
  suc, inl, inr, ◌⊎◌, Bool, false, not, List, [], ◌∷◌, ◌≡◌, refl, Text, retain, find_first, All,
  retain-All, retain-none, Bool-cases, Option-cases,
}
use unver.Models.{PortGroup, CreatePortGroup, UpdatePortGroup}
use unver.Errors.{AppResult, ok, err, not_found}
use unver.State.{AppState}
use unver.Action.{
  Keeps, bind-Keeps, resume-Keeps, for_some-Keeps, gets-Keeps, modify-Keeps, ok_or-Keeps, guarded,
  ◌>>◌,
}
use unver.PortGroups.{
  Env, has_id, in_group, set_where, send_reload, get, check_new, new_row, insert_row, create,
  set_name, set_flags, update, delete_rows, delete,
}
use unver.PortGroups.Valid.{
  IsValid, HasValid, KeepsKeys, Apart, insert_row-Keeps, port-Keeps, update_where-IsValid,
}

-- A handler runs, whatever its input and its result.
pub data Step (s : AppState) : AppState → Type 0 where
  creates : (env : Env) (body : CreatePortGroup) → Step s (create env body s).1
  updates : (env : Env) (id : Text) (body : UpdatePortGroup) → Step s (update env id body s).1
  deletes : (id : Text) → Step s (delete id s).1

pub data Reach (s : AppState) : AppState → Type 0 where
  here : Reach s s
  next : {t u : AppState} → Reach s t → Step t u → Reach s u

get-Keeps : (id : Text) → Keeps HasValid (get id)
unfolding get Keeps
get-Keeps id s v = ok_or-Keeps HasValid (find_first (has_id id) s.db.port_groups) not_found s v

create-Keeps : (env : Env) (body : CreatePortGroup) → Keeps HasValid (create env body)
unfolding create Keeps
create-Keeps env body s v = go (check_new env body.listen_port s) refl
  where
    go :
        (r : AppResult (Unit {0}))
        → check_new env body.listen_port s ≡ r
        → HasValid
            ((guarded (λ t. r)
                >> (insert_row (new_row env body) >> (send_reload >> get env.new_id)))
              s).1
    go (ok tt) e =
        resume-Keeps HasValid (λ u. send_reload >> get env.new_id)
          (λ u t w. get-Keeps env.new_id (send_reload t).1 w) (insert_row (new_row env body) s).0
          (insert_row (new_row env body) s).1 (insert_row-Keeps env body s v e)
    go (err x) e = v

set-Keeps : (id : Text) (f : PortGroup → PortGroup) → KeepsKeys f → Keeps HasValid (set_where id f)
unfolding Keeps
set-Keeps id f k s v = update_where-IsValid id f k s.db.port_groups v

send_reload-Keeps : Keeps HasValid send_reload
unfolding Keeps
send_reload-Keeps s v = v

set_flags-Keeps :
    (env : Env) (id : Text) (body : UpdatePortGroup) → Keeps HasValid (set_flags env id body)
set_flags-Keeps env id body =
    bind-Keeps HasValid _ _
      (for_some-Keeps HasValid body.enabled _ (λ b. set-Keeps id _ (λ g. (refl, refl))))
      (λ _.
        bind-Keeps HasValid _ _
          (for_some-Keeps HasValid body.skip_tls_verify _ (λ b. set-Keeps id _ (λ g. (refl, refl))))
          (λ _.
            bind-Keeps HasValid _ _
              (for_some-Keeps HasValid body.force_https _ (λ b. set-Keeps id _ (λ g. (refl, refl))))
              (λ _. send_reload-Keeps)))

update-Keeps :
    (env : Env) (id : Text) (body : UpdatePortGroup) → Keeps HasValid (update env id body)
unfolding update
update-Keeps env id body =
    bind-Keeps HasValid _ _ (gets-Keeps HasValid (λ s. find_first (has_id id) s.db.port_groups))
      (λ row. bind-Keeps HasValid _ _ (ok_or-Keeps HasValid row not_found) (λ _.
        bind-Keeps HasValid _ _
          (for_some-Keeps HasValid body.name _
            (λ n. set-Keeps id (set_name env n) (λ g. (refl, refl))))
          (λ _.
            bind-Keeps HasValid _ _
              (for_some-Keeps HasValid body.listen_port _ (λ p. port-Keeps env id p))
              (λ _. bind-Keeps HasValid _ _ (set_flags-Keeps env id body) (λ _. get-Keeps id)))))

retain-IsValid :
    (test : PortGroup → Bool) (gs : List PortGroup) → IsValid gs → IsValid (retain test gs)
retain-IsValid test [] v = tt
retain-IsValid test (g ∷ gs) (p, q, v) =
    let rest = retain-IsValid test gs v in
    elim (Bool-cases (test g)) [
      | inl e ↦ rw (e, IsValid) (p, retain-All test (Apart g) gs q, rest)
      | inr e ↦ rw (e, IsValid) rest
    ]

delete-Keeps : (id : Text) → Keeps HasValid (delete id)
unfolding delete
delete-Keeps id =
    bind-Keeps HasValid _ _ (gets-Keeps HasValid (λ s. find_first (has_id id) s.db.port_groups))
      (λ row. bind-Keeps HasValid _ _ (ok_or-Keeps HasValid row not_found) (λ _.
        bind-Keeps HasValid _ _
          (modify-Keeps HasValid (delete_rows id)
            (λ s v. retain-IsValid (λ g. not (has_id id g)) s.db.port_groups v))
          (λ _. send_reload-Keeps)))

Step-HasValid : {s t : AppState} → Step s t → HasValid s → HasValid t
unfolding Keeps
Step-HasValid (creates env body) v = create-Keeps env body _ v
Step-HasValid (updates env id body) v = update-Keeps env id body _ v
Step-HasValid (deletes id) v = delete-Keeps id _ v

-- From a table whose ports are in 1 to 65535 and whose ids and ports are all different, the handlers
-- reach only such tables, whatever they are sent, in whatever order, and whether they succeed or fail.
pub Reach-HasValid : {s t : AppState} → HasValid s → Reach s t → HasValid t
Reach-HasValid v here = v
Reach-HasValid v (next r st) = Step-HasValid st (Reach-HasValid v r)

-- A delete that succeeds leaves no group with the id and no rule of that group, and asks for a
-- reload; one that fails changes nothing, and the error is `NotFound`.
pub delete-cascades :
    (id : Text) (s : AppState)
    → (((delete id s).0 ≡ ok tt)
        × All (λ g. has_id id g ≡ false) (delete id s).1.db.port_groups
        × All (λ r. in_group id r ≡ false) (delete id s).1.db.proxy_rules
        × ((delete id s).1.reloads ≡ suc s.reloads))
      ⊎ (delete id s ≡ (err not_found, s))
unfolding delete
delete-cascades id s = elim (Option-cases (find_first (has_id id) s.db.port_groups)) [
  | inl e ↦ inr (rw e)
  | inr (g, e) ↦ inl (
      rw e (
        refl,
        retain-none (has_id id) s.db.port_groups,
        retain-none (in_group id) s.db.proxy_rules,
        refl,
      ))
]
