-- ===== src/Auth/AdminUsers/Deletion.antt =====
-- What an administrator's deletion of a user does.
use mathlib.Core.List.{append_assoc}
use python_react_template.Prelude.{
  [], ◌∷◌, ◌++◌, ◌∙◌, ℕ, ◌+◌, ◌≡◌, refl, sym, ap, subst, arith, String, Option, none, some, find,
  find-passes,
}
use python_react_template.Store.Rows.{User, AuthAuditLog, Db, user_deleted_by_admin, admin}
use python_react_template.Store.Exec.{Env, Exec, World, Result, ok, ◌>>=◌}
use python_react_template.Store.Exec.Laws.{transaction-committed, >>=-ok}
use python_react_template.Store.AuthRepository.AuditLogs.{create_audit_log}
use python_react_template.Store.AdminUserRepository as Repository
use python_react_template.Store.AdminUserRepository.{is_live}
use python_react_template.Auth.AccountDeletion.{erase_user}
use python_react_template.Auth.AccountDeletion.Erasure.{IsErased, erase_user-erases}
use python_react_template.Auth.Usecase.Context.{AuthenticatedSessionContext}
use python_react_template.Auth.AdminUsers.{
  require_user, erase_with_audit, delete_found, delete_user,
}

-- One more audit log.
IsErased-log :
    (i : ℕ) (d d' : Db) (log : AuthAuditLog)
    → IsErased i d d'
    → IsErased i d (record d' { audit_logs = d'.audit_logs ++ log ∷ [] })
IsErased-log i d d' log h = record {
  items = h.items;
  roles = h.roles;
  identities = h.identities;
  users = h.users;
  sessions = h.sessions;
  other_items = h.other_items;
  other_roles = h.other_roles;
  other_identities = h.other_identities;
  other_users = h.other_users;
  other_sessions = h.other_sessions;
  oidc_states = h.oidc_states;
  added = h.added ++ log ∷ [];
  audit_logs =
      ap (λ xs. xs ++ log ∷ []) h.audit_logs ∙ append_assoc d.audit_logs h.added (log ∷ []);
}

module _ (env : Env) {L : Type 0} where
  require_user-ok :
      (i : ℕ) (o : Option User) (w : World L) {u : User}
      → (require_user i o w).0 ≡ ok u
      → (o ≡ some u) × ((require_user i o w).1 ≡ w)
  unfolding require_user
  require_user-ok i none w h = cc
  require_user-ok i (some v) w h = (cc, refl)

  erase_with_audit-erases :
      (actor : AuthenticatedSessionContext) (i t : ℕ) (ip ua : Option String) (w : World L)
      → (erase_with_audit env actor i t ip ua w).0 ≡ ok tt
      → IsErased i w.db (erase_with_audit env actor i t ip ua w).1.db
  unfolding erase_with_audit create_audit_log
  erase_with_audit-erases actor i t ip ua w h =
      let m = erase_user env i t actor.session.id ip in
      let audit : Unit → Exec L Unit = λ _.
        create_audit_log env (some actor.user.id) (some actor.session.id) user_deleted_by_admin ip
          ua (some (admin actor.user.id i none)) none in
      let (done_tt, done, rest, same) = >>=-ok m audit w h in
      subst (IsErased i w.db) (sym (ap (λ (x : Result Unit × World L). x.1.db) same)) (
        IsErased-log i w.db (m w).1.db _
          (erase_user-erases env i t actor.session.id ip w (m w).1.db done refl))

  delete_found-erases :
      (actor : AuthenticatedSessionContext) (ip ua : Option String) (u : User) (w : World L)
      → (delete_found env actor ip ua u w).0 ≡ ok tt
      → IsErased u.id w.db (delete_found env actor ip ua u w).1.db
  unfolding delete_found
  delete_found-erases actor ip ua u w h =
      let t = env.utcnow w.calls in
      let w1 : World L = record w { calls = w.calls + 1 } in
      let (b, done, written) =
        transaction-committed (erase_with_audit env actor u.id t ip ua) w1 h in
      subst (IsErased u.id w.db) (sym written)
        (erase_with_audit-erases actor u.id t ip ua (record w1 { in_transaction = b }) done)

  -- An administrator's deletion of a user that succeeds was of a user who was there and not deleted,
  -- and has erased that user and nothing of anyone else.
  pub delete_user-erases :
      (actor : AuthenticatedSessionContext) (i : ℕ) (ip ua : Option String) (w : World L)
      → (delete_user env actor i ip ua w).0 ≡ ok tt
      → ((u : User) × (find (is_live i) w.db.users ≡ some u))
        × IsErased i w.db (delete_user env actor i ip ua w).1.db
  unfolding delete_user delete_found Repository.get_user
  delete_user-erases actor i ip ua w h =
      let found = find (is_live i) w.db.users in
      let (u, there, rest, same) =
        >>=-ok (require_user i found) (delete_found env actor ip ua) w h in
      let (is_found, unchanged) = require_user-ok i found w there in
      let id : u.id ≡ i = ground (arith, find-passes (is_live i) w.db.users is_found) in
      (
        (u, is_found),
        subst
            (λ j. IsErased j w.db ((require_user i found >>= delete_found env actor ip ua) w).1.db)
            id
            (subst (IsErased u.id w.db) (sym (ap (λ (x : Result Unit × World L). x.1.db) same)) (
              subst (λ (v : World L). IsErased u.id w.db (delete_found env actor ip ua u v).1.db)
                (sym unchanged)
                (delete_found-erases actor ip ua u w (
                  subst (λ (v : World L). (delete_found env actor ip ua u v).0 ≡ ok tt) unchanged
                    rest)))),
      )
