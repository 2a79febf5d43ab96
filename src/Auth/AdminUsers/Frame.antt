-- ===== src/Auth/AdminUsers/Frame.antt =====
-- The parts of `update_user` that leave the sessions alone.
use python_react_template.Prelude.{
  ℕ, ◌+◌, ◌≡◌, refl, ◌∙◌, inl, inr, arith, String, Option, none, some, List, dedupe, sorted,
  set_minus, [], ◌∷◌, find, find-passes, if◌then◌else◌, Option-cases, Bool-cases,
}
use python_react_template.Store.Rows.{
  User, AuthSession, AuthEventType, Detail, Db, role, role_granted, role_revoked,
}
use python_react_template.Store.Exec.{Env, World, ok, pure, ◌>>◌}
use python_react_template.Store.Exec.Frame.{Keeps, >>=-Keeps}
use python_react_template.Store.AuthRepository.AuditLogs.{create_audit_log}
use python_react_template.Store.AuthorizationRepository as Roles
use python_react_template.Store.AuthorizationRepository.Replacement.{is_broken}
use python_react_template.Store.AuthorizationRepository.{
  UserRoleReplacementResult, add_roles, is_empty,
}
use python_react_template.Store.AdminUserRepository as Repository
use python_react_template.Store.AdminUserRepository.{
  AdminUserUpdateChanges, AdminUserDetail, is_live, update_found, set_email, set_password,
  set_activity,
}
use python_react_template.Auth.RoleAssignment.{record_role_audits, audit_replacement, replace_for}
use python_react_template.Auth.Usecase.Context.{AuthenticatedSessionContext}
use python_react_template.Auth.AdminUsers.{replace_roles_with_audit, detail_for_user}
use python_react_template.Auth.AdminUsers.Changes.{replace_some_roles}

-- Code that leaves the sessions alone.
abbrev pub sessions_of : Db → List AuthSession
sessions_of d = d.sessions

module _ (env : Env) {L : Type 0} where
  pub create_audit_log-KeepsSessions :
      (u i : Option ℕ) (event : AuthEventType) (ip ua : Option String) (d : Option Detail)
      → Keeps sessions_of (create_audit_log env {L = L} u i event ip ua d none)
  unfolding create_audit_log
  create_audit_log-KeepsSessions u i event ip ua d w = refl

  record_role_audits-KeepsSessions :
      (actor : AuthenticatedSessionContext) (i : ℕ) (event : AuthEventType) (all : List String)
      (ip ua : Option String) (codes : List String)
      → Keeps sessions_of (record_role_audits env {L = L} actor i event all ip ua codes)
  unfolding record_role_audits
  record_role_audits-KeepsSessions actor i event all ip ua [] = λ w. refl
  record_role_audits-KeepsSessions actor i event all ip ua (code ∷ codes) =
      let log =
        create_audit_log env (some actor.user.id) (some actor.session.id) event ip ua
          (some (role (some actor.user.id) i code all)) none in
      >>=-Keeps sessions_of log (λ _. record_role_audits env actor i event all ip ua codes)
        (create_audit_log-KeepsSessions (some actor.user.id) (some actor.session.id) event ip ua
          (some (role (some actor.user.id) i code all)))
        (λ _. record_role_audits-KeepsSessions actor i event all ip ua codes)

  audit_replacement-KeepsSessions :
      (actor : AuthenticatedSessionContext) (i : ℕ) (ip ua : Option String)
      (r : UserRoleReplacementResult)
      → Keeps sessions_of (audit_replacement env {L = L} actor i ip ua r)
  unfolding audit_replacement
  audit_replacement-KeepsSessions actor i ip ua r =
      let granted =
        record_role_audits env actor i role_granted r.current_role_codes ip ua
          r.granted_role_codes in
      let revoked =
        record_role_audits env actor i role_revoked r.current_role_codes ip ua
          r.revoked_role_codes in
      >>=-Keeps sessions_of granted (λ _. revoked >> pure r)
        (record_role_audits-KeepsSessions actor i role_granted r.current_role_codes ip ua
          r.granted_role_codes)
        (λ _.
          >>=-Keeps sessions_of revoked (λ _. pure r)
            (record_role_audits-KeepsSessions actor i role_revoked r.current_role_codes ip ua
              r.revoked_role_codes)
            (λ _ w. refl))

  add_roles-KeepsSessions :
      (u t : ℕ) (by : Option ℕ) (codes : List String)
      → Keeps sessions_of (add_roles env {L = L} u t by codes)
  unfolding add_roles
  add_roles-KeepsSessions u t by [] w = refl
  add_roles-KeepsSessions u t by (code ∷ codes) w = add_roles-KeepsSessions u t by codes _

  replace_user_roles-KeepsSessions :
      (i : ℕ) (codes : List String) (by : Option ℕ)
      → Keeps sessions_of (Roles.replace_user_roles env {L = L} i codes by)
  unfolding Roles.replace_user_roles
  replace_user_roles-KeepsSessions i codes by w =
      let existing = Roles.role_codes_for_user i w.db.roles in
      let revoked = sorted (set_minus existing (dedupe codes)) in
      let granted = sorted (set_minus (dedupe codes) existing) in
      let w1 : World L = record w {
        db = record w.db {
          roles = if is_empty revoked then w.db.roles else Roles.revoke_codes i revoked w.db.roles;
        };
        calls = w.calls + 1;
      } in
      elim (Bool-cases (is_broken env i codes by w)) [
        | inl refused ↦ rw refused (ground arith)
        | inr fine ↦
            rw fine (ground (arith, add_roles-KeepsSessions i (env.utcnow w.calls) by granted w1))
      ]

  pub update_found-KeepsSessions :
      (i : ℕ) (changes : AdminUserUpdateChanges) (hash : Option String) (o : Option User)
      → Keeps sessions_of (update_found env {L = L} i changes hash o)
  unfolding update_found
  update_found-KeepsSessions i changes hash none w = refl
  update_found-KeepsSessions i changes hash (some u) w = ground arith

  pub detail_for_user-KeepsSessions : (u : User) → Keeps sessions_of (detail_for_user {L = L} u)
  unfolding detail_for_user
  detail_for_user-KeepsSessions u w = refl

  pub replace_some_roles-KeepsSessions :
      (actor : AuthenticatedSessionContext) (i : ℕ) (o : Option (List String))
      (ip ua : Option String)
      → Keeps sessions_of (replace_some_roles env {L = L} actor i o ip ua)
  unfolding replace_some_roles replace_roles_with_audit replace_for
  replace_some_roles-KeepsSessions actor i none ip ua = λ w. refl
  replace_some_roles-KeepsSessions actor i (some codes) ip ua =
      >>=-Keeps sessions_of (replace_for env actor i codes ip ua) (λ _. pure tt)
        (>>=-Keeps sessions_of (Roles.replace_user_roles env i codes (some actor.user.id))
          (audit_replacement env actor i ip ua)
          (replace_user_roles-KeepsSessions i codes (some actor.user.id))
          (audit_replacement-KeepsSessions actor i ip ua))
        (λ _ w. refl)

  -- The row that `update_user` answers with has the identifier that was asked for.
  update_found-id :
      (i : ℕ) (changes : AdminUserUpdateChanges) (hash : Option String) (u : User) (w : World L)
      {r : User}
      → (update_found env i changes hash (some u) w).0 ≡ ok r
      → r.id ≡ u.id
  unfolding update_found set_email set_password set_activity
  update_found-id i changes hash u w h = ground (arith, h)

  pub update_user-id :
      (i : ℕ) (changes : AdminUserUpdateChanges) (hash : Option String) (w : World L) {r : User}
      → (Repository.update_user env i changes hash w).0 ≡ ok r
      → r.id ≡ i
  unfolding Repository.update_user Repository.get_user
  update_user-id i changes hash w h = elim (Option-cases (find (is_live i) w.db.users)) [
    | inl e ↦ absurd (cc (rw (e, update_found) at h))
    | inr (u, e) ↦
        let same : u.id ≡ i = ground (arith, find-passes (is_live i) w.db.users e) in
        update_found-id i changes hash u w (rw e at h) ∙ same
  ]
