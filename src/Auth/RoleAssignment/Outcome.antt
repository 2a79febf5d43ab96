-- ===== src/Auth/RoleAssignment/Outcome.antt =====
-- What an assignment of roles does, and what it leaves when it is refused.
use python_react_template.Prelude.{
  ℕ, ◌+◌, ◌≡◌, refl, ap, ◌∙◌, inl, inr, arith, String, false, not, ◌&&◌, Option, none, some, List,
  [], ◌∷◌, ◌==◌, length, length-append_one, contains, dedupe, set_minus, contains-dedupe,
  contains-set_minus, if◌then◌else◌, Bool-cases,
}
use python_react_template.Store.Rows.{
  User, AuthEventType, role_granted, role_revoked, role, Detail, Db,
}
use python_react_template.Store.Exec.{Env, World, Error, Result, ok, err}
use python_react_template.Store.Exec.Laws.{transaction-committed, db-transaction_err, >>=-ok}
use python_react_template.Store.AuthRepository.Users.{get_user, find_user_by_id_for_authentication}
use python_react_template.Store.AuthRepository.AuditLogs.{create_audit_log}
use python_react_template.Store.AuthorizationRepository as Repository
use python_react_template.Store.AuthorizationRepository.{UserRoleReplacementResult, is_empty}
use python_react_template.Store.AuthorizationRepository.Replacement.{
  holds, contains-is_empty, holds-replace_user_roles,
}
use python_react_template.Auth.Usecase.Context.{AuthenticatedSessionContext}
use python_react_template.Auth.RoleAssignment.{
  known_codes, record_role_audits, audit_replacement, replace_for, replace_live, replace_user_roles,
  require_live,
}

module _ (env : Env) {L : Type 0} where
  length-create_audit_log :
      (u i : Option ℕ) (event : AuthEventType) (ip ua : Option String) (d : Option Detail)
      (at : Option ℕ) (w : World L)
      → length (create_audit_log env u i event ip ua d at w).1.db.audit_logs
        ≡ length w.db.audit_logs + 1
  unfolding create_audit_log
  length-create_audit_log u i event ip ua d none w = length-append_one w.db.audit_logs _
  length-create_audit_log u i event ip ua d (some t) w = length-append_one w.db.audit_logs _

  record_role_audits-frame :
      (actor : AuthenticatedSessionContext) (i : ℕ) (event : AuthEventType) (all : List String)
      (ip ua : Option String) (codes : List String) (w : World L)
      → let (result, w') = record_role_audits env actor i event all ip ua codes w in
        (result ≡ ok tt)
        × (w'.db.roles ≡ w.db.roles)
        × (length w'.db.audit_logs ≡ length w.db.audit_logs + length codes)
  unfolding record_role_audits create_audit_log
  record_role_audits-frame actor i event all ip ua [] w = (refl, refl, omega arith)
  record_role_audits-frame actor i event all ip ua (code ∷ codes) w =
      let w1 =
        (create_audit_log env (some actor.user.id) (some actor.session.id) event ip ua
          (some (role (some actor.user.id) i code all)) none w).1 in
      let (done, roles, logs) = record_role_audits-frame actor i event all ip ua codes w1 in
      (
        ground (arith, done),
        ground (arith, roles),
        omega (
          arith,
          logs,
          length-create_audit_log (some actor.user.id) (some actor.session.id) event ip ua
              (some (role (some actor.user.id) i code all)) none w,
        ),
      )

  -- The audit logs of a result, one for each role that it grants or revokes.
  audit_replacement-frame :
      (actor : AuthenticatedSessionContext) (i : ℕ) (ip ua : Option String)
      (r : UserRoleReplacementResult) (w : World L)
      → let (result, w') = audit_replacement env actor i ip ua r w in
        (result ≡ ok r)
        × (w'.db.roles ≡ w.db.roles)
        × (length w'.db.audit_logs
            ≡ length w.db.audit_logs + length r.granted_role_codes + length r.revoked_role_codes)
  unfolding audit_replacement
  audit_replacement-frame actor i ip ua r w =
      let w1 =
        (record_role_audits env actor i role_granted r.current_role_codes ip ua r.granted_role_codes
          w).1 in
      let (a, b, c) =
        record_role_audits-frame actor i role_granted r.current_role_codes ip ua
          r.granted_role_codes w in
      let (d, e, f) =
        record_role_audits-frame actor i role_revoked r.current_role_codes ip ua
          r.revoked_role_codes w1 in
      (ground (arith, a, d), ground (arith, a, b, d, e), ground (arith, a, c, d, f))

  replace_for-holds :
      (actor : AuthenticatedSessionContext) (i : ℕ) (codes : List String) (ip ua : Option String)
      (w : World L) {r : UserRoleReplacementResult} (v : ℕ) (c : String)
      → (replace_for env actor i codes ip ua w).0 ≡ ok r
      → holds v c (replace_for env actor i codes ip ua w).1.db.roles
        ≡ (if v == i then contains c codes else holds v c w.db.roles)
  unfolding replace_for
  replace_for-holds actor i codes ip ua w {r} v c h =
      let m = Repository.replace_user_roles env i codes (some actor.user.id) in
      let (q, made, rest, same) = >>=-ok m (audit_replacement env actor i ip ua) w h in
      let assigned = holds-replace_user_roles env i codes (some actor.user.id) w v c made in
      let (done, roles, logs) = audit_replacement-frame actor i ip ua q (m w).1 in
      ap (λ (x : Result UserRoleReplacementResult × World L). holds v c x.1.db.roles) same
      ∙ ap (holds v c) roles
      ∙ assigned

  require_live-ok :
      (i : ℕ) (o : Option User) (w : World L)
      → (require_live i o w).0 ≡ ok tt
      → (u : User) × (o ≡ some u) × (u.deleted_at ≡ none) × ((require_live i o w).1 ≡ w)
  unfolding require_live
  require_live-ok i none w h = cc
  require_live-ok i (some u) w h = (u, refl, ground arith, refl)

  replace_live-holds :
      (actor : AuthenticatedSessionContext) (i : ℕ) (codes : List String) (ip ua : Option String)
      (w : World L) {r : UserRoleReplacementResult} (v : ℕ) (c : String)
      → (replace_live env actor i codes ip ua w).0 ≡ ok r
      → ((u : User) × (get_user i w.db.users ≡ some u) × (u.deleted_at ≡ none))
        × (holds v c (replace_live env actor i codes ip ua w).1.db.roles
            ≡ (if v == i then contains c codes else holds v c w.db.roles))
  unfolding replace_live find_user_by_id_for_authentication
  replace_live-holds actor i codes ip ua w {r} v c h =
      let m = require_live i (get_user i w.db.users) in
      let (t, live, rest, same) = >>=-ok m (λ _. replace_for env actor i codes ip ua) w h in
      let (u, there, kept, unchanged) = require_live-ok i (get_user i w.db.users) w live in
      (
        (u, there, kept),
        ap (λ (x : Result UserRoleReplacementResult × World L). holds v c x.1.db.roles) same
            ∙ replace_for-holds actor i codes ip ua (m w).1 v c rest
            ∙ ap (λ (x : World L). if v == i then contains c codes else holds v c x.db.roles)
                unchanged,
      )

  -- An assignment of roles that succeeds is of roles that the catalog knows, to a user who is there
  -- and not deleted. It leaves that user with exactly those roles, and others with what they had.
  pub replace_user_roles-assigns :
      (actor : AuthenticatedSessionContext) (i : ℕ) (role_codes : List String)
      (ip ua : Option String) (w : World L) {r : UserRoleReplacementResult} (v : ℕ) (code : String)
      → (replace_user_roles env actor i role_codes ip ua w).0 ≡ ok r
      → ((not (contains code known_codes) && contains code role_codes) ≡ false)
        × ((u : User) × (get_user i w.db.users ≡ some u) × (u.deleted_at ≡ none))
        × (holds v code (replace_user_roles env actor i role_codes ip ua w).1.db.roles
            ≡ (if v == i then contains code role_codes else holds v code w.db.roles))
  unfolding replace_user_roles
  replace_user_roles-assigns actor i codes ip ua w {r} v c h =
      let missing = set_minus (dedupe codes) known_codes in
      elim (Bool-cases (is_empty missing)) [
        | inr some_missing ↦ absurd (cc (rw some_missing at h))
        | inl none_missing ↦
            let m = replace_live env actor i (dedupe codes) ip ua in
            let (t, done, same) = transaction-committed m w (rw none_missing at h) in
            let (live, assigned) =
              replace_live-holds actor i (dedupe codes) ip ua (record w { in_transaction = t }) v c
                done in
            let listed = contains-dedupe c codes in
            (
              ground (
                arith,
                contains-is_empty c missing none_missing,
                contains-set_minus c (dedupe codes) known_codes,
                listed,
              ),
              live,
              rw none_missing (
                  ap (λ (d : Db). holds v c d.roles) same
                  ∙ assigned
                  ∙ ap (λ b. if v == i then b else holds v c w.db.roles) listed),
            )
      ]

  -- An assignment of roles that is refused, outside a transaction, leaves the tables as they were.
  pub replace_user_roles-atomic :
      (actor : AuthenticatedSessionContext) (i : ℕ) (role_codes : List String)
      (ip ua : Option String) (w : World L) {e : Error}
      → w.in_transaction ≡ false
      → (replace_user_roles env actor i role_codes ip ua w).0 ≡ err e
      → (replace_user_roles env actor i role_codes ip ua w).1.db ≡ w.db
  unfolding replace_user_roles
  replace_user_roles-atomic actor i codes ip ua w outside h =
      let missing = set_minus (dedupe codes) known_codes in
      elim (Bool-cases (is_empty missing)) [
        | inr some_missing ↦ rw some_missing refl
        | inl none_missing ↦ rw none_missing (
            db-transaction_err (replace_live env actor i (dedupe codes) ip ua) w outside
              (rw none_missing at h))
      ]
