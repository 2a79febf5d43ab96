-- ===== src/Auth/AdminUsers/Update.antt =====
-- The sessions of a user whom an administrator updates.
use python_react_template.Prelude.{
  ℕ, ◌+◌, ◌≡◌, ◌⊎◌, refl, ap, ◌∙◌, inl, inr, arith, String, Bool, true, false, not, ◌&&◌, ◌==◌,
  Option, none, some, List, [], ◌∷◌, any, keep, contains, Bool-cases,
}
use python_react_template.Store.Rows.{User, Db, user_updated_by_admin, admin}
use python_react_template.Store.Exec.{Env, Exec, World, Result, ok, transaction, draw, ◌>>=◌, ◌>>◌}
use python_react_template.Store.Exec.Laws.{transaction-committed, >>=-ok}
use python_react_template.Store.Exec.Frame.{Keeps, >>=-Keeps}
use python_react_template.Store.AuthRepository.Sessions.{is_active_at, revoke_sessions_for_user}
use python_react_template.Store.AuthRepository.Sessions.Tables.{any-revoke_user, keep-revoke_user}
use python_react_template.Store.AuthRepository.AuditLogs.{create_audit_log}
use python_react_template.Store.AuthorizationRepository.{is_empty}
use python_react_template.Store.AdminUserRepository as Repository
use python_react_template.Store.AdminUserRepository.{
  AdminUserUpdateChanges, AdminUserDetail, is_live, update_found, set_email, set_password,
  set_activity,
}
use python_react_template.Auth.Usecase.Context.{AuthenticatedSessionContext}
use python_react_template.Auth.Usecase.Rejection.{revoked_for}
use python_react_template.Auth.AdminUsers.{audit_fields, detail_for_user}
use python_react_template.Auth.AdminUsers.Atomicity.{
  changed_roles-IsQuiet, changed_password-IsQuiet,
}
use python_react_template.Auth.AdminUsers.Frame.{
  sessions_of, create_audit_log-KeepsSessions, update_found-KeepsSessions,
  detail_for_user-KeepsSessions, replace_some_roles-KeepsSessions, update_user-id,
}
use python_react_template.Auth.AdminUsers.Changes.{
  normalized_email, ends_sessions, changed_roles, changed_password, replace_some_roles,
  end_sessions, update_with_roles, update_some, update_user,
}

no_fields : (fields : List String) → is_empty fields ≡ true → fields ≡ []
no_fields [] e = refl
no_fields (x ∷ fields) e = cc

ends_sessions-some :
    (changes : AdminUserUpdateChanges)
    → ends_sessions changes ≡ true
    → is_empty changes.fields_set ≡ false
unfolding ends_sessions contains
ends_sessions-some changes ends = elim (Bool-cases (is_empty changes.fields_set)) [
  | inr e ↦ e
  | inl e ↦ absurd (cc (rw (no_fields changes.fields_set e) at ends))
]

ends_sessions-asked :
    (changes : AdminUserUpdateChanges)
    → (contains "password" changes.fields_set ≡ true)
      ⊎ (contains "is_active" changes.fields_set ≡ true) × (changes.is_active ≡ some false)
    → ends_sessions changes ≡ true
unfolding ends_sessions
ends_sessions-asked changes (inl password) = rw password refl
ends_sessions-asked changes (inr (field, inactive)) = rw (field, inactive) (ground arith)

module _ (env : Env) {L : Type 0} where
  end_sessions-revoked :
      (b : Bool) (i t : ℕ) (w : World L)
      → b ≡ true
      → ((end_sessions env b i t w).0 ≡ ok tt)
        × ((end_sessions env b i t w).1.db.sessions ≡ revoked_for i t w.db.sessions)
  unfolding end_sessions revoke_sessions_for_user
  end_sessions-revoked true i t w e = (refl, refl)
  end_sessions-revoked false i t w e = absurd (ground (arith, e))

  -- The statements behind the update of the row.
  abbrev after_update :
      AuthenticatedSessionContext
      → AdminUserUpdateChanges
      → Option (List String)
      → ℕ
      → Option String
      → Option String
      → User
      → Exec L AdminUserDetail
  after_update actor changes roles t ip ua user = do
    replace_some_roles env actor user.id roles ip ua
    end_sessions env (ends_sessions changes) user.id t
    create_audit_log env (some actor.user.id) (some actor.session.id) user_updated_by_admin ip ua
        (some (admin actor.user.id user.id (some (audit_fields changes.fields_set)))) none
    detail_for_user user

  after_update-revoked :
      (actor : AuthenticatedSessionContext) (changes : AdminUserUpdateChanges)
      (roles : Option (List String)) (t : ℕ) (ip ua : Option String) (u : User) (w : World L)
      {d : AdminUserDetail}
      → ends_sessions changes ≡ true
      → (after_update actor changes roles t ip ua u w).0 ≡ ok d
      → (after_update actor changes roles t ip ua u w).1.db.sessions
        ≡ revoked_for u.id t w.db.sessions
  after_update-revoked actor changes roles t ip ua u w ends h =
      let m = replace_some_roles env actor u.id roles ip ua in
      let log =
        create_audit_log env (some actor.user.id) (some actor.session.id) user_updated_by_admin ip
          ua (some (admin actor.user.id u.id (some (audit_fields changes.fields_set)))) none in
      let rest = λ (_ : Unit). log >> detail_for_user u in
      let ending = end_sessions env (ends_sessions changes) u.id t in
      let (x, replaced, after, same) = >>=-ok m (λ _. ending >>= rest) w h in
      let (done, sessions) = end_sessions-revoked (ends_sessions changes) u.id t (m w).1 ends in
      let (y, ended, after2, same2) = >>=-ok ending rest (m w).1 after in
      ap (λ (r : Result AdminUserDetail × World L). r.1.db.sessions) (same ∙ same2)
      ∙ >>=-Keeps sessions_of log (λ _. detail_for_user u)
          (create_audit_log-KeepsSessions env (some actor.user.id) (some actor.session.id)
            user_updated_by_admin ip ua
            (some (admin actor.user.id u.id (some (audit_fields changes.fields_set)))))
          (λ _. detail_for_user-KeepsSessions env u) (ending (m w).1).1
      ∙ sessions
      ∙ ap (revoked_for u.id t) (replace_some_roles-KeepsSessions env actor u.id roles ip ua w)

  update_user-KeepsSessions :
      (i : ℕ) (changes : AdminUserUpdateChanges) (hash : Option String)
      → Keeps sessions_of (Repository.update_user env {L = L} i changes hash)
  unfolding Repository.update_user Repository.get_user
  update_user-KeepsSessions i changes hash =
      >>=-Keeps sessions_of (Repository.get_user i) (λ o. update_found env i changes hash o)
        (λ w. refl) (update_found-KeepsSessions env i changes hash)

  update_with_roles-revoked :
      (actor : AuthenticatedSessionContext) (i : ℕ) (changes : AdminUserUpdateChanges)
      (hash : Option String) (roles : Option (List String)) (t : ℕ) (ip ua : Option String)
      (w : World L) {d : AdminUserDetail}
      → ends_sessions changes ≡ true
      → (update_with_roles env actor i changes hash roles t ip ua w).0 ≡ ok d
      → (update_with_roles env actor i changes hash roles t ip ua w).1.db.sessions
        ≡ revoked_for i t w.db.sessions
  unfolding update_with_roles
  update_with_roles-revoked actor i changes hash roles t ip ua w ends h =
      let normalized : AdminUserUpdateChanges = record changes {
        email = normalized_email env changes.email;
        roles = roles;
      } in
      let m = Repository.update_user env i normalized hash in
      let (u, updated, rest, same) = >>=-ok m (after_update actor changes roles t ip ua) w h in
      ap (λ (r : Result AdminUserDetail × World L). r.1.db.sessions) same
      ∙ after_update-revoked actor changes roles t ip ua u (m w).1 ends rest
      ∙ ap (revoked_for u.id t) (update_user-KeepsSessions i normalized hash w)
      ∙ ap (λ j. revoked_for j t w.db.sessions) (update_user-id env i normalized hash w updated)

  -- The transaction of an update that ends the sessions, at the time that it takes.
  update_some-revoked :
      (actor : AuthenticatedSessionContext) (i : ℕ) (changes : AdminUserUpdateChanges)
      (ip ua : Option String) (w : World L) {d : AdminUserDetail}
      → ends_sessions changes ≡ true
      → (update_some env actor i changes ip ua w).0 ≡ ok d
      → (t : ℕ) × ((update_some env actor i changes ip ua w).1.db.sessions
          ≡ revoked_for i t w.db.sessions)
  unfolding update_some
  update_some-revoked actor i changes ip ua w ends h =
      let body : Option (List String) → Option String → ℕ → Exec L AdminUserDetail =
        λ roles hash t. update_with_roles env actor i changes hash roles t ip ua in
      let (roles, named, rest, same) =
        >>=-ok (changed_roles env changes)
          (λ roles. changed_password env changes >>= λ hash.
            draw env.utcnow >>= λ t. transaction (body roles hash t))
          w h in
      let w1 = (changed_roles env changes w).1 in
      let (hash, hashed, rest1, same1) =
        >>=-ok (changed_password env changes)
          (λ hash. draw env.utcnow >>= λ t. transaction (body roles hash t)) w1 rest in
      let w2 = (changed_password env changes w1).1 in
      let t = env.utcnow w2.calls in
      let w3 : World L = record w2 { calls = w2.calls + 1 } in
      let (b, done, written) = transaction-committed (body roles hash t) w3 rest1 in
      let before : w3.db.sessions ≡ w.db.sessions =
        ap (λ (x : Db). x.sessions)
          ((changed_password-IsQuiet env changes w1).0 ∙ (changed_roles-IsQuiet env changes w).0) in
      (
        t,
        ap (λ (r : Result AdminUserDetail × World L). r.1.db.sessions) (same ∙ same1)
            ∙ ap (λ (x : Db). x.sessions) written
            ∙ update_with_roles-revoked actor i changes hash roles t ip ua
                (record w3 { in_transaction = b }) ends done
            ∙ ap (revoked_for i t) before,
      )

  -- An administrator's update that has a password among its fields, or the activity set to `False`,
  -- and succeeds, leaves no session of that user active, at any time, and the sessions of other
  -- users as they were.
  pub update_user-ends_sessions :
      (actor : AuthenticatedSessionContext) (i : ℕ) (changes : AdminUserUpdateChanges)
      (ip ua : Option String) (w : World L) (later : ℕ) {d : AdminUserDetail}
      → (contains "password" changes.fields_set ≡ true)
        ⊎ (contains "is_active" changes.fields_set ≡ true) × (changes.is_active ≡ some false)
      → (update_user env actor i changes ip ua w).0 ≡ ok d
      → let w' = (update_user env actor i changes ip ua w).1 in
        (any (λ s. s.user_id == i && is_active_at later s) w'.db.sessions ≡ false)
        × (keep (λ s. not (s.user_id == i)) w'.db.sessions
            ≡ keep (λ s. not (s.user_id == i)) w.db.sessions)
  unfolding update_user
  update_user-ends_sessions actor i changes ip ua w later asked h =
      let ends = ends_sessions-asked changes asked in
      let some_field = ends_sessions-some changes ends in
      let (t, sessions) = update_some-revoked actor i changes ip ua w ends (rw some_field at h) in
      rw some_field (
        ap (any (λ s. s.user_id == i && is_active_at later s)) sessions
            ∙ any-revoke_user i t later w.db.sessions,
        ap (keep (λ s. not (s.user_id == i))) sessions ∙ keep-revoke_user i t w.db.sessions,
      )
