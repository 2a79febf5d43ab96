-- ===== src/Auth/AccountDeletion/Erasure.antt =====
-- What the transaction of `delete_account` leaves.
use mathlib.Core.List.{append-nil}
use python_react_template.Prelude.{
  ℕ, ◌≡◌, refl, ap, ◌∙◌, inl, inr, arith, ◌++◌, count_if, Bool-cases, String, false, not, ◌&&◌,
  Option, some, List, [], ◌∷◌, ◌==◌, any, keep, update_where, any-keep-not, keep-keep,
}
use python_react_template.Store.Rows.{
  User, AuthSession, AuthIdentity, AuthAuditLog, UserRole, SampleItem, Db,
}
use python_react_template.Store.Inet.{process_bind_param}
use python_react_template.Store.Exec.{Env, World, ok}
use python_react_template.Store.AuthRepository.Users.{
  is_present, mark_user_deleted, after_update, deletion_log,
}
use python_react_template.Store.AuthRepository.Sessions.{
  is_active_at, is_unrevoked_of, revoke_sessions_for_user,
}
use python_react_template.Store.AuthRepository.Sessions.Tables.{any-revoke_user, keep-revoke_user}
use python_react_template.Auth.AccountDeletion.{erase_user}

-- A user is erased: no item, role, identity or active session of the user is left, no row of the
-- user is present, and what belongs to others is what it was. The attempts of logins by OIDC and
-- the audit logs that were there are kept too, and logs are only added.
pub record IsErased (user_id : ℕ) (d d' : Db) : Type 0 where
  pub items : any (λ (i : SampleItem). i.owner_user_id == user_id) d'.items ≡ false
  pub roles : any (λ (r : UserRole). r.user_id == user_id) d'.roles ≡ false
  pub identities : any (λ (i : AuthIdentity). i.user_id == user_id) d'.identities ≡ false
  pub users : any (λ u. u.id == user_id && is_present u) d'.users ≡ false
  pub sessions :
      (later : ℕ) → any (λ s. s.user_id == user_id && is_active_at later s) d'.sessions ≡ false
  pub other_items :
      keep (λ (i : SampleItem). not (i.owner_user_id == user_id)) d'.items
      ≡ keep (λ (i : SampleItem). not (i.owner_user_id == user_id)) d.items
  pub other_roles :
      keep (λ (r : UserRole). not (r.user_id == user_id)) d'.roles
      ≡ keep (λ (r : UserRole). not (r.user_id == user_id)) d.roles
  pub other_identities :
      keep (λ (i : AuthIdentity). not (i.user_id == user_id)) d'.identities
      ≡ keep (λ (i : AuthIdentity). not (i.user_id == user_id)) d.identities
  pub other_users :
      keep (λ (u : User). not (u.id == user_id)) d'.users
      ≡ keep (λ (u : User). not (u.id == user_id)) d.users
  pub other_sessions :
      keep (λ (s : AuthSession). not (s.user_id == user_id)) d'.sessions
      ≡ keep (λ (s : AuthSession). not (s.user_id == user_id)) d.sessions
  pub oidc_states : d'.oidc_states ≡ d.oidc_states
  pub added : List AuthAuditLog
  pub audit_logs : d'.audit_logs ≡ d.audit_logs ++ added

-- The rows after `mark_user_deleted`.
abbrev marked : ℕ → ℕ → List User → List User
marked user_id t users =
    update_where (λ (u : User). u.id == user_id && is_present u)
      (λ u. record u { deleted_at = some t; modified_at = t }) users

any-marked :
    (i t : ℕ) (users : List User) → any (λ u. u.id == i && is_present u) (marked i t users) ≡ false
unfolding any update_where
any-marked i t [] = refl
any-marked i t (u ∷ users) = ground (arith, any-marked i t users)

keep-marked :
    (i t : ℕ) (users : List User)
    → keep (λ (u : User). not (u.id == i)) (marked i t users)
      ≡ keep (λ (u : User). not (u.id == i)) users
unfolding keep update_where
keep-marked i t [] = refl
keep-marked i t (u ∷ users) = ground (arith, keep-marked i t users)

module _ (env : Env) {L : Type 0} where
  mark_user_deleted-frame :
      (i t : ℕ) (s : Option ℕ) (ip : Option String) (w : World L)
      → let d' = (mark_user_deleted env i t s ip w).1.db in
        (d'.users ≡ marked i t w.db.users)
        × (d'.items ≡ w.db.items)
        × (d'.roles ≡ w.db.roles)
        × (d'.identities ≡ w.db.identities)
        × (d'.sessions ≡ w.db.sessions)
  unfolding mark_user_deleted after_update
  mark_user_deleted-frame i t s ip w = ground arith

  -- The audit logs after it, and the table that it does not touch.
  mark_user_deleted-logs :
      (i t : ℕ) (s : Option ℕ) (ip : Option String) (w : World L)
      → let d' = (mark_user_deleted env i t s ip w).1.db in
        (d'.oidc_states ≡ w.db.oidc_states)
        × (added : List AuthAuditLog) × (d'.audit_logs ≡ w.db.audit_logs ++ added)
  unfolding mark_user_deleted after_update
  mark_user_deleted-logs i t s ip w =
      let changed = count_if (λ (u : User). u.id == i && is_present u) w.db.users in
      elim (Bool-cases (changed == 0)) [
        | inl e ↦ (ground arith, [], rw e (ground (arith, append-nil w.db.audit_logs)))
        | inr e ↦ (
          ground arith,
          deletion_log (env.uuid4 w.calls) i s (process_bind_param env ip) t ∷ [],
          rw e (ground arith),
        )
      ]

  -- The tables after the body, which changes each of them once.
  erase_user-frame :
      (i t s : ℕ) (ip : Option String) (w : World L)
      → (erase_user env i t s ip w).0 ≡ ok tt
      → let d' = (erase_user env i t s ip w).1.db in
        (d'.users ≡ marked i t w.db.users)
        × (d'.items ≡ keep (λ (x : SampleItem). not (x.owner_user_id == i)) w.db.items)
        × (d'.roles ≡ keep (λ (x : UserRole). not (x.user_id == i)) w.db.roles)
        × (d'.identities ≡ keep (λ (x : AuthIdentity). not (x.user_id == i)) w.db.identities)
        × (d'.sessions
            ≡ update_where
                (is_unrevoked_of i)
                (λ x. record x { revoked_at = some t })
                w.db.sessions)
        × (d'.oidc_states ≡ w.db.oidc_states)
        × (added : List AuthAuditLog) × (d'.audit_logs ≡ w.db.audit_logs ++ added)
  unfolding erase_user revoke_sessions_for_user
  erase_user-frame i t s ip w done =
      let w1 : World L = record w {
        db = record w.db {
          identities = keep (λ (x : AuthIdentity). not (x.user_id == i)) w.db.identities;
          roles = keep (λ (x : UserRole). not (x.user_id == i)) w.db.roles;
          items = keep (λ (x : SampleItem). not (x.owner_user_id == i)) w.db.items;
        };
      } in
      let (a, b, c, d, e) = mark_user_deleted-frame i t (some s) ip w1 in
      let (f, added, g) = mark_user_deleted-logs i t (some s) ip w1 in
      (
        ground (arith, a),
        ground (arith, b),
        ground (arith, c),
        ground (arith, d),
        ground (arith, e),
        ground (arith, f),
        added,
        ground (arith, g),
      )

  pub erase_user-erases :
      (i t s : ℕ) (ip : Option String) (w : World L) (d' : Db)
      → (erase_user env i t s ip w).0 ≡ ok tt
      → d' ≡ (erase_user env i t s ip w).1.db
      → IsErased i w.db d'
  erase_user-erases i t s ip w d' done same =
      let (users, items, roles, identities, sessions, oidc_states, added, logs) =
        erase_user-frame i t s ip w done in
      let users' = ap (λ (d : Db). d.users) same ∙ users in
      let items' = ap (λ (d : Db). d.items) same ∙ items in
      let roles' = ap (λ (d : Db). d.roles) same ∙ roles in
      let identities' = ap (λ (d : Db). d.identities) same ∙ identities in
      let sessions' = ap (λ (d : Db). d.sessions) same ∙ sessions in
      record {
        items = rw items' (any-keep-not (λ (x : SampleItem). x.owner_user_id == i) w.db.items);
        roles = rw roles' (any-keep-not (λ (x : UserRole). x.user_id == i) w.db.roles);
        identities =
            rw identities' (any-keep-not (λ (x : AuthIdentity). x.user_id == i) w.db.identities);
        users = rw users' (any-marked i t w.db.users);
        sessions = λ later. rw sessions' (any-revoke_user i t later w.db.sessions);
        other_items =
            rw items' (keep-keep (λ (x : SampleItem). not (x.owner_user_id == i)) w.db.items);
        other_roles = rw roles' (keep-keep (λ (x : UserRole). not (x.user_id == i)) w.db.roles);
        other_identities =
            rw identities' (keep-keep (λ (x : AuthIdentity). not (x.user_id == i)) w.db.identities);
        other_users = rw users' (keep-marked i t w.db.users);
        other_sessions = rw sessions' (keep-revoke_user i t w.db.sessions);
        oidc_states = ap (λ (d : Db). d.oidc_states) same ∙ oidc_states;
        added = added;
        audit_logs = ap (λ (d : Db). d.audit_logs) same ∙ logs;
      }
