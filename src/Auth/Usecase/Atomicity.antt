-- ===== src/Auth/Usecase/Atomicity.antt =====
-- What a `login` or a `register` that raises leaves behind.
use python_react_template.Prelude.{
  ℕ, ◌≡◌, ◌≢◌, refl, sym, ap, subst, inl, inr, arith, String, Bool, true, false, ◌&&◌, Option, none,
  some, str_eq, find, List, [], ◌++◌, ◌∙◌, Bool-cases,
}
use mathlib.Core.List.{append-nil}
use python_react_template.Store.Rows.{
  User, AuthSession, AuthAuditLog, LanguageCode, Db, login_success,
}
use python_react_template.Store.Exec.{
  Env, Error, Exec, World, Result, ok, err, transaction, continue, raise, ◌>>◌,
}
use python_react_template.Store.Exec.Laws.{db-transaction_err}
use python_react_template.Store.AuthRepository.Users.{find_user_by_email, is_present}
use python_react_template.RateLimit.Interface.{LoginRateLimiter}
use python_react_template.Auth.Settings.{AuthSettings, rate_limit_ip, validate_password_policy}
use python_react_template.Auth.Usecase.Context.{start_session}
use python_react_template.Auth.Usecase.Login.{
  accepted, login, login_checked, login_accepted, login_issued, login_refused, register,
  register_new, register_issued, register_refused, register_user, on_email_taken, is_email_taken,
  check_password,
}

-- Nothing but the audit log differs, and that has only got longer.
pub record IsOnlyLogged (d d' : Db) : Type 0 where
  pub users : d'.users ≡ d.users
  pub sessions : d'.sessions ≡ d.sessions
  pub identities : d'.identities ≡ d.identities
  pub roles : d'.roles ≡ d.roles
  pub items : d'.items ≡ d.items
  pub oidc_states : d'.oidc_states ≡ d.oidc_states
  pub added : List AuthAuditLog
  pub audit_logs : d'.audit_logs ≡ d.audit_logs ++ added

unchanged : (d d' : Db) → d' ≡ d → IsOnlyLogged d d'
unchanged d d' e = record {
  users = ap (λ (x : Db). x.users) e;
  sessions = ap (λ (x : Db). x.sessions) e;
  identities = ap (λ (x : Db). x.identities) e;
  roles = ap (λ (x : Db). x.roles) e;
  items = ap (λ (x : Db). x.items) e;
  oidc_states = ap (λ (x : Db). x.oidc_states) e;
  added = [];
  audit_logs = ap (λ (x : Db). x.audit_logs) e ∙ sym (append-nil d.audit_logs);
}

module _ {L A B : Type 0} where
  -- If only the first part of a sequence can raise, what it keeps is kept.
  continue-same :
      (d : Db) (r : Result A × World L) (f : A → Exec L B) {x : Error}
      → ((a : A) (w : World L) → (f a w).0 ≢ err x)
      → ((y : Error) → r.0 ≡ err y → IsOnlyLogged d r.1.db)
      → (continue r f).0 ≡ err x
      → IsOnlyLogged d (continue r f).1.db
  continue-same d (ok a, w) f never kept q = absurd (never a w q)
  continue-same d (err y, w) f never kept q = kept y refl

module _ (R : LoginRateLimiter) (env : Env) (settings : AuthSettings) where
  login_refused-same :
      (ip e : String) (u : Option User) (a ua : Option String) (w : World R.State)
      → IsOnlyLogged w.db (login_refused R env settings ip e u a ua w).1.db
  unfolding login_refused
  login_refused-same ip e u a ua w = record {
    users = ground arith;
    sessions = ground arith;
    identities = ground arith;
    roles = ground arith;
    items = ground arith;
    oidc_states = ground arith;
    added = _;
    audit_logs = refl;
  }

  login_issued-ok :
      (ip e : String) (p : User × AuthSession × String × String) (w : World R.State) {x : Error}
      → (login_issued R env settings ip e p w).0 ≢ err x
  unfolding login_issued
  login_issued-ok ip e (u, s, st, ct) w q = ground arith

  login_accepted-same :
      (ip e : String) (u : User) (cur a ua : Option String) (w : World R.State) {x : Error}
      → w.in_transaction ≡ false
      → (login_accepted R env settings ip e u cur a ua w).0 ≡ err x
      → IsOnlyLogged w.db (login_accepted R env settings ip e u cur a ua w).1.db
  unfolding login_accepted
  login_accepted-same ip e u cur a ua w outside q =
      let m = start_session env settings login_success u.id cur a ua in
      continue-same w.db (transaction m w) (login_issued R env settings ip e)
        (λ p w1. login_issued-ok ip e p w1)
        (λ y failed. unchanged w.db (transaction m w).1.db (db-transaction_err m w outside failed))
        q

  login_checked-same :
      (ip e : String) (o v : Option User) (cur a ua : Option String) (w : World R.State) {x : Error}
      → w.in_transaction ≡ false
      → (login_checked R env settings ip e o v cur a ua w).0 ≡ err x
      → IsOnlyLogged w.db (login_checked R env settings ip e o v cur a ua w).1.db
  unfolding login_checked
  login_checked-same ip e o none cur a ua w outside q = login_refused-same ip e o a ua w
  login_checked-same ip e o (some u) cur a ua w outside q =
      login_accepted-same ip e u cur a ua w outside q

  -- A `login` that raises, outside a transaction, changes no table but the audit log, to which it
  -- adds at most.
  pub login-atomic :
      (email password : String) (cur ip_address ua : Option String) (w : World R.State) {x : Error}
      → w.in_transaction ≡ false
      → (login R env settings email password cur ip_address ua w).0 ≡ err x
      → IsOnlyLogged w.db (login R env settings email password cur ip_address ua w).1.db
  unfolding login find_user_by_email
  login-atomic email password cur ip_address ua w outside q =
      let e = env.lower (env.strip email) in
      let ip = rate_limit_ip ip_address in
      let answer = R.is_allowed ip e w.limiter in
      let found =
        find (λ (u : User). str_eq (env.sql_lower u.email) e && is_present u) w.db.users in
      elim (Bool-cases answer.0) [
        | inl allowed ↦ rw allowed (
            login_checked-same ip e found (accepted env password found) cur ip_address ua
              (record w { limiter = answer.1 }) outside (rw allowed at q))
        | inr refused ↦ rw refused (unchanged w.db w.db refl)
      ]

  register_refused-same :
      (ip e : String) (i : Option ℕ) (a ua : Option String) (w : World R.State)
      → IsOnlyLogged w.db (register_refused R env settings ip e i a ua w).1.db
  unfolding register_refused
  register_refused-same ip e i a ua w = record {
    users = ground arith;
    sessions = ground arith;
    identities = ground arith;
    roles = ground arith;
    items = ground arith;
    oidc_states = ground arith;
    added = _;
    audit_logs = refl;
  }

  register_issued-ok :
      (ip : String) (p : User × AuthSession × String × String) (w : World R.State) {x : Error}
      → (register_issued R env settings ip p w).0 ≢ err x
  unfolding register_issued
  register_issued-ok ip (u, s, st, ct) w q = ground arith

  after_raise :
      (handler : Exec R.State Unit) (y : Error) (w : World R.State)
      → ((handler >> raise {A = User × AuthSession × String × String} y) w).1.db ≡ (handler w).1.db
  after_raise handler y w = ground arith

  on_email_taken-same :
      (handler : Exec R.State Unit) (d : Db)
      (r : Result (User × AuthSession × String × String) × World R.State)
      → ((w : World R.State) → IsOnlyLogged w.db (handler w).1.db)
      → ((y : Error) → r.0 ≡ err y → r.1.db ≡ d)
      → (y : Error) → (on_email_taken handler r).0 ≡ err y
      → IsOnlyLogged d (on_email_taken handler r).1.db
  unfolding on_email_taken
  on_email_taken-same handler d (ok p, w) same undone y q = cc
  on_email_taken-same handler d (err z, w) same undone y q = elim (Bool-cases (is_email_taken z)) [
    | inl taken ↦ rw taken (
        subst (IsOnlyLogged d) (sym (after_raise handler z w))
          (subst (λ x. IsOnlyLogged x (handler w).1.db) (undone z refl) (same w)))
    | inr other ↦ rw other (unchanged d w.db (undone z refl))
  ]

  register_new-same :
      (ip e : String) (o : Option User) (password : String) (l : LanguageCode)
      (cur a ua : Option String) (w : World R.State) {x : Error}
      → w.in_transaction ≡ false
      → (register_new R env settings ip e o password l cur a ua w).0 ≡ err x
      → IsOnlyLogged w.db (register_new R env settings ip e o password l cur a ua w).1.db
  unfolding register_new
  register_new-same ip e (some u) password l cur a ua w outside q =
      let same = register_refused-same ip e (some u.id) a ua w in
      record {
        users = ground (arith, same.users);
        sessions = ground (arith, same.sessions);
        identities = ground (arith, same.identities);
        roles = ground (arith, same.roles);
        items = ground (arith, same.items);
        oidc_states = ground (arith, same.oidc_states);
        added = same.added;
        audit_logs = ground (arith, same.audit_logs);
      }
  register_new-same ip e none password l cur a ua w outside q =
      let m = register_user R env settings e password l cur a ua in
      let handler = register_refused R env settings ip e none a ua in
      let r = on_email_taken handler (transaction m w) in
      continue-same w.db r (register_issued R env settings ip) (λ p w1. register_issued-ok ip p w1)
        (on_email_taken-same handler w.db (transaction m w) (register_refused-same ip e none a ua)
          (λ y failed. db-transaction_err m w outside failed))
        q

  check_password-same :
      (ip e : String) (strong : Bool) (w : World R.State)
      → IsOnlyLogged w.db (check_password R env settings ip e strong w).1.db
  unfolding check_password
  check_password-same ip e true w = unchanged w.db w.db refl
  check_password-same ip e false w = unchanged w.db w.db refl

  -- A `register` that raises, outside a transaction, changes no table but the audit log, to which it
  -- adds at most.
  pub register-atomic :
      (email password : String) (l : LanguageCode) (cur ip_address ua : Option String)
      (w : World R.State) {x : Error}
      → w.in_transaction ≡ false
      → (register R env settings email password l cur ip_address ua w).0 ≡ err x
      → IsOnlyLogged w.db (register R env settings email password l cur ip_address ua w).1.db
  unfolding register find_user_by_email
  register-atomic email password l cur ip_address ua w outside q =
      let e = env.lower (env.strip email) in
      let ip = rate_limit_ip ip_address in
      let answer = R.is_allowed ip e w.limiter in
      let second = R.is_registration_allowed ip answer.1 in
      let found =
        find (λ (u : User). str_eq (env.sql_lower u.email) e && is_present u) w.db.users in
      elim (Bool-cases answer.0) [
        | inr refused ↦ rw refused (unchanged w.db w.db refl)
        | inl allowed ↦ elim (Bool-cases second.0) [
          | inr refused ↦ rw (allowed, refused) (unchanged w.db w.db refl)
          | inl registered ↦ elim (Bool-cases (validate_password_policy password)) [
            | inr weak ↦ rw (allowed, registered, weak, check_password) (unchanged w.db w.db refl)
            | inl strong ↦
                rw (allowed, registered, strong, check_password)
                  (register_new-same ip e found password l cur ip_address ua
                    (record w { limiter = second.1 }) outside
                    (rw (allowed, registered, strong, check_password) at q))
          ]
        ]
      ]
