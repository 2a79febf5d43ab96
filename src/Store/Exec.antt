-- ===== src/Store/Exec.antt =====
-- Code that reads and writes the database, asks the rate limiter and may raise. What was written
-- stays written after a raise, unless a transaction rolls it back.
pub mod Atomic
pub mod Frame
pub mod Laws
use python_react_template.Prelude.{ℕ, ◌+◌, String, Bool, true, false, Option, List, if◌then◌else◌}
use python_react_template.Store.Rows.{Db, Purpose}

-- auth_errors.py, authorization_errors.py, sample_item_errors.py, oidc_errors.py, and Python's own errors.
pub data Error : Type 0 where
  email_already_registered invalid_credentials weak_password : Error
  rate_limit_exceeded : ℕ → Error
  user_not_found auth_session_not_found authorization_user_not_found : ℕ → Error
  role_not_found : List String → Error
  account_deletion_confirmation_mismatch account_deletion_reauth_required : Error
  account_deletion_invalid_password : Error
  account_deletion_oidc_reauth_required : List (String × String) → Error
  sample_item_not_found invalid_sample_item_cursor : Error
  value_error integrity_error : Error
  -- oidc_errors.py; the last is of the error, the purpose and the redirect path of a callback
  oidc_provider_not_configured oidc_provider_unavailable oidc_provider_metadata : Error
  oidc_state_mismatch oidc_browser_binding_mismatch oidc_token_exchange : Error
  oidc_provider_access_denied oidc_claims_validation oidc_email_not_verified : Error
  oidc_provisioning_disabled oidc_identity_link_required oidc_identity_link_disabled : Error
  oidc_identity_unavailable oidc_authorization_rate_limited oidc_reauth_subject_mismatch : Error
  oidc_reauth_authentication_required oidc_reauth_auth_time_required oidc_reauth_stale : Error
  oidc_callback_flow : Error → Purpose → String → Error

pub data Result {ℓ} (A : Type ℓ) : Type ℓ where
  ok : A → Result A
  err : Error → Result A

-- What the program does not define: the clock, the random sources, the hash functions, Unicode's
-- tables for `strip` and `lower`, the standard text of an address, and PostgreSQL's `lower`. A
-- source that changes from call to call answers by the number of the call.
pub record Env : Type 0 where
  -- `datetime.now(UTC)`
  pub utcnow : ℕ → ℕ
  -- `uuid4()`
  pub uuid4 : ℕ → ℕ
  -- `secrets.token_urlsafe(32)`
  pub token_urlsafe : ℕ → String
  -- `hashlib.sha256(…).hexdigest()`
  pub sha256 : String → String
  -- `pwdlib`'s `hash`, salted, and `verify`
  pub hash_password : ℕ → String → String
  pub verify_password : String → String → Bool
  -- `str.strip`, `str.lower`, and `lower` in SQL
  pub strip : String → String
  pub lower : String → String
  pub sql_lower : String → String
  -- `str(ip_address(…))`, of an address
  pub ip_address : String → String
  -- `pg_try_advisory_xact_lock`
  pub try_advisory_lock : ℕ → Bool

-- `L` is the state of the rate limiter. `calls` counts the calls of the environment.
pub record World (L : Type 0) : Type 0 where
  pub db : Db
  pub limiter : L
  pub calls : ℕ
  pub in_transaction : Bool

abbrev pub Exec : Type 0 → Type 0 → Type 0
Exec L A = World L → Result A × World L

module _ {L A : Type 0} where
  abbrev pub pure : A → Exec L A
  pure a w = (ok a, w)

  abbrev pub raise : Error → Exec L A
  raise e w = (err e, w)

  -- A query.
  abbrev pub query : (Db → A) → Exec L A
  query f w = (ok (f w.db), w)

  -- A value that the environment gives anew at each call.
  abbrev pub draw : (ℕ → A) → Exec L A
  draw f w = (ok (f w.calls), record w { calls = w.calls + 1 })

  abbrev pub ask_limiter : (L → A × L) → Exec L A
  ask_limiter f w = let (a, l) = f w.limiter in (ok a, record w { limiter = l })

  -- The outermost `async with self._unit_of_work.transaction()`: a raise undoes what the body
  -- wrote to the database, and nothing else.
  abbrev pub close_transaction : Db → Result A × World L → Result A × World L
  close_transaction before (ok a, w) = (ok a, record w { in_transaction = false })
  close_transaction before (err e, w) = (err e, record w { db = before; in_transaction = false })

  -- `UnitOfWork.transaction`: a nested one joins the current transaction.
  abbrev pub transaction : Exec L A → Exec L A
  transaction body w =
      if w.in_transaction
      then body w
      else close_transaction w.db (body (record w { in_transaction = true }))

module _ {L : Type 0} where
  -- A write.
  abbrev pub modify : (Db → Db) → Exec L (Unit {0})
  modify f w = (ok tt, record w { db = f w.db })

  abbrev pub tell_limiter : (L → L) → Exec L (Unit {0})
  tell_limiter f w = (ok tt, record w { limiter = f w.limiter })

module _ {L A B : Type 0} where
  abbrev pub continue : Result A × World L → (A → Exec L B) → Result B × World L
  continue (ok a, w) f = f a w
  continue (err e, w) f = (err e, w)

  infixl 5 ◌>>=◌ ◌>>◌
  abbrev pub ◌>>=◌ : Exec L A → (A → Exec L B) → Exec L B
  ◌>>=◌ m f w = continue (m w) f

  abbrev pub ◌>>◌ : Exec L A → Exec L B → Exec L B
  m >> k = m >>= λ _. k

module _ {L : Type 0} where
  -- `if test: raise error`
  abbrev pub raise_if : Bool → Error → Exec L (Unit {0})
  raise_if test e w = (if test then err e else ok tt, w)
