-- ===== src/Auth/Oidc/ClaimChecks.antt =====
-- The single checks of an identity token's claims, and what a claim that passes one is.
use python_react_template.Prelude.{
  ℕ, ◌*◌, ◌≡◌, ◌⊎◌, List, [], ◌∷◌, any, subst, if◌then◌else◌, refl, ap, sym, inl, inr, arith,
  String, Bool, true, false, not, Option, none, some, ltb, leb, str_eq, eq_iff, Bool-cases,
}
use python_react_template.Store.Exec.{Env, Exec, Error, World, ok, raise_if, ◌>>=◌, ◌>>◌}
use python_react_template.Auth.Oidc.IdToken.{
  Claim, null, text, whole, boolean, list_of, is_text, optional_normalized_email, audience_contains,
  differs, is_true, required_str, from_timestamp, datetime_claim, optional_datetime_claim,
  check_auth_time,
}

-- `auth_time` is there and before the limit, if it is required.
abbrev pub is_timely : Bool → ℕ → Option ℕ → Bool
is_timely false limit auth_time = true
is_timely true limit none = false
is_timely true limit (some auth_time) = leb auth_time limit

-- The time that a claim names, in milliseconds.
abbrev pub milliseconds_of : Option Claim → Option ℕ
milliseconds_of (some (whole seconds)) = some (seconds * 1000)
milliseconds_of _ = none

-- The email that a claim has, trimmed and in lower case, if there is something in it.
abbrev pub email_of : Env → Option Claim → Option String
email_of env (some (text value)) =
    let email = env.lower (env.strip value) in if str_eq email "" then none else some email
email_of env _ = none

-- The claim is the Boolean `True`.
abbrev pub says_true : Option Claim → Bool
says_true (some (boolean true)) = true
says_true _ = false

-- The text is a member of the list.
pub data IsListed (t : String) : List (Option String) → Type 0 where
  here : (xs : List (Option String)) → IsListed t (some t ∷ xs)
  there : (x : Option String) (xs : List (Option String)) → IsListed t xs → IsListed t (x ∷ xs)

-- The audience is the client, or a list with the client in it.
pub data IsForClient (client_id : String) : Option Claim → Type 0 where
  alone : IsForClient client_id (some (text client_id))
  among :
      (audience : List (Option String))
      → IsListed client_id audience
      → IsForClient client_id (some (list_of audience))

module _ {L A : Type 0} where
  pub raise_if-ok :
      (b : Bool) (e : Error) (k : Exec L A) (w : World L) {a : A}
      → ((raise_if b e >> k) w).0 ≡ ok a
      → (b ≡ false) × ((k w).0 ≡ ok a)
  raise_if-ok true e k w h = absurd cc
  raise_if-ok false e k w h = (refl, h)

  pub required_str-ok :
      (c : Option Claim) (f : String → Exec L A) (w : World L) {a : A}
      → ((required_str c >>= f) w).0 ≡ ok a
      → (t : String) × (c ≡ some (text t)) × ((f t w).0 ≡ ok a)
  unfolding required_str
  required_str-ok (some (text t)) f w h = elim (Bool-cases (str_eq t "")) [
    | inl empty ↦ absurd (cc (rw empty at h))
    | inr filled ↦ (t, refl, rw filled at h)
  ]
  required_str-ok _ f w h = absurd cc

  pub check_auth_time-ok :
      (b : Bool) (limit : ℕ) (o : Option ℕ) (k : Exec L A) (w : World L) {a : A}
      → ((check_auth_time b limit o >> k) w).0 ≡ ok a
      → (is_timely b limit o ≡ true) × ((k w).0 ≡ ok a)
  unfolding check_auth_time
  check_auth_time-ok false limit o k w h = (refl, h)
  check_auth_time-ok true limit none k w h = absurd cc
  check_auth_time-ok true limit (some t) k w h = elim (Bool-cases (ltb limit t)) [
    | inl late ↦ absurd (cc (rw late at h))
    | inr timely ↦ (ground (arith, timely), rw timely at h)
  ]

  from_timestamp-ok :
      (n : ℕ) (f : ℕ → Exec L A) (w : World L) {a : A}
      → ((from_timestamp n >>= f) w).0 ≡ ok a
      → (f (n * 1000) w).0 ≡ ok a
  unfolding from_timestamp
  from_timestamp-ok n f w h = elim (Bool-cases (ltb 253402300799 n)) [
    | inl far ↦ absurd (cc (rw far at h))
    | inr near ↦ rw near at h
  ]

  pub datetime_claim-ok :
      (c : Option Claim) (f : ℕ → Exec L A) (w : World L) {a : A}
      → ((datetime_claim c >>= f) w).0 ≡ ok a
      → (n : ℕ) × (c ≡ some (whole n)) × ((f (n * 1000) w).0 ≡ ok a)
  unfolding datetime_claim
  datetime_claim-ok (some (whole n)) f w h = (n, refl, from_timestamp-ok n f w h)
  datetime_claim-ok _ f w h = absurd cc

  pub optional_datetime_claim-ok :
      (c : Option Claim) (f : Option ℕ → Exec L A) (w : World L) {a : A}
      → ((optional_datetime_claim c >>= f) w).0 ≡ ok a
      → (f (milliseconds_of c) w).0 ≡ ok a
  unfolding optional_datetime_claim
  optional_datetime_claim-ok none f w h = h
  optional_datetime_claim-ok (some null) f w h = h
  optional_datetime_claim-ok (some (whole n)) f w h =
      from_timestamp-ok n (λ t. f (some t)) w (ground (arith, h))
  optional_datetime_claim-ok _ f w h = absurd cc

pub is_true-says : (c : Option Claim) → is_true c ≡ says_true c
unfolding is_true
is_true-says (some (boolean true)) = refl
is_true-says (some (boolean false)) = refl
is_true-says _ = refl

pub optional_normalized_email-of :
    (env : Env) (c : Option Claim) → optional_normalized_email env c ≡ email_of env c
unfolding optional_normalized_email
optional_normalized_email-of env (some (text t)) = refl
optional_normalized_email-of env _ = refl

pub differs-no : (o : Option String) (t : String) → differs o t ≡ false → (o ≡ none) ⊎ (o ≡ some t)
unfolding differs
differs-no none t h = inl refl
differs-no (some u) t h = inr (ap some (sym ((eq_iff t u).0 (ground (arith, h)))))

any-IsListed : (t : String) (xs : List (Option String)) → any (is_text t) xs ≡ true → IsListed t xs
unfolding any
any-IsListed t [] h = absurd (cc)
any-IsListed t (none ∷ xs) h = there none xs (any-IsListed t xs (ground (arith, h)))
any-IsListed t (some u ∷ xs) h = elim (Bool-cases (str_eq u t)) [
  | inl e ↦ subst (λ v. IsListed t (some v ∷ xs)) (sym ((eq_iff u t).0 e)) (here xs)
  | inr e ↦ there (some u) xs (any-IsListed t xs (rw e at h))
]

pub audience_contains-client :
    (c : Option Claim) (t : String) → audience_contains c t ≡ true → IsForClient t c
unfolding audience_contains
audience_contains-client (some (text u)) t h =
    subst (λ x. IsForClient t (some (text x))) (sym ((eq_iff u t).0 h)) alone
audience_contains-client (some (list_of xs)) t h = among xs (any-IsListed t xs h)
audience_contains-client _ t h = absurd cc

pub not-false : {b : Bool} → not b ≡ false → b ≡ true
not-false {b} h = ground (arith, h)

pub ok-inj : {A : Type 0} {a b : A} → ok a ≡ ok b → a ≡ b
ok-inj h = cc
