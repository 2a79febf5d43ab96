-- ===== src/Store/AuthorizationRepository/Replacement.antt =====
-- What `replace_user_roles` leaves in the table of roles.
use python_react_template.Prelude.{
  ℕ, ◌+◌, ◌≡◌, refl, ap, ◌∙◌, inl, inr, arith, String, Bool, Bool-cases, true, false, not, ◌&&◌,
  ◌||◌, Option, List, [], ◌∷◌, ◌++◌, ◌==◌, map, keep, any, str_eq, eq_iff, contains, dedupe, sorted,
  set_minus, if◌then◌else◌, contains-sorted, contains-dedupe, contains-set_minus,
}
use python_react_template.Store.Rows.{UserRole}
use python_react_template.Store.Exec.{Env, World, ok}
use python_react_template.Store.AuthorizationRepository.{
  UserRoleReplacementResult, role_codes_for_user, revoke_codes, add_roles, replace_user_roles,
  is_empty, has_references,
}

-- The user is assigned the role.
unfoldable pub holds : ℕ → String → List UserRole → Bool
holds user_id code roles =
    any (λ (r : UserRole). r.user_id == user_id && str_eq code r.role_code) roles

holds-codes :
    (u : ℕ) (c : String) (roles : List UserRole)
    → contains c
        (map (λ (r : UserRole). r.role_code) (keep (λ (r : UserRole). r.user_id == u) roles))
      ≡ holds u c roles
unfolding holds any keep contains
holds-codes u c [] = refl
holds-codes u c (r ∷ roles) = ground (arith, holds-codes u c roles)

contains-role_codes_for_user :
    (u : ℕ) (c : String) (roles : List UserRole)
    → contains c (role_codes_for_user u roles) ≡ holds u c roles
unfolding role_codes_for_user
contains-role_codes_for_user u c roles =
    contains-sorted c
      (map (λ (r : UserRole). r.role_code) (keep (λ (r : UserRole). r.user_id == u) roles))
    ∙ holds-codes u c roles

holds-revoke :
    (u v : ℕ) (c : String) (revoked : List String) (roles : List UserRole)
    → holds v c (revoke_codes u revoked roles)
      ≡ (holds v c roles && not (v == u && contains c revoked))
unfolding holds any keep
holds-revoke u v c revoked [] = refl
holds-revoke u v c revoked (r ∷ roles) =
    ground (arith, holds-revoke u v c revoked roles, eq_iff c r.role_code)

holds-append :
    (v : ℕ) (c : String) (r : UserRole) (roles : List UserRole)
    → holds v c (roles ++ r ∷ []) ≡ (holds v c roles || (r.user_id == v && str_eq c r.role_code))
unfolding holds any
holds-append v c r [] = ground arith
holds-append v c r (q ∷ roles) = ground (arith, holds-append v c r roles)

module _ (env : Env) {L : Type 0} where
  holds-add_roles :
      (u v : ℕ) (c : String) (t : ℕ) (by : Option ℕ) (codes : List String) (w : World L)
      → holds v c (add_roles env u t by codes w).1.db.roles
        ≡ (holds v c w.db.roles || (v == u && contains c codes))
  unfolding add_roles contains
  holds-add_roles u v c t by [] w = ground arith
  holds-add_roles u v c t by (d ∷ codes) w =
      let added : UserRole = record {
        id = env.uuid4 w.calls;
        user_id = u;
        role_code = d;
        assigned_at = t;
        assigned_by_user_id = by;
      } in
      let w' : World L = record w {
        db = record w.db { roles = w.db.roles ++ added ∷ [] };
        calls = w.calls + 1;
      } in
      ground (arith, holds-add_roles u v c t by codes w', holds-append v c added w.db.roles)

  add_roles-ok :
      (u t : ℕ) (by : Option ℕ) (codes : List String) (w : World L)
      → (add_roles env u t by codes w).0 ≡ ok tt
  unfolding add_roles
  add_roles-ok u t by [] w = refl
  add_roles-ok u t by (d ∷ codes) w = add_roles-ok u t by codes (record w {
    db = record w.db {
      roles =
          w.db.roles
          ++ record {
            id = env.uuid4 w.calls;
            user_id = u;
            role_code = d;
            assigned_at = t;
            assigned_by_user_id = by;
          }
            ∷ [];
    };
    calls = w.calls + 1;
  })

pub contains-is_empty : (c : String) (xs : List String) → is_empty xs ≡ true → contains c xs ≡ false
unfolding contains
contains-is_empty c [] e = refl
contains-is_empty c (x ∷ xs) e = cc

holds-revoke_some :
    (u v : ℕ) (c : String) (revoked : List String) (roles : List UserRole)
    → holds v c (if is_empty revoked then roles else revoke_codes u revoked roles)
      ≡ (holds v c roles && not (v == u && contains c revoked))
holds-revoke_some u v c revoked roles =
    ground (arith, holds-revoke u v c revoked roles, contains-is_empty c revoked)

holds-same_user :
    (u v : ℕ) (c : String) (roles : List UserRole)
    → (v == u) ≡ true
    → holds v c roles ≡ holds u c roles
holds-same_user u v c roles e = let same : v ≡ u = ground arith in ap (λ i. holds i c roles) same

-- What is held once the revoked codes are taken away and the granted ones are added.
replaced :
    (u v : ℕ) (c : String) (codes : List String) (roles : List UserRole)
    → let existing = role_codes_for_user u roles in
      let target = dedupe codes in
      (holds v c roles && not (v == u && contains c (sorted (set_minus existing target)))
        || (v == u && contains c (sorted (set_minus target existing))))
      ≡ (if v == u then contains c codes else holds v c roles)
replaced u v c codes roles =
    let existing = role_codes_for_user u roles in
    let target = dedupe codes in
    ground (
      arith,
      contains-sorted c (set_minus existing target),
      contains-sorted c (set_minus target existing),
      contains-set_minus c existing target,
      contains-set_minus c target existing,
      contains-dedupe c codes,
      contains-role_codes_for_user u c roles,
      holds-same_user u v c roles,
    )

module _ (env : Env) {L : Type 0} where
  -- The call grants something and a row that it refers to is not there.
  abbrev pub is_broken : ℕ → List String → Option ℕ → World L → Bool
  is_broken user_id role_codes assigned_by_user_id w =
      let existing = role_codes_for_user user_id w.db.roles in
      not (is_empty (sorted (set_minus (dedupe role_codes) existing)))
      && not (has_references user_id assigned_by_user_id w.db.users)

  -- What the call does where it is not refused.
  replace_user_roles-left :
      (user_id : ℕ) (role_codes : List String) (assigned_by_user_id : Option ℕ) (w : World L)
      (v : ℕ) (code : String)
      → is_broken user_id role_codes assigned_by_user_id w ≡ false
      → let (result, w') = replace_user_roles env user_id role_codes assigned_by_user_id w in
        ((r : UserRoleReplacementResult) × (result ≡ ok r))
        × (holds v code w'.db.roles
            ≡ (if v == user_id then contains code role_codes else holds v code w.db.roles))
  unfolding replace_user_roles
  replace_user_roles-left u codes by w v c fine =
      let existing = role_codes_for_user u w.db.roles in
      let target = dedupe codes in
      let revoked = sorted (set_minus existing target) in
      let granted = sorted (set_minus target existing) in
      let t = env.utcnow w.calls in
      let w1 : World L = record w {
        db = record w.db {
          roles = if is_empty revoked then w.db.roles else revoke_codes u revoked w.db.roles;
        };
        calls = w.calls + 1;
      } in
      let done = add_roles-ok env u t by granted w1 in
      let added = holds-add_roles env u v c t by granted w1 in
      rw fine (
        (
          record {
            user_id = u;
            granted_role_codes = granted;
            revoked_role_codes = revoked;
            current_role_codes = sorted target;
          },
          ground (arith, done),
        ),
        (ground (
          arith,
          done,
          added,
          holds-revoke_some u v c revoked w.db.roles,
          replaced u v c codes w.db.roles,
        )),
      )

  -- A call that succeeds was not refused.
  replace_user_roles-ok :
      (user_id : ℕ) (role_codes : List String) (assigned_by_user_id : Option ℕ) (w : World L)
      {r : UserRoleReplacementResult}
      → (replace_user_roles env user_id role_codes assigned_by_user_id w).0 ≡ ok r
      → is_broken user_id role_codes assigned_by_user_id w ≡ false
  unfolding replace_user_roles
  replace_user_roles-ok u codes by w h = elim (Bool-cases (is_broken u codes by w)) [
    | inl refused ↦ absurd (cc (rw refused at h))
    | inr fine ↦ fine
  ]

  -- A call that succeeds leaves the user with exactly the given roles, and every other user with
  -- the roles that they had.
  pub holds-replace_user_roles :
      (user_id : ℕ) (role_codes : List String) (assigned_by_user_id : Option ℕ) (w : World L)
      {r : UserRoleReplacementResult} (v : ℕ) (code : String)
      → (replace_user_roles env user_id role_codes assigned_by_user_id w).0 ≡ ok r
      → holds v code (replace_user_roles env user_id role_codes assigned_by_user_id w).1.db.roles
        ≡ (if v == user_id then contains code role_codes else holds v code w.db.roles)
  holds-replace_user_roles u codes by w v c h =
      (replace_user_roles-left u codes by w v c (replace_user_roles-ok u codes by w h)).1

  -- Where the table of users has the user, and the assigner if there is one, the call succeeds and
  -- leaves the user with exactly the given roles, whatever they were before, and every other user
  -- with the roles that they had.
  pub replace_user_roles-holds :
      (user_id : ℕ) (role_codes : List String) (assigned_by_user_id : Option ℕ) (w : World L)
      (v : ℕ) (code : String)
      → has_references user_id assigned_by_user_id w.db.users ≡ true
      → let (result, w') = replace_user_roles env user_id role_codes assigned_by_user_id w in
        ((r : UserRoleReplacementResult) × (result ≡ ok r))
        × (holds v code w'.db.roles
            ≡ (if v == user_id then contains code role_codes else holds v code w.db.roles))
  replace_user_roles-holds u codes by w v c there =
      replace_user_roles-left u codes by w v c (ground arith)
