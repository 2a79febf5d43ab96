-- ===== src/Store/AdminUserRepository/Paging.antt =====
-- The pages of `list_users`.
use python_react_template.Prelude.{
  ℕ, zero, suc, ◌+◌, ◌-◌, min, ◌≡◌, refl, sym, ap, ◌∙◌, arith, String, Bool, true, ◌||◌, List, [],
  ◌∷◌, ◌++◌, length, take, drop, map, keep, any, ◌==◌,
}
use python_react_template.Store.Rows.{User, UserRole}
use python_react_template.Store.Exec.{Env, World, Result, ok, err}
use python_react_template.Store.AuthorizationRepository.{role_codes_for_user}
use python_react_template.Store.AdminUserRepository.{
  AdminUserListQuery, AdminUserRecord, AdminOffsetPageResult, insert_user, order_users, filters,
  matching_users, list_users, role_codes_for_users,
}

module _ {ℓ} {A : Type ℓ} where
  length-take : (n : ℕ) (xs : List A) → length (take n xs) ≡ min n (length xs)
  length-take zero xs = omega arith
  length-take (suc n) [] = omega arith
  length-take (suc n) (x ∷ xs) = omega (arith, length-take n xs)

  length-drop : (n : ℕ) (xs : List A) → length (drop n xs) ≡ length xs - n
  length-drop zero xs = omega arith
  length-drop (suc n) [] = omega arith
  length-drop (suc n) (x ∷ xs) = omega (arith, length-drop n xs)

  drop-nil : (n : ℕ) → drop {A = A} n [] ≡ []
  drop-nil zero = refl
  drop-nil (suc n) = refl

  drop-drop : (n m : ℕ) (xs : List A) → drop n (drop m xs) ≡ drop (m + n) xs
  drop-drop n zero xs = ap (λ k. drop k xs) (omega arith)
  drop-drop n (suc m) [] = drop-nil n ∙ sym (drop-nil (suc m + n))
  drop-drop n (suc m) (x ∷ xs) =
      let next : suc (m + n) ≡ suc m + n = omega arith in
      drop-drop n m xs ∙ ap (λ k. drop k (x ∷ xs)) next

  take-nil : (n : ℕ) → take {A = A} n [] ≡ []
  take-nil zero = refl
  take-nil (suc n) = refl

  take-append_drop : (n k : ℕ) (xs : List A) → take n xs ++ take k (drop n xs) ≡ take (n + k) xs
  take-append_drop zero k xs = ap (λ j. take j xs) (omega arith)
  take-append_drop (suc n) k [] = take-nil k ∙ sym (take-nil (suc n + k))
  take-append_drop (suc n) k (x ∷ xs) =
      let next : suc (n + k) ≡ suc n + k = omega arith in
      ap (λ ys. x ∷ ys) (take-append_drop n k xs) ∙ ap (λ j. take j (x ∷ xs)) next

  map-append : {B : Type 0} (f : A → B) (xs ys : List A) → map f (xs ++ ys) ≡ map f xs ++ map f ys
  map-append f [] ys = refl
  map-append f (x ∷ xs) ys = ap (λ zs. f x ∷ zs) (map-append f xs ys)

  length-map : {B : Type 0} (f : A → B) (xs : List A) → length (map f xs) ≡ length xs
  length-map f [] = refl
  length-map f (x ∷ xs) = ap suc (length-map f xs)

length-insert_user :
    (a : User) (users : List User) → length (insert_user a users) ≡ suc (length users)
unfolding insert_user
length-insert_user a [] = refl
length-insert_user a (b ∷ users) = ground (arith, length-insert_user a users)

length-order_users : (users : List User) → length (order_users users) ≡ length users
unfolding order_users
length-order_users [] = refl
length-order_users (a ∷ users) =
    length-insert_user a (order_users users) ∙ ap suc (length-order_users users)

-- The user with the codes of the user's own roles.
abbrev pub with_roles : List UserRole → User → AdminUserRecord
with_roles roles u = record { user = u; roles = role_codes_for_user u.id roles }

-- The dictionary of the page has each user of the page.
map-role_codes_for_users :
    (roles : List UserRole) (ids : List ℕ) (users : List User)
    → ((i : ℕ) → any (λ (u : User). u.id == i) users ≡ true → any (λ j. j == i) ids ≡ true)
    → map (λ (u : User). record { user = u; roles = role_codes_for_users ids roles u.id }) users
      ≡ map (with_roles roles) users
unfolding role_codes_for_users any
map-role_codes_for_users roles ids [] h = refl
map-role_codes_for_users roles ids (u ∷ users) h =
    let own : any (λ j. j == u.id) ids ≡ true = h u.id (ground arith) in
    ap
      (λ codes.
        record { user = u; roles = codes }
        ∷ map (λ (v : User). record { user = v; roles = role_codes_for_users ids roles v.id })
            users)
      (rw own refl)
    ∙ ap (λ rest. with_roles roles u ∷ rest)
        (map-role_codes_for_users roles ids users (λ i g. h i (ground (arith, g))))

any-ids :
    (i : ℕ) (users : List User)
    → any (λ j. j == i) (map (λ (u : User). u.id) users) ≡ any (λ (u : User). u.id == i) users
unfolding any
any-ids i [] = refl
any-ids i (u ∷ users) = ap (λ b. (u.id == i) || b) (any-ids i users)

-- The records of a result, and the total.
unfoldable pub items_of : Result AdminOffsetPageResult → List AdminUserRecord
items_of (ok page) = page.items
items_of (err e) = []

unfoldable pub total_of : Result AdminOffsetPageResult → ℕ
total_of (ok page) = page.total
total_of (err e) = 0

module _ (env : Env) (like : String → String → Bool) {L : Type 0} where
  abbrev pub page : AdminUserListQuery → ℕ → ℕ → World L → Result AdminOffsetPageResult
  page q offset limit w = (list_users env like q (record { offset = offset; limit = limit }) w).0

  items-page :
      (q : AdminUserListQuery) (offset limit : ℕ) (w : World L)
      → items_of (page q offset limit w)
        ≡ map (with_roles w.db.roles) (take limit (drop offset (matching_users env like q w.db)))
  unfolding list_users items_of
  items-page q offset limit w =
      let users = take limit (drop offset (matching_users env like q w.db)) in
      map-role_codes_for_users w.db.roles (map (λ (u : User). u.id) users) users
        (λ i h. any-ids i users ∙ h)

  total-page :
      (q : AdminUserListQuery) (offset limit : ℕ) (w : World L)
      → total_of (page q offset limit w) ≡ length (matching_users env like q w.db)
  unfolding list_users total_of matching_users
  total-page q offset limit w =
      sym (length-order_users (keep (filters env like q w.db.roles) w.db.users))

  -- A page of users has as many as the limit allows of those behind the offset, by the total that
  -- it gives, each with the codes of the user's own roles; and two pages, the second at the first
  -- one's offset and limit together, list what one page of both limits lists.
  pub list_users-pages :
      (q : AdminUserListQuery) (offset n k : ℕ) (w : World L)
      → (length (items_of (page q offset n w)) ≡ min n (total_of (page q offset n w) - offset))
        × (items_of (page q offset n w) ++ items_of (page q (offset + n) k w)
            ≡ items_of (page q offset (n + k) w))
        × (items_of (page q offset n w)
            ≡ map (with_roles w.db.roles) (take n (drop offset (matching_users env like q w.db))))
  list_users-pages q offset n k w =
      let users = matching_users env like q w.db in
      (
        ap length (items-page q offset n w)
            ∙ length-map (with_roles w.db.roles) (take n (drop offset users))
            ∙ length-take n (drop offset users)
            ∙ ap (min n) (length-drop offset users)
            ∙ ap (λ t. min n (t - offset)) (sym (total-page q offset n w)),
        ap (λ xs. xs ++ items_of (page q (offset + n) k w)) (items-page q offset n w)
            ∙ ap (λ xs. map (with_roles w.db.roles) (take n (drop offset users)) ++ xs)
                (items-page q (offset + n) k w)
            ∙ sym (
                map-append (with_roles w.db.roles) (take n (drop offset users))
                  (take k (drop (offset + n) users)))
            ∙ ap (λ xs. map (with_roles w.db.roles) (take n (drop offset users) ++ take k xs))
                (sym (drop-drop n offset users))
            ∙ ap (map (with_roles w.db.roles)) (take-append_drop n k (drop offset users))
            ∙ sym (items-page q offset (n + k) w),
        items-page q offset n w,
      )
