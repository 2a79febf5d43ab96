-- ===== src/Store/SampleItemRepository/Pages.antt =====
-- The pages of `list_by_owner`.
use python_react_template.Prelude.{
  ℕ, ◌≡◌, refl, sym, ap, ◌∙◌, inl, inr, arith, Bool, true, false, ◌&&◌, some, List, [], ◌∷◌, ◌++◌,
  ◌==◌, keep, any, subst, take, All, if◌then◌else◌, Bool-cases,
}
use python_react_template.Store.Rows.{SampleItem}
use python_react_template.Store.SampleItemRepository.{
  SampleItemCursor, is_after, is_newer, insert_item, order_items, select_items,
}

-- The cursor that `next_cursor_for_items` makes of an item.
abbrev pub cursor_of : SampleItem → SampleItemCursor
cursor_of i = record { registered_at = i.registered_at; id = i.id }

-- Each item is at least as new as all behind it.
abbrev IsNewestFirst : List SampleItem → Type 0
IsNewestFirst [] = Unit
IsNewestFirst (a ∷ items) = All (λ b. is_newer a b ≡ true) items × IsNewestFirst items

All-newer :
    (a b : SampleItem) (items : List SampleItem)
    → is_newer a b ≡ true
    → All (λ c. is_newer b c ≡ true) items
    → All (λ c. is_newer a c ≡ true) items
All-newer a b [] e h = tt
All-newer a b (c ∷ items) e h = (ground (arith, h.0), All-newer a b items e h.1)

All-insert_item :
    (a b : SampleItem) (items : List SampleItem)
    → is_newer a b ≡ true
    → All (λ c. is_newer a c ≡ true) items
    → All (λ c. is_newer a c ≡ true) (insert_item b items)
unfolding insert_item
All-insert_item a b [] e h = (e, tt)
All-insert_item a b (c ∷ items) e h = elim (Bool-cases (is_newer b c)) [
  | inl newer ↦ rw newer (e, h)
  | inr older ↦ rw older (h.0, All-insert_item a b items e h.1)
]

insert_item-IsNewestFirst :
    (a : SampleItem) (items : List SampleItem)
    → IsNewestFirst items
    → IsNewestFirst (insert_item a items)
unfolding insert_item
insert_item-IsNewestFirst a [] h = (tt, tt)
insert_item-IsNewestFirst a (b ∷ items) h = elim (Bool-cases (is_newer a b)) [
  | inl newer ↦ rw newer ((newer, All-newer a b items newer h.0), h)
  | inr older ↦
      rw older (All-insert_item b a items (ground arith) h.0, insert_item-IsNewestFirst a items h.1)
]

order_items-IsNewestFirst : (items : List SampleItem) → IsNewestFirst (order_items items)
unfolding order_items
order_items-IsNewestFirst [] = tt
order_items-IsNewestFirst (a ∷ items) =
    insert_item-IsNewestFirst a (order_items items) (order_items-IsNewestFirst items)

-- An item that is newer than all of a list goes in front.
insert_item-front :
    (a : SampleItem) (items : List SampleItem)
    → All (λ b. is_newer a b ≡ true) items
    → insert_item a items ≡ a ∷ items
unfolding insert_item
insert_item-front a [] h = refl
insert_item-front a (b ∷ items) h = rw (h.0) refl

All-keep :
    (p : SampleItem → Bool) (a : SampleItem) (items : List SampleItem)
    → All (λ b. is_newer a b ≡ true) items
    → All (λ b. is_newer a b ≡ true) (keep p items)
unfolding keep
All-keep p a [] h = tt
All-keep p a (b ∷ items) h = elim (Bool-cases (p b)) [
  | inl kept ↦ rw kept (h.0, All-keep p a items h.1)
  | inr dropped ↦ rw dropped (All-keep p a items h.1)
]

keep-insert_item :
    (p : SampleItem → Bool) (a : SampleItem) (items : List SampleItem)
    → IsNewestFirst items
    → keep p (insert_item a items) ≡ (if p a then insert_item a (keep p items) else keep p items)
unfolding insert_item keep
keep-insert_item p a [] h = ground arith
keep-insert_item p a (b ∷ items) h = elim (Bool-cases (is_newer a b)) [
  | inl newer ↦
      let front =
        insert_item-front a (keep p (b ∷ items))
          (All-keep p a (b ∷ items) (newer, All-newer a b items newer h.0)) in
      rw newer (ground (arith, front))
  | inr older ↦ rw older (ground (arith, keep-insert_item p a items h.1, older))
]

keep-order_items :
    (p : SampleItem → Bool) (items : List SampleItem)
    → keep p (order_items items) ≡ order_items (keep p items)
unfolding order_items keep
keep-order_items p [] = refl
keep-order_items p (a ∷ items) = ground (
  arith,
  keep-insert_item p a (order_items items) (order_items-IsNewestFirst items),
  keep-order_items p items,
)

keep-and :
    (p q : SampleItem → Bool) (items : List SampleItem)
    → keep (λ i. p i && q i) items ≡ keep q (keep p items)
unfolding keep
keep-and p q [] = refl
keep-and p q (a ∷ items) = ground (arith, keep-and p q items)

All-middle :
    (P : SampleItem → Type 0) (xs : List SampleItem) (x : SampleItem) (ys : List SampleItem)
    → All P (xs ++ x ∷ ys)
    → P x
All-middle P [] x ys h = h.0
All-middle P (b ∷ xs) x ys h = All-middle P xs x ys h.1

-- What stands behind an item is after its cursor, ...
keep-behind :
    (x : SampleItem) (ys : List SampleItem)
    → All (λ y. is_newer x y ≡ true) ys
    → any (λ (i : SampleItem). i.id == x.id) ys ≡ false
    → keep (is_after (cursor_of x)) ys ≡ ys
unfolding keep any
keep-behind x [] h u = refl
keep-behind x (y ∷ ys) h u = ground (arith, keep-behind x ys h.1, h.0)

-- ... and what stands before it is not.
keep-rest :
    (x : SampleItem) (xs ys : List SampleItem)
    → IsNewestFirst (xs ++ x ∷ ys)
    → any (λ (i : SampleItem). i.id == x.id) ys ≡ false
    → keep (is_after (cursor_of x)) (xs ++ x ∷ ys) ≡ ys
unfolding keep
keep-rest x [] ys h u = ground (arith, keep-behind x ys h.0 u)
keep-rest x (b ∷ xs) ys h u =
    ground (arith, keep-rest x xs ys h.1 u, All-middle (λ c. is_newer b c ≡ true) xs x ys h.0)

-- If an item stands among those of an owner, newest first, and no item behind it has its
-- identifier, then the page from the cursor of that item is the items right behind it, none of
-- them skipped and none repeated.
pub select_items-follows :
    (owner_user_id fetch_limit : ℕ) (x : SampleItem) (xs ys items : List SampleItem)
    → order_items (keep (λ (i : SampleItem). i.owner_user_id == owner_user_id) items) ≡ xs ++ x ∷ ys
    → any (λ (i : SampleItem). i.id == x.id) ys ≡ false
    → select_items owner_user_id fetch_limit (some (cursor_of x)) items ≡ take fetch_limit ys
unfolding select_items
select_items-follows owner n x xs ys items e u =
    let owned = keep (λ (i : SampleItem). i.owner_user_id == owner) items in
    let after = is_after (cursor_of x) in
    ap (take n) (
      ap order_items (keep-and (λ (i : SampleItem). i.owner_user_id == owner) after items)
      ∙ sym (keep-order_items after owned)
      ∙ ap (keep after) e
      ∙ keep-rest x xs ys (subst IsNewestFirst e (order_items-IsNewestFirst owned)) u)
