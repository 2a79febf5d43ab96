-- ===== src/Store/SampleItemRepository.antt =====
-- backend/app/services/sample_item_repository.py
pub mod Pages
use python_react_template.Prelude.{
  ℕ, Bool, true, not, ◌&&◌, ◌||◌, Option, none, some, List, [], ◌∷◌, ◌++◌, ◌==◌, ltb, leb, find,
  keep, update_where, take, if◌then◌else◌,
}
use python_react_template.Store.Rows.{SampleItem}
use python_react_template.Store.Exec.{Env, Exec, pure, query, draw, modify, ◌>>=◌, ◌>>◌}

pub record SampleItemCursor : Type 0 where
  pub registered_at : ℕ
  pub id : ℕ

-- `registered_at < cursor.registered_at or (registered_at = cursor.registered_at and id < cursor.id)`
abbrev pub is_after : SampleItemCursor → SampleItem → Bool
is_after c i =
    ltb i.registered_at c.registered_at || (i.registered_at == c.registered_at && ltb i.id c.id)

abbrev pub is_behind : Option SampleItemCursor → SampleItem → Bool
is_behind none i = true
is_behind (some c) i = is_after c i

-- `order by registered_at desc, id desc`
abbrev pub is_newer : SampleItem → SampleItem → Bool
is_newer a b =
    ltb b.registered_at a.registered_at || (a.registered_at == b.registered_at && leb b.id a.id)

unfoldable pub insert_item : SampleItem → List SampleItem → List SampleItem
insert_item a [] = a ∷ []
insert_item a (b ∷ rest) = if is_newer a b then a ∷ b ∷ rest else b ∷ insert_item a rest

unfoldable pub order_items : List SampleItem → List SampleItem
unfolding insert_item
order_items [] = []
order_items (a ∷ rest) = insert_item a (order_items rest)

-- The rows of `list_by_owner`.
unfoldable pub select_items : ℕ → ℕ → Option SampleItemCursor → List SampleItem → List SampleItem
unfolding order_items keep
select_items owner_user_id fetch_limit cursor items = take fetch_limit (
    order_items
      (keep (λ (i : SampleItem). i.owner_user_id == owner_user_id && is_behind cursor i) items))

module _ {L : Type 0} where
  unfoldable pub list_by_owner : ℕ → ℕ → Option SampleItemCursor → Exec L (List SampleItem)
  list_by_owner owner_user_id fetch_limit cursor =
      query λ db. select_items owner_user_id fetch_limit cursor db.items

  unfoldable pub get_by_id_for_owner : ℕ → ℕ → Exec L (Option SampleItem)
  get_by_id_for_owner item_id owner_user_id =
      query λ db.
        find (λ (i : SampleItem). i.id == item_id && i.owner_user_id == owner_user_id) db.items

  unfoldable pub create : SampleItem → Exec L SampleItem
  create item = do modify (λ db. record db { items = db.items ++ item ∷ [] }); pure item

  unfoldable pub delete : SampleItem → Exec L Unit
  delete item =
      modify λ db. record db { items = keep (λ (i : SampleItem). not (i.id == item.id)) db.items }

  unfoldable pub delete_all_for_owner : ℕ → Exec L Unit
  delete_all_for_owner owner_user_id = modify λ db. record db {
    items = keep (λ (i : SampleItem). not (i.owner_user_id == owner_user_id)) db.items;
  }

module _ (env : Env) {L : Type 0} where
  -- The row takes every field of the item.
  unfoldable pub update : SampleItem → Exec L SampleItem
  update item = do
    modified_at ← draw env.utcnow
    let changed : SampleItem = record item { modified_at = modified_at }
    modify (λ db. record db {
      items = update_where (λ (i : SampleItem). i.id == item.id) (λ _. changed) db.items;
    })
    pure changed
