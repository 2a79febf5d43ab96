-- ===== src/SampleItems.antt =====
-- `SampleItemUsecase` of backend/app/usecases/sample_item_usecase.py. The text of a cursor, base64 of
-- JSON, is read and written by two parameters.
pub mod Listing
mod Tests
use python_react_template.Prelude.{
  ℕ, zero, suc, ◌+◌, String, Bool, true, false, Option, none, some, List, [], ◌∷◌, contains, length,
  leb, take, if◌then◌else◌,
}
use python_react_template.Store.Rows.{SampleItem}
use python_react_template.Store.Exec.{
  sample_item_not_found, invalid_sample_item_cursor, value_error, Env, Exec, World, pure, raise,
  draw, transaction, ◌>>=◌, ◌>>◌,
}
use python_react_template.Store.SampleItemRepository as Repository
use python_react_template.Store.SampleItemRepository.{
  SampleItemCursor, list_by_owner, get_by_id_for_owner,
}
use python_react_template.Store.SampleItemRepository.Pages.{cursor_of}
use python_react_template.Auth.Settings.{truthy}

-- sample_item.py
pub record SampleItemListResult : Type 0 where
  pub items : List SampleItem
  pub next_cursor : Option String

pub record SampleItemUpdateChanges : Type 0 where
  pub title : Option String
  pub description : Option String
  pub is_completed : Option Bool
  pub fields_set : List String

unfoldable pub last : List SampleItem → Option SampleItem
last [] = none
last (i ∷ []) = some i
last (i ∷ j ∷ items) = last (j ∷ items)

unfoldable pub item_at : ℕ → List SampleItem → Option SampleItem
item_at n [] = none
item_at zero (i ∷ items) = some i
item_at (suc n) (i ∷ items) = item_at n items

-- `items[limit - 1]`, in Python the last item for the limit 0.
unfoldable pub item_before : ℕ → List SampleItem → Option SampleItem
unfolding last item_at
item_before zero items = last items
item_before (suc n) items = item_at n items

-- The two texts of a cursor; `None` is one that does not parse.
pub record CursorCodec : Type 0 where
  pub encode_cursor : SampleItemCursor → String
  pub decode_cursor : String → Option SampleItemCursor

module _ (codec : CursorCodec) where
  unfoldable pub encoded : Option SampleItem → Option String
  encoded none = none
  encoded (some i) = some (codec.encode_cursor (cursor_of i))

  unfoldable pub next_cursor_for_items : List SampleItem → ℕ → Option String
  unfolding encoded item_before
  next_cursor_for_items items limit =
      if leb (length items) limit then none else encoded (item_before limit items)

  module _ {L : Type 0} where
    unfoldable pub decoded : Option SampleItemCursor → Exec L (Option SampleItemCursor)
    decoded none = raise invalid_sample_item_cursor
    decoded (some c) = pure (some c)

    -- `self.decode_cursor(cursor) if cursor else None`
    unfoldable pub read_cursor : Option String → Exec L (Option SampleItemCursor)
    unfolding decoded
    read_cursor none = pure none
    read_cursor (some cursor) = decoded (codec.decode_cursor cursor)

    unfoldable pub list_items : ℕ → ℕ → Option String → Exec L SampleItemListResult
    unfolding read_cursor truthy next_cursor_for_items list_by_owner
    list_items owner_user_id limit cursor = do
      decoded_cursor ← read_cursor (truthy cursor)
      items ← list_by_owner owner_user_id (limit + 1) decoded_cursor
      pure (record { items = take limit items; next_cursor = next_cursor_for_items items limit })

module _ {L : Type 0} where
  unfoldable pub found_item : Option SampleItem → Exec L SampleItem
  found_item none = raise sample_item_not_found
  found_item (some i) = pure i

  unfoldable pub get_item : ℕ → ℕ → Exec L SampleItem
  unfolding found_item get_by_id_for_owner
  get_item owner_user_id item_id = do found_item (← get_by_id_for_owner item_id owner_user_id)

  unfoldable pub set_title : Option String → SampleItem → Exec L SampleItem
  set_title none item = raise value_error
  set_title (some title) item = pure (record item { title = title })

  unfoldable pub set_is_completed : Option Bool → SampleItem → Exec L SampleItem
  set_is_completed none item = raise value_error
  set_is_completed (some is_completed) item = pure (record item { is_completed = is_completed })

  -- The three tests of `update_item`, in order.
  unfoldable pub apply_changes : SampleItemUpdateChanges → SampleItem → Exec L SampleItem
  unfolding set_title set_is_completed contains
  apply_changes changes item = do
    titled ←
        (if contains "title" changes.fields_set then set_title changes.title item else pure item)
    let described : SampleItem =
        if contains "description" changes.fields_set
        then record titled { description = changes.description }
        else titled
    (if contains "is_completed" changes.fields_set
        then set_is_completed changes.is_completed described
        else pure described)

  unfoldable pub delete_item : ℕ → ℕ → Exec L Unit
  unfolding get_item
  delete_item owner_user_id item_id =
      transaction (do item ← get_item owner_user_id item_id; Repository.delete item)

module _ (env : Env) {L : Type 0} where
  unfoldable pub create_item : ℕ → String → Option String → Exec L SampleItem
  create_item owner_user_id title description = do
    id ← draw env.uuid4
    registered_at ← draw env.utcnow
    modified_at ← draw env.utcnow
    Repository.create (record {
      id = id;
      owner_user_id = owner_user_id;
      title = title;
      description = description;
      is_completed = false;
      registered_at = registered_at;
      modified_at = modified_at;
    })

  -- The body of the transaction.
  unfoldable pub change_item : ℕ → ℕ → SampleItemUpdateChanges → Exec L SampleItem
  unfolding get_item apply_changes
  change_item owner_user_id item_id changes = do
    item ← get_item owner_user_id item_id
    changed ← apply_changes changes item
    Repository.update env changed

  unfoldable pub update_item : ℕ → ℕ → SampleItemUpdateChanges → Exec L SampleItem
  unfolding change_item get_item
  update_item owner_user_id item_id changes = elim changes.fields_set [
    | [] ↦ get_item owner_user_id item_id
    | _ ∷ _ ↦ transaction (change_item owner_user_id item_id changes)
  ]
