-- ===== src/SampleItems/Tests.antt =====
-- Sample items at concrete inputs.
use python_react_template.Prelude.{keep, any, ℕ, false, none, some, [], ◌∷◌, ◌≡◌, refl}
use python_react_template.Store.SampleItemRepository.{order_items}
use python_react_template.Auth.Settings.{truthy}
use python_react_template.Store.Rows.{SampleItem}
use python_react_template.Store.Exec.{World, ok}
use python_react_template.Store.SampleItemRepository.Pages.{cursor_of}
use python_react_template.SampleItems.{CursorCodec, list_items}
use python_react_template.SampleItems.Listing.{list_items-page}

abbrev item : ℕ → ℕ → SampleItem
item id registered_at = record {
  id = id;
  owner_user_id = 1;
  title = "item";
  description = none;
  is_completed = false;
  registered_at = registered_at;
  modified_at = registered_at;
}

-- A codec of one cursor.
abbrev codec : CursorCodec
codec = record { encode_cursor = λ c. "cursor"; decode_cursor = λ t. some (cursor_of (item 5 20)) }

abbrev world : World Unit
world = record {
  db = record {
    users = [];
    sessions = [];
    audit_logs = [];
    identities = [];
    roles = [];
    items = item 6 10 ∷ item 5 20 ∷ [];
    oidc_states = [];
  };
  limiter = tt;
  calls = 0;
  in_transaction = false;
}

list_items-page_example :
    (list_items codec 1 1 (some "cursor") world).0
    ≡ ok (record { items = item 6 10 ∷ []; next_cursor = none })
unfolding order_items keep any truthy
list_items-page_example =
    list_items-page codec 1 0 "cursor" (item 5 20) [] (item 6 10 ∷ []) world refl refl refl refl
