-- ===== src/SampleItems/Listing.antt =====
-- The pages of `list_items`.
use python_react_template.Prelude.{
  ℕ, zero, suc, ◌+◌, ◌≡◌, refl, ap, arith, String, false, Option, none, some, List, [], ◌∷◌, ◌++◌,
  ◌==◌, any, keep, leb, length, take, if◌then◌else◌,
}
use python_react_template.Store.Rows.{SampleItem}
use python_react_template.Store.Exec.{World, ok}
use python_react_template.Store.SampleItemRepository.{
  SampleItemCursor, list_by_owner, select_items, order_items,
}
use python_react_template.Store.SampleItemRepository.Pages.{cursor_of, select_items-follows}
use python_react_template.Auth.Settings.{truthy}
use python_react_template.SampleItems.{
  CursorCodec, encoded, item_at, item_before, next_cursor_for_items, read_cursor, list_items,
}

take-take : (n : ℕ) (items : List SampleItem) → take n (take (suc n) items) ≡ take n items
take-take zero items = refl
take-take (suc n) [] = refl
take-take (suc n) (i ∷ items) = ap (λ r. i ∷ r) (take-take n items)

-- One row more than the page tells whether there are more rows than the page.
length-take :
    (n : ℕ) (items : List SampleItem) → leb (length (take (suc n) items)) n ≡ leb (length items) n
length-take zero [] = refl
length-take zero (i ∷ items) = ground arith
length-take (suc n) [] = refl
length-take (suc n) (i ∷ items) = ground (arith, length-take n items)

item_at-take :
    (n : ℕ) (items : List SampleItem) → item_at n (take (suc (suc n)) items) ≡ item_at n items
unfolding item_at
item_at-take n [] = refl
item_at-take zero (i ∷ items) = refl
item_at-take (suc n) (i ∷ items) = item_at-take n items

module _ (codec : CursorCodec) where
  -- The next page of the rows that were fetched is that of all rows.
  next_cursor-take :
      (k : ℕ) (items : List SampleItem)
      → next_cursor_for_items codec (take (suc (suc k)) items) (suc k)
        ≡ next_cursor_for_items codec items (suc k)
  unfolding next_cursor_for_items item_before
  next_cursor-take k items = rw (length-take (suc k) items, item_at-take k items) refl

  module _ {L : Type 0} where
    list_items-select :
        (owner k : ℕ) (c : Option String) (d : Option SampleItemCursor) (ys : List SampleItem)
        (w : World L)
        → read_cursor codec (truthy c) w ≡ (ok d, w)
        → select_items owner (suc (suc k)) d w.db.items ≡ take (suc (suc k)) ys
        → (list_items codec owner (suc k) c w).0
          ≡ ok (record {
            items = take (suc k) ys;
            next_cursor = next_cursor_for_items codec ys (suc k);
          })
    unfolding list_items list_by_owner
    list_items-select owner k c d ys w read rows =
        let more : suc k + 1 ≡ suc (suc k) = omega arith in
        rw (read, more, rows, take-take (suc k) ys, next_cursor-take k ys) refl

    -- If an item stands among those of its owner, newest first, and no item behind it has its
    -- identifier, then the page from the text of its cursor, when that text is not empty and
    -- reads as the cursor, is the items right behind it, up to a limit that is not 0, and has the
    -- cursor of its last item if there are more items.
    pub list_items-page :
        (owner_user_id k : ℕ) (cursor : String) (x : SampleItem) (xs ys : List SampleItem)
        (w : World L)
        → order_items (keep (λ (i : SampleItem). i.owner_user_id == owner_user_id) w.db.items)
          ≡ xs ++ x ∷ ys
        → any (λ (i : SampleItem). i.id == x.id) ys ≡ false
        → truthy (some cursor) ≡ some cursor
        → codec.decode_cursor cursor ≡ some (cursor_of x)
        → (list_items codec owner_user_id (suc k) (some cursor) w).0
          ≡ ok (record {
            items = take (suc k) ys;
            next_cursor = if leb (length ys) (suc k) then none else encoded codec (item_at k ys);
          })
    unfolding next_cursor_for_items item_before read_cursor
    list_items-page owner k cursor x xs ys w ordered unique present reads =
        list_items-select owner k (some cursor) (some (cursor_of x)) ys w (rw (present, reads) refl)
          (select_items-follows owner (suc (suc k)) x xs ys w.db.items ordered unique)
