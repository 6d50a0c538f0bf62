-- ===== src/Grocery/Repository.antt =====
-- repository_pg.go of baskety/internal/grocery. `GroceryList` has the fields of its row.
use baskety.Base.{
  ℕ, String, Option, List, map, ptr_str, str_to_ptr, ◌-◌, ◌%◌, ◌^◌, ltb, if◌then◌else◌,
}
use baskety.Base.Int.{ℤ, pos, negsuc}
use baskety.Schema.{ListRow, ListItemRow}
use baskety.World.{Error, no_rows, not_found, grocery, M, exec, map_err, pure, ◌>>=◌}
use baskety.Grocery.Queries

abbrev pub GroceryList : Type 0
GroceryList = ListRow

pub record GroceryListItem : Type 0 where
  pub id : ℕ
  pub grocery_list_id : ℕ
  pub inventory_item_id : Option ℕ
  pub name : String
  pub quantity : ℤ
  pub unit : String
  pub notes : Option String
  pub status : String
  pub sort_order : ℤ
  pub created_at : ℕ
  pub updated_at : ℕ

abbrev pub or_not_found : Error → Error
or_not_found no_rows = not_found grocery
or_not_found e = e

-- `int32(n)`: the low 32 bits, read as a signed number.
unfoldable pub to_int32 : ℤ → ℤ
to_int32 (pos n) = let r = n % 2 ^ 32 in if ltb r (2 ^ 31) then pos r else negsuc (2 ^ 32 - 1 - r)
to_int32 (negsuc n) =
    let r = n % 2 ^ 32 in if ltb r (2 ^ 31) then negsuc r else pos (2 ^ 32 - 1 - r)

unfoldable pub to_item : ListItemRow → GroceryListItem
to_item r = record {
  id = r.id;
  grocery_list_id = r.grocery_list_id;
  inventory_item_id = r.inventory_item_id;
  name = r.name;
  quantity = r.quantity;
  unit = ptr_str r.unit;
  notes = r.notes;
  status = r.status;
  sort_order = r.sort_order;
  created_at = r.created_at;
  updated_at = r.updated_at;
}

unfoldable pub create_list : ℕ → String → ℕ → M GroceryList
create_list inventory_id name created_by =
    exec (Queries.create_grocery_list inventory_id name created_by)

unfoldable pub get_list : ℕ → M GroceryList
get_list id = map_err or_not_found (exec (Queries.get_grocery_list_by_id id))

unfoldable pub list_by_inventory : ℕ → M (List GroceryList)
list_by_inventory inventory_id = exec (Queries.list_grocery_lists_by_inventory inventory_id)

unfoldable pub update_list_status : ℕ → String → Option ℕ → M GroceryList
update_list_status id status completed_at =
    map_err or_not_found (exec (Queries.update_grocery_list_status id status completed_at))

unfoldable pub archive_list : ℕ → M (Unit {0})
archive_list id = exec (Queries.archive_grocery_list id)

unfoldable pub rename_list : ℕ → String → M GroceryList
rename_list id name = map_err or_not_found (exec (Queries.rename_grocery_list id name))

unfoldable pub delete_list : ℕ → M (Unit {0})
delete_list id = exec (Queries.delete_grocery_list id)

unfoldable pub add_item : ℕ → Option ℕ → String → ℤ → String → Option String → ℤ → M GroceryListItem
add_item list_id inventory_item_id name quantity unit notes sort_order = do
  row ← exec (
      Queries.add_grocery_list_item list_id inventory_item_id name quantity (str_to_ptr unit) notes
        (to_int32 sort_order))
  pure (to_item row)

unfoldable pub get_item : ℕ → M GroceryListItem
get_item id = do
  row ← map_err or_not_found (exec (Queries.get_grocery_list_item_by_id id))
  pure (to_item row)

unfoldable pub list_items : ℕ → M (List GroceryListItem)
list_items list_id = do
  rows ← exec (Queries.list_grocery_list_items list_id)
  pure (map to_item rows)

unfoldable pub update_item_status : ℕ → String → M GroceryListItem
update_item_status id status = do
  row ← map_err or_not_found (exec (Queries.update_grocery_list_item_status id status))
  pure (to_item row)

unfoldable pub reorder_item : ℕ → ℤ → M (Unit {0})
reorder_item id sort_order =
    exec (Queries.update_grocery_list_item_sort_order id (to_int32 sort_order))

unfoldable pub delete_item : ℕ → M (Unit {0})
delete_item id = exec (Queries.delete_grocery_list_item id)
