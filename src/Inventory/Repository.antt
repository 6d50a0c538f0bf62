-- ===== src/Inventory/Repository.antt =====
-- repository_pg.go of baskety/internal/inventory: the queries, with `pgx.ErrNoRows` turned into the
-- package's `ErrNotFound`. `Inventory` and `InventoryBatch` have the fields of their rows.
use baskety.Base.{ℕ, String, Option, List, map, ptr_str, str_to_ptr}
use baskety.Base.Int.{ℤ, pos}
use baskety.Base.Decimal.{Decimal}
use baskety.Schema.{InventoryRow, ItemRow, BatchRow}
use baskety.World.{Error, no_rows, not_found, inventory, M, exec, map_err, pure, ◌>>=◌}
use baskety.Inventory.Queries
use baskety.Inventory.Queries.{ListItemsRow}

abbrev pub Inventory : Type 0
Inventory = InventoryRow

abbrev pub InventoryBatch : Type 0
InventoryBatch = BatchRow

pub record InventoryItem : Type 0 where
  pub id : ℕ
  pub inventory_id : ℕ
  pub name : String
  pub category : String
  pub unit : String
  pub target_quantity : ℤ
  pub notes : Option String
  pub deleted_at : Option ℕ
  pub created_at : ℕ
  pub updated_at : ℕ
  pub stored_quantity : ℤ
  pub batch_count : ℕ

-- `if errors.Is(err, pgx.ErrNoRows) { return ErrNotFound }; return err`
abbrev pub or_not_found : Error → Error
or_not_found no_rows = not_found inventory
or_not_found e = e

unfoldable pub to_item : ItemRow → InventoryItem
to_item r = record {
  id = r.id;
  inventory_id = r.inventory_id;
  name = r.name;
  category = ptr_str r.category;
  unit = ptr_str r.unit;
  target_quantity = r.target_quantity;
  notes = r.notes;
  deleted_at = r.deleted_at;
  created_at = r.created_at;
  updated_at = r.updated_at;
  stored_quantity = pos 0;
  batch_count = 0;
}

unfoldable pub to_item_from_list_row : ListItemsRow → InventoryItem
unfolding to_item
to_item_from_list_row r = record (to_item r.item) {
  stored_quantity = r.stored_quantity;
  batch_count = r.batch_count;
}

unfoldable pub create_inventory : ℕ → String → Option String → M Inventory
create_inventory household_id name description =
    exec (Queries.create_inventory household_id name description)

unfoldable pub get_inventory : ℕ → M Inventory
get_inventory id = map_err or_not_found (exec (Queries.get_inventory_by_id id))

unfoldable pub list_inventories : ℕ → M (List Inventory)
list_inventories household_id = exec (Queries.list_inventories_by_household household_id)

unfoldable pub update_inventory : ℕ → String → Option String → M Inventory
update_inventory id name description =
    map_err or_not_found (exec (Queries.update_inventory id name description))

unfoldable pub delete_inventory : ℕ → M (Unit {0})
delete_inventory id = exec (Queries.delete_inventory id)

unfoldable pub create_item :
    ℕ → String → String → String → Decimal → Option String → M InventoryItem
create_item inventory_id name category unit target_quantity notes = do
  row ← exec (
      Queries.create_inventory_item inventory_id name (str_to_ptr category) (str_to_ptr unit)
        target_quantity notes)
  pure (to_item row)

unfoldable pub get_item : ℕ → M InventoryItem
get_item id = do
  row ← map_err or_not_found (exec (Queries.get_inventory_item_by_id id))
  pure (to_item row)

unfoldable pub list_items : ℕ → M (List InventoryItem)
list_items inventory_id = do
  rows ← exec (Queries.list_inventory_items inventory_id)
  pure (map to_item_from_list_row rows)

unfoldable pub update_item :
    ℕ → String → String → String → Decimal → Option String → M InventoryItem
update_item id name category unit target_quantity notes = do
  row ← map_err or_not_found (
      exec (
        Queries.update_inventory_item id name (str_to_ptr category) (str_to_ptr unit)
          target_quantity notes))
  pure (to_item row)

unfoldable pub soft_delete_item : ℕ → M (Unit {0})
soft_delete_item id = exec (Queries.soft_delete_inventory_item id)

unfoldable pub get_item_quantity : ℕ → M ℤ
get_item_quantity item_id = exec (Queries.get_inventory_item_quantity item_id)

unfoldable pub add_batch : ℕ → Decimal → Option ℕ → Option String → M InventoryBatch
add_batch item_id quantity expires_at notes =
    exec (Queries.create_inventory_batch item_id quantity expires_at notes)

unfoldable pub get_batch : ℕ → M InventoryBatch
get_batch id = map_err or_not_found (exec (Queries.get_inventory_batch_by_id id))

unfoldable pub list_active_batches : ℕ → M (List InventoryBatch)
list_active_batches item_id = exec (Queries.list_active_batches_by_item item_id)

unfoldable pub mark_batch_emptied : ℕ → M (Unit {0})
mark_batch_emptied id = exec (Queries.mark_batch_emptied id)

unfoldable pub delete_batch : ℕ → M (Unit {0})
delete_batch id = exec (Queries.delete_inventory_batch id)

unfoldable pub patch_batch : ℕ → ℕ → Decimal → Option ℕ → Option String → M InventoryBatch
patch_batch id item_id quantity expires_at notes =
    map_err or_not_found (exec (Queries.patch_batch id item_id quantity expires_at notes))
