-- ===== src/Inventory/Service.antt =====
-- service.go of baskety/internal/inventory. Each method checks that what it is asked for belongs to
-- the household of the caller, then calls the repository. The texts that `fmt.Errorf` puts round an
-- error are left out: `errors.Is` does not see them.
use baskety.Base.{ℕ, String, not, none, is_some, List, map, is_empty, ◌==◌}
use baskety.Base.Int.{ℤ}
use baskety.Base.Decimal.{is_positive, is_nonnegative}
use baskety.World.{
  Error, unique_violation, not_found, invalid_input, inventory, M, map_err, pure, guard, ◌>>=◌,
  ◌>>◌,
}
use baskety.Inventory.Repository
use baskety.Inventory.Repository.{Inventory, InventoryItem, InventoryBatch}
use baskety.Inventory.Dto.{
  InventoryRequest, CreateItemRequest, UpdateItemRequest, BatchRequest, InventoryResponse,
  ItemResponse, BatchResponse, to_inventory_response, to_item_response, to_batch_response, respond,
}

unfoldable pub assert_inventory_scope : ℕ → ℕ → M Inventory
assert_inventory_scope inventory_id household_id = do
  inv ← Repository.get_inventory inventory_id
  guard (inv.household_id == household_id) (not_found inventory)
  pure inv

-- A soft-deleted item is treated as if it did not exist.
unfoldable pub assert_item_scope : ℕ → ℕ → M InventoryItem
assert_item_scope item_id household_id = do
  item ← Repository.get_item item_id
  guard (not (is_some item.deleted_at)) (not_found inventory)
  assert_inventory_scope item.inventory_id household_id
  pure item

unfoldable pub assert_batch_scope : ℕ → ℕ → M InventoryBatch
assert_batch_scope batch_id household_id = do
  batch ← Repository.get_batch batch_id
  assert_item_scope batch.item_id household_id
  pure batch

-- `if req.Name == ""`
unfoldable pub require_name : String → M (Unit {0})
require_name name = guard (not (is_empty name)) (invalid_input inventory)

unfoldable pub create_inventory : ℕ → InventoryRequest → M InventoryResponse
create_inventory household_id req = do
  require_name req.name
  inv ← Repository.create_inventory household_id req.name req.description
  respond to_inventory_response inv

unfoldable pub get_inventory : ℕ → ℕ → M InventoryResponse
get_inventory id household_id = do
  inv ← assert_inventory_scope id household_id
  respond to_inventory_response inv

unfoldable pub list_inventories : ℕ → M (List InventoryResponse)
list_inventories household_id = do
  invs ← Repository.list_inventories household_id
  respond (λ show. map (to_inventory_response show)) invs

unfoldable pub update_inventory : ℕ → ℕ → InventoryRequest → M InventoryResponse
update_inventory id household_id req = do
  require_name req.name
  assert_inventory_scope id household_id
  inv ← Repository.update_inventory id req.name req.description
  respond to_inventory_response inv

unfoldable pub delete_inventory : ℕ → ℕ → M (Unit {0})
delete_inventory id household_id = do
  assert_inventory_scope id household_id
  Repository.delete_inventory id

-- `isUniqueViolation`: a name that is taken is the caller's mistake.
abbrev pub name_taken : Error → Error
name_taken unique_violation = invalid_input inventory
name_taken e = e

-- The item and its first batch are two statements, with no transaction around them.
unfoldable pub create_item : ℕ → ℕ → CreateItemRequest → M ItemResponse
create_item inventory_id household_id req = do
  require_name req.name
  assert_inventory_scope inventory_id household_id
  item ← map_err name_taken (
      Repository.create_item inventory_id req.name req.category req.unit req.target_quantity
        req.notes)
  Repository.add_batch item.id req.initial_quantity req.initial_expires_at none
  respond to_item_response item

unfoldable pub get_item : ℕ → ℕ → M ItemResponse
get_item id household_id = do
  item ← assert_item_scope id household_id
  respond to_item_response item

unfoldable pub list_items : ℕ → ℕ → M (List ItemResponse)
list_items inventory_id household_id = do
  assert_inventory_scope inventory_id household_id
  items ← Repository.list_items inventory_id
  respond (λ show. map (to_item_response show)) items

unfoldable pub update_item : ℕ → ℕ → UpdateItemRequest → M ItemResponse
update_item id household_id req = do
  require_name req.name
  assert_item_scope id household_id
  item ← Repository.update_item id req.name req.category req.unit req.target_quantity req.notes
  respond to_item_response item

unfoldable pub delete_item : ℕ → ℕ → M (Unit {0})
delete_item id household_id = do assert_item_scope id household_id; Repository.soft_delete_item id

unfoldable pub add_batch : ℕ → ℕ → BatchRequest → M BatchResponse
add_batch item_id household_id req = do
  guard (is_positive req.quantity) (invalid_input inventory)
  assert_item_scope item_id household_id
  batch ← Repository.add_batch item_id req.quantity req.expires_at req.notes
  respond to_batch_response batch

unfoldable pub list_active_batches : ℕ → ℕ → M (List BatchResponse)
list_active_batches item_id household_id = do
  assert_item_scope item_id household_id
  batches ← Repository.list_active_batches item_id
  respond (λ show. map (to_batch_response show)) batches

unfoldable pub mark_batch_emptied : ℕ → ℕ → M (Unit {0})
mark_batch_emptied batch_id household_id = do
  assert_batch_scope batch_id household_id
  Repository.mark_batch_emptied batch_id

unfoldable pub delete_batch : ℕ → ℕ → M (Unit {0})
delete_batch batch_id household_id = do
  assert_batch_scope batch_id household_id
  Repository.delete_batch batch_id

unfoldable pub get_effective_quantity : ℕ → ℕ → M ℤ
get_effective_quantity item_id household_id = do
  assert_item_scope item_id household_id
  Repository.get_item_quantity item_id

unfoldable pub patch_batch : ℕ → ℕ → ℕ → BatchRequest → M BatchResponse
patch_batch batch_id item_id household_id req = do
  guard (is_nonnegative req.quantity) (invalid_input inventory)
  assert_item_scope item_id household_id
  batch ← Repository.patch_batch batch_id item_id req.quantity req.expires_at req.notes
  respond to_batch_response batch
