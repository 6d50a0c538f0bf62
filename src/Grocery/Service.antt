-- ===== src/Grocery/Service.antt =====
-- service.go of baskety/internal/grocery. The service of the inventory package answers for the
-- scope of an inventory; its errors are turned into those of this package.
use Prim.Native.String.{◌++◌ as str_append}
use text.Mathlib.Text.{◌==◌ as str_eq}
use baskety.Base.{
  ℕ, String, Bool, true, false, not, Option, none, some, List, [], ◌∷◌, map, is_empty, is_blank,
  ◌==◌, if◌then◌else◌,
}
use baskety.Base.Int.{ℤ, pos, leb_ℤ, ◌-ℤ◌, ◌+ℤ◌}
use baskety.World.{
  Error, not_found, invalid_input, forbidden, inventory, grocery, M, env, host_clock, map_err, pure,
  raise, guard, ◌>>=◌, ◌>>◌,
}
use baskety.Inventory.Dto.{respond, ItemResponse as InventoryItemResponse}
use baskety.Inventory.Service as InventoryService
use baskety.Grocery.Repository
use baskety.Grocery.Repository.{GroceryList, GroceryListItem}
use baskety.Grocery.Dto.{
  ListRequest, AddItemRequest, UpdateItemStatusRequest, ReorderItemRequest, AutoGenerateRequest,
  ListResponse, ItemResponse, to_list_response, to_item_response,
}

abbrev pub map_inventory_err : Error → Error
map_inventory_err (not_found inventory) = not_found grocery
map_inventory_err (forbidden inventory) = forbidden grocery
map_inventory_err e = e

unfoldable pub assert_inventory_scope : ℕ → ℕ → M (Unit {0})
assert_inventory_scope inventory_id household_id = do
  map_err map_inventory_err (InventoryService.get_inventory inventory_id household_id)
  pure tt

unfoldable pub assert_list_scope : ℕ → ℕ → M GroceryList
assert_list_scope list_id household_id = do
  list ← Repository.get_list list_id
  assert_inventory_scope list.inventory_id household_id
  pure list

unfoldable pub assert_item_scope : ℕ → ℕ → ℕ → M GroceryListItem
assert_item_scope item_id list_id household_id = do
  item ← Repository.get_item item_id
  guard (item.grocery_list_id == list_id) (not_found grocery)
  assert_list_scope list_id household_id
  pure item

unfoldable pub create_list : ℕ → ℕ → ℕ → ListRequest → M ListResponse
create_list inventory_id household_id user_id req = do
  guard (not (is_empty req.name)) (invalid_input grocery)
  assert_inventory_scope inventory_id household_id
  list ← Repository.create_list inventory_id req.name user_id
  respond to_list_response list

unfoldable pub get_list : ℕ → ℕ → M ListResponse
get_list id household_id = do
  list ← assert_list_scope id household_id
  respond to_list_response list

unfoldable pub list_by_inventory : ℕ → ℕ → M (List ListResponse)
list_by_inventory inventory_id household_id = do
  assert_inventory_scope inventory_id household_id
  lists ← Repository.list_by_inventory inventory_id
  respond (λ show. map (to_list_response show)) lists

unfoldable pub complete_list : ℕ → ℕ → M ListResponse
complete_list id household_id = do
  assert_list_scope id household_id
  now ← host_clock
  list ← Repository.update_list_status id "completed" (some now)
  respond to_list_response list

unfoldable pub archive_list : ℕ → ℕ → M (Unit {0})
archive_list id household_id = do assert_list_scope id household_id; Repository.archive_list id

unfoldable pub rename_list : ℕ → ℕ → String → M ListResponse
rename_list id household_id name = do
  guard (not (is_blank name)) (invalid_input grocery)
  assert_list_scope id household_id
  list ← Repository.rename_list id name
  respond to_list_response list

unfoldable pub delete_list : ℕ → ℕ → M (Unit {0})
delete_list id household_id = do assert_list_scope id household_id; Repository.delete_list id

abbrev pub parsed : Option ℕ → M (Option ℕ)
parsed none = raise (invalid_input grocery)
parsed (some id) = pure (some id)

-- An absent or empty link is none; a link that is no uuid is the caller's mistake.
unfoldable pub parse_link : Option String → M (Option ℕ)
parse_link none = pure none
parse_link (some s) = do e ← env; if is_empty s then pure none else parsed (e.uuid_parse s)

-- A quantity that is not positive becomes 1.
abbrev pub or_one : ℤ → ℤ
or_one q = if leb_ℤ q (pos 0) then pos 1000 else q

unfoldable pub add_item : ℕ → ℕ → AddItemRequest → M ItemResponse
add_item list_id household_id req = do
  guard (not (is_empty req.name)) (invalid_input grocery)
  assert_list_scope list_id household_id
  link ← parse_link req.inventory_item_id
  item ←
      Repository.add_item list_id link req.name (or_one req.quantity) req.unit req.notes
        req.sort_order
  respond to_item_response item

unfoldable pub get_item : ℕ → ℕ → ℕ → M ItemResponse
get_item item_id list_id household_id = do
  item ← assert_item_scope item_id list_id household_id
  respond to_item_response item

unfoldable pub list_items : ℕ → ℕ → M (List ItemResponse)
list_items list_id household_id = do
  assert_list_scope list_id household_id
  items ← Repository.list_items list_id
  respond (λ show. map (to_item_response show)) items

-- `validItemStatus[status]`
unfoldable pub valid_item_status : String → Bool
valid_item_status s =
    if str_eq s "pending" then true else if str_eq s "bought" then true else str_eq s "skipped"

unfoldable pub update_item_status : ℕ → ℕ → ℕ → UpdateItemStatusRequest → M ItemResponse
update_item_status item_id list_id household_id req = do
  guard (valid_item_status req.status) (invalid_input grocery)
  assert_item_scope item_id list_id household_id
  item ← Repository.update_item_status item_id req.status
  respond to_item_response item

unfoldable pub reorder_item : ℕ → ℕ → ℕ → ReorderItemRequest → M (Unit {0})
reorder_item item_id list_id household_id req = do
  assert_item_scope item_id list_id household_id
  Repository.reorder_item item_id req.sort_order

unfoldable pub delete_item : ℕ → ℕ → ℕ → M (Unit {0})
delete_item item_id list_id household_id = do
  assert_item_scope item_id list_id household_id
  Repository.delete_item item_id

-- What is missing of an item becomes a line. `round3` is the identity on whole thousandths.
unfoldable pub add_shortfall : ℕ → InventoryItemResponse → ℕ → ℤ → ℤ → M ℤ
add_shortfall list_id it item_id effective sort_order = do
  Repository.add_item list_id (some item_id) it.name (it.target_quantity -ℤ effective) it.unit none
      sort_order
  pure (sort_order +ℤ pos 1)

-- One round of the loop of `AutoGenerate`; it returns the position of the next line.
unfoldable pub generate_line : ℕ → ℕ → InventoryItemResponse → ℕ → ℤ → M ℤ
generate_line list_id household_id it item_id sort_order = do
  effective ←
      map_err map_inventory_err (InventoryService.get_effective_quantity item_id household_id)
  elim (leb_ℤ it.target_quantity effective) [
    | true ↦ pure sort_order
    | false ↦ add_shortfall list_id it item_id effective sort_order
  ]

unfoldable pub generate_lines : ℕ → ℕ → List InventoryItemResponse → ℤ → M (Unit {0})
generate_lines list_id household_id [] sort_order = pure tt
generate_lines list_id household_id (it ∷ its) sort_order = do
  e ← env
  next ← elim (e.uuid_parse it.id) [
    | none ↦ pure sort_order
    | some item_id ↦ generate_line list_id household_id it item_id sort_order
  ]
  generate_lines list_id household_id its next

-- The threshold of the request is read and not used.
unfoldable pub auto_generate : ℕ → ℕ → ℕ → AutoGenerateRequest → M ListResponse
auto_generate inventory_id household_id user_id req = do
  assert_inventory_scope inventory_id household_id
  items ← map_err map_inventory_err (InventoryService.list_items inventory_id household_id)
  now ← host_clock
  e ← env
  list ← Repository.create_list inventory_id (str_append "Auto-generated " (e.day_text now)) user_id
  generate_lines list.id household_id items (pos 0)
  respond to_list_response list
