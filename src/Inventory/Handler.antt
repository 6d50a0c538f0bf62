-- ===== src/Inventory/Handler.antt =====
-- handler.go of baskety/internal/inventory: each handler takes the household from the context, the
-- ids from the path, the body from JSON, and calls the service.
pub mod Routes
pub mod Served
pub mod Context
use baskety.Base.{String, List}
use baskety.Base.Int.{ℤ}
use baskety.World.{inventory}
use baskety.Http.{
  HttpRequest, data_of, Handler, ◌>>=◌, ◌>>◌, write_json, no_content, household_from_ctx,
  parse_param, decode_body, call,
}
use baskety.Inventory.Dto.{
  InventoryRequest, CreateItemRequest, UpdateItemRequest, BatchRequest, InventoryResponse,
  ItemResponse, BatchResponse,
}
use baskety.Inventory.Service

unfoldable pub handle_create_inventory : HttpRequest InventoryRequest → Handler (InventoryResponse)
handle_create_inventory r = do
  hid ← household_from_ctx r
  req ← decode_body r
  resp ← call inventory (Service.create_inventory hid req)
  write_json 201 (data_of resp)

unfoldable pub handle_list_inventories : HttpRequest (Unit {0}) → Handler (List InventoryResponse)
handle_list_inventories r = do
  hid ← household_from_ctx r
  resp ← call inventory (Service.list_inventories hid)
  write_json 200 (data_of resp)

unfoldable pub handle_get_inventory : HttpRequest (Unit {0}) → Handler (InventoryResponse)
handle_get_inventory r = do
  hid ← household_from_ctx r
  id ← parse_param r "inventoryID" "invalid inventory ID"
  resp ← call inventory (Service.get_inventory id hid)
  write_json 200 (data_of resp)

unfoldable pub handle_update_inventory : HttpRequest InventoryRequest → Handler (InventoryResponse)
handle_update_inventory r = do
  hid ← household_from_ctx r
  id ← parse_param r "inventoryID" "invalid inventory ID"
  req ← decode_body r
  resp ← call inventory (Service.update_inventory id hid req)
  write_json 200 (data_of resp)

unfoldable pub handle_delete_inventory : HttpRequest (Unit {0}) → Handler (Unit {0})
handle_delete_inventory r = do
  hid ← household_from_ctx r
  id ← parse_param r "inventoryID" "invalid inventory ID"
  call inventory (Service.delete_inventory id hid)
  no_content

unfoldable pub handle_create_item : HttpRequest CreateItemRequest → Handler (ItemResponse)
handle_create_item r = do
  hid ← household_from_ctx r
  id ← parse_param r "inventoryID" "invalid inventory ID"
  req ← decode_body r
  resp ← call inventory (Service.create_item id hid req)
  write_json 201 (data_of resp)

unfoldable pub handle_list_items : HttpRequest (Unit {0}) → Handler (List ItemResponse)
handle_list_items r = do
  hid ← household_from_ctx r
  id ← parse_param r "inventoryID" "invalid inventory ID"
  resp ← call inventory (Service.list_items id hid)
  write_json 200 (data_of resp)

unfoldable pub handle_get_item : HttpRequest (Unit {0}) → Handler (ItemResponse)
handle_get_item r = do
  hid ← household_from_ctx r
  id ← parse_param r "itemID" "invalid item ID"
  resp ← call inventory (Service.get_item id hid)
  write_json 200 (data_of resp)

unfoldable pub handle_update_item : HttpRequest UpdateItemRequest → Handler (ItemResponse)
handle_update_item r = do
  hid ← household_from_ctx r
  id ← parse_param r "itemID" "invalid item ID"
  req ← decode_body r
  resp ← call inventory (Service.update_item id hid req)
  write_json 200 (data_of resp)

unfoldable pub handle_delete_item : HttpRequest (Unit {0}) → Handler (Unit {0})
handle_delete_item r = do
  hid ← household_from_ctx r
  id ← parse_param r "itemID" "invalid item ID"
  call inventory (Service.delete_item id hid)
  no_content

unfoldable pub handle_get_effective_quantity : HttpRequest (Unit {0}) → Handler (ℤ)
handle_get_effective_quantity r = do
  hid ← household_from_ctx r
  id ← parse_param r "itemID" "invalid item ID"
  resp ← call inventory (Service.get_effective_quantity id hid)
  write_json 200 (data_of resp)

unfoldable pub handle_add_batch : HttpRequest BatchRequest → Handler (BatchResponse)
handle_add_batch r = do
  hid ← household_from_ctx r
  id ← parse_param r "itemID" "invalid item ID"
  req ← decode_body r
  resp ← call inventory (Service.add_batch id hid req)
  write_json 201 (data_of resp)

unfoldable pub handle_list_active_batches : HttpRequest (Unit {0}) → Handler (List BatchResponse)
handle_list_active_batches r = do
  hid ← household_from_ctx r
  id ← parse_param r "itemID" "invalid item ID"
  resp ← call inventory (Service.list_active_batches id hid)
  write_json 200 (data_of resp)

unfoldable pub handle_mark_batch_emptied : HttpRequest (Unit {0}) → Handler (String)
handle_mark_batch_emptied r = do
  hid ← household_from_ctx r
  id ← parse_param r "batchID" "invalid batch ID"
  call inventory (Service.mark_batch_emptied id hid)
  write_json 200 (data_of "emptied")

unfoldable pub handle_delete_batch : HttpRequest (Unit {0}) → Handler (Unit {0})
handle_delete_batch r = do
  hid ← household_from_ctx r
  id ← parse_param r "batchID" "invalid batch ID"
  call inventory (Service.delete_batch id hid)
  no_content

unfoldable pub handle_patch_batch : HttpRequest BatchRequest → Handler (BatchResponse)
handle_patch_batch r = do
  hid ← household_from_ctx r
  item_id ← parse_param r "itemID" "invalid item ID"
  id ← parse_param r "batchID" "invalid batch ID"
  req ← decode_body r
  resp ← call inventory (Service.patch_batch id item_id hid req)
  write_json 200 (data_of resp)
