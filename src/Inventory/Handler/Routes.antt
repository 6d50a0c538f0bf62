-- ===== src/Inventory/Handler/Routes.antt =====
-- routes.go and handler.go of baskety/internal/inventory: the routes, each with the request that it
-- stands for.
use baskety.Base.{ℕ, Option, some}
use baskety.World.{World, Env}
use baskety.Http.{HttpRequest}
use baskety.Http.Sent.{sent}
use baskety.Http.Asked.{◌>>=◌, param, decoded_body}
use baskety.Inventory.Dto.{InventoryRequest, CreateItemRequest, UpdateItemRequest, BatchRequest}
use baskety.Inventory.Request
use baskety.Inventory.Handler

pub data Route : Type 0 where
  create_inventory_route : HttpRequest InventoryRequest → Route
  list_inventories_route : HttpRequest (Unit {0}) → Route
  get_inventory_route : HttpRequest (Unit {0}) → Route
  update_inventory_route : HttpRequest InventoryRequest → Route
  delete_inventory_route : HttpRequest (Unit {0}) → Route
  create_item_route : HttpRequest CreateItemRequest → Route
  list_items_route : HttpRequest (Unit {0}) → Route
  get_item_route : HttpRequest (Unit {0}) → Route
  update_item_route : HttpRequest UpdateItemRequest → Route
  delete_item_route : HttpRequest (Unit {0}) → Route
  get_effective_quantity_route : HttpRequest (Unit {0}) → Route
  add_batch_route : HttpRequest BatchRequest → Route
  list_active_batches_route : HttpRequest (Unit {0}) → Route
  mark_batch_emptied_route : HttpRequest (Unit {0}) → Route
  delete_batch_route : HttpRequest (Unit {0}) → Route
  patch_batch_route : HttpRequest BatchRequest → Route

-- The status and the world that a request on a route ends in.
unfoldable pub handle : Route → World → ℕ × World
handle (create_inventory_route r) w = sent (Handler.handle_create_inventory r w)
handle (list_inventories_route r) w = sent (Handler.handle_list_inventories r w)
handle (get_inventory_route r) w = sent (Handler.handle_get_inventory r w)
handle (update_inventory_route r) w = sent (Handler.handle_update_inventory r w)
handle (delete_inventory_route r) w = sent (Handler.handle_delete_inventory r w)
handle (create_item_route r) w = sent (Handler.handle_create_item r w)
handle (list_items_route r) w = sent (Handler.handle_list_items r w)
handle (get_item_route r) w = sent (Handler.handle_get_item r w)
handle (update_item_route r) w = sent (Handler.handle_update_item r w)
handle (delete_item_route r) w = sent (Handler.handle_delete_item r w)
handle (get_effective_quantity_route r) w = sent (Handler.handle_get_effective_quantity r w)
handle (add_batch_route r) w = sent (Handler.handle_add_batch r w)
handle (list_active_batches_route r) w = sent (Handler.handle_list_active_batches r w)
handle (mark_batch_emptied_route r) w = sent (Handler.handle_mark_batch_emptied r w)
handle (delete_batch_route r) w = sent (Handler.handle_delete_batch r w)
handle (patch_batch_route r) w = sent (Handler.handle_patch_batch r w)

-- The status of a reply to a request that succeeds.
abbrev pub success : Route → ℕ
success (create_inventory_route r) = 201
success (list_inventories_route r) = 200
success (get_inventory_route r) = 200
success (update_inventory_route r) = 200
success (delete_inventory_route r) = 204
success (create_item_route r) = 201
success (list_items_route r) = 200
success (get_item_route r) = 200
success (update_item_route r) = 200
success (delete_item_route r) = 204
success (get_effective_quantity_route r) = 200
success (add_batch_route r) = 201
success (list_active_batches_route r) = 200
success (mark_batch_emptied_route r) = 200
success (delete_batch_route r) = 204
success (patch_batch_route r) = 200

-- Who asks for what: nothing where the context, the path or the body do not say it.
unfoldable pub asked : Env → Route → Option (ℕ × Request.Request)
asked e (create_inventory_route r) = do
  hid ← r.household
  req ← decoded_body r
  some (hid, Request.create_inventory req)
asked e (list_inventories_route r) = do hid ← r.household; some (hid, Request.list_inventories)
asked e (get_inventory_route r) = do
  hid ← r.household
  id ← param e r "inventoryID"
  some (hid, Request.get_inventory id)
asked e (update_inventory_route r) = do
  hid ← r.household
  id ← param e r "inventoryID"
  req ← decoded_body r
  some (hid, Request.update_inventory id req)
asked e (delete_inventory_route r) = do
  hid ← r.household
  id ← param e r "inventoryID"
  some (hid, Request.delete_inventory id)
asked e (create_item_route r) = do
  hid ← r.household
  id ← param e r "inventoryID"
  req ← decoded_body r
  some (hid, Request.create_item id req)
asked e (list_items_route r) = do
  hid ← r.household
  id ← param e r "inventoryID"
  some (hid, Request.list_items id)
asked e (get_item_route r) = do
  hid ← r.household
  id ← param e r "itemID"
  some (hid, Request.get_item id)
asked e (update_item_route r) = do
  hid ← r.household
  id ← param e r "itemID"
  req ← decoded_body r
  some (hid, Request.update_item id req)
asked e (delete_item_route r) = do
  hid ← r.household
  id ← param e r "itemID"
  some (hid, Request.delete_item id)
asked e (get_effective_quantity_route r) = do
  hid ← r.household
  id ← param e r "itemID"
  some (hid, Request.get_effective_quantity id)
asked e (add_batch_route r) = do
  hid ← r.household
  id ← param e r "itemID"
  req ← decoded_body r
  some (hid, Request.add_batch id req)
asked e (list_active_batches_route r) = do
  hid ← r.household
  id ← param e r "itemID"
  some (hid, Request.list_active_batches id)
asked e (mark_batch_emptied_route r) = do
  hid ← r.household
  id ← param e r "batchID"
  some (hid, Request.mark_batch_emptied id)
asked e (delete_batch_route r) = do
  hid ← r.household
  id ← param e r "batchID"
  some (hid, Request.delete_batch id)
asked e (patch_batch_route r) = do
  hid ← r.household
  item_id ← param e r "itemID"
  id ← param e r "batchID"
  req ← decoded_body r
  some (hid, Request.patch_batch id item_id req)
