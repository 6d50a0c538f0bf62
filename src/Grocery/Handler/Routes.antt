-- ===== src/Grocery/Handler/Routes.antt =====
-- routes.go and handler.go of baskety/internal/grocery: the routes, each with the request that it
-- stands for.
use baskety.Base.{ℕ, Option, some}
use baskety.World.{World, Env}
use baskety.Http.{HttpRequest}
use baskety.Http.Sent.{sent}
use baskety.Http.Asked.{◌>>=◌, param, decoded_body}
use baskety.Grocery.Dto.{
  ListRequest, AddItemRequest, UpdateItemStatusRequest, ReorderItemRequest, AutoGenerateRequest,
}
use baskety.Grocery.Request
use baskety.Grocery.Handler

pub data Route : Type 0 where
  create_list_route : HttpRequest ListRequest → Route
  list_by_inventory_route : HttpRequest (Unit {0}) → Route
  get_list_route : HttpRequest (Unit {0}) → Route
  complete_list_route : HttpRequest (Unit {0}) → Route
  archive_list_route : HttpRequest (Unit {0}) → Route
  rename_list_route : HttpRequest ListRequest → Route
  delete_list_route : HttpRequest (Unit {0}) → Route
  auto_generate_route : HttpRequest AutoGenerateRequest → Route
  add_item_route : HttpRequest AddItemRequest → Route
  list_items_route : HttpRequest (Unit {0}) → Route
  update_item_status_route : HttpRequest UpdateItemStatusRequest → Route
  reorder_item_route : HttpRequest ReorderItemRequest → Route
  delete_item_route : HttpRequest (Unit {0}) → Route

-- The status and the world that a request on a route ends in.
unfoldable pub handle : Route → World → ℕ × World
handle (create_list_route r) w = sent (Handler.handle_create_list r w)
handle (list_by_inventory_route r) w = sent (Handler.handle_list_by_inventory r w)
handle (get_list_route r) w = sent (Handler.handle_get_list r w)
handle (complete_list_route r) w = sent (Handler.handle_complete_list r w)
handle (archive_list_route r) w = sent (Handler.handle_archive_list r w)
handle (rename_list_route r) w = sent (Handler.handle_rename_list r w)
handle (delete_list_route r) w = sent (Handler.handle_delete_list r w)
handle (auto_generate_route r) w = sent (Handler.handle_auto_generate r w)
handle (add_item_route r) w = sent (Handler.handle_add_item r w)
handle (list_items_route r) w = sent (Handler.handle_list_items r w)
handle (update_item_status_route r) w = sent (Handler.handle_update_item_status r w)
handle (reorder_item_route r) w = sent (Handler.handle_reorder_item r w)
handle (delete_item_route r) w = sent (Handler.handle_delete_item r w)

-- The status of a reply to a request that succeeds.
abbrev pub success : Route → ℕ
success (create_list_route r) = 201
success (list_by_inventory_route r) = 200
success (get_list_route r) = 200
success (complete_list_route r) = 200
success (archive_list_route r) = 200
success (rename_list_route r) = 200
success (delete_list_route r) = 204
success (auto_generate_route r) = 201
success (add_item_route r) = 201
success (list_items_route r) = 200
success (update_item_status_route r) = 200
success (reorder_item_route r) = 200
success (delete_item_route r) = 204

-- Who asks for what: nothing where the context, the path or the body do not say it. Where the user
-- is not asked for, it is 0.
unfoldable pub asked : Env → Route → Option (ℕ × ℕ × Request.Request)
asked e (create_list_route r) = do
  hid ← r.household
  uid ← r.user
  id ← param e r "inventoryID"
  req ← decoded_body r
  some (hid, uid, Request.create_list id req)
asked e (list_by_inventory_route r) = do
  hid ← r.household
  id ← param e r "inventoryID"
  some (hid, 0, Request.list_by_inventory id)
asked e (get_list_route r) = do
  hid ← r.household
  id ← param e r "listID"
  some (hid, 0, Request.get_list id)
asked e (complete_list_route r) = do
  hid ← r.household
  id ← param e r "listID"
  some (hid, 0, Request.complete_list id)
asked e (archive_list_route r) = do
  hid ← r.household
  id ← param e r "listID"
  some (hid, 0, Request.archive_list id)
asked e (rename_list_route r) = do
  hid ← r.household
  id ← param e r "listID"
  req ← decoded_body r
  some (hid, 0, Request.rename_list id req.name)
asked e (delete_list_route r) = do
  hid ← r.household
  id ← param e r "listID"
  some (hid, 0, Request.delete_list id)
asked e (auto_generate_route r) = do
  hid ← r.household
  uid ← r.user
  id ← param e r "inventoryID"
  some (hid, uid, Request.auto_generate id r.body)
asked e (add_item_route r) = do
  hid ← r.household
  id ← param e r "listID"
  req ← decoded_body r
  some (hid, 0, Request.add_item id req)
asked e (list_items_route r) = do
  hid ← r.household
  id ← param e r "listID"
  some (hid, 0, Request.list_items id)
asked e (update_item_status_route r) = do
  hid ← r.household
  list_id ← param e r "listID"
  id ← param e r "itemID"
  req ← decoded_body r
  some (hid, 0, Request.update_item_status id list_id req)
asked e (reorder_item_route r) = do
  hid ← r.household
  list_id ← param e r "listID"
  id ← param e r "itemID"
  req ← decoded_body r
  some (hid, 0, Request.reorder_item id list_id req)
asked e (delete_item_route r) = do
  hid ← r.household
  list_id ← param e r "listID"
  id ← param e r "itemID"
  some (hid, 0, Request.delete_item id list_id)
