-- ===== src/Grocery/Handler.antt =====
-- handler.go of baskety/internal/grocery: each handler takes the household and, where a list is
-- made, the user from the context, the ids from the path, the body from JSON, and calls the service.
pub mod Routes
pub mod Served
use baskety.Base.{String, List}
use baskety.Base.Int.{ℤ}
use baskety.World.{grocery}
use baskety.Http.{
  HttpRequest, data_of, Handler, ◌>>=◌, ◌>>◌, write_json, no_content, household_from_ctx,
  user_from_ctx, parse_param, decode_body, call,
}
use baskety.Grocery.Dto.{
  ListRequest, AddItemRequest, UpdateItemStatusRequest, ReorderItemRequest, AutoGenerateRequest,
  ListResponse, ItemResponse,
}
use baskety.Grocery.Service

unfoldable pub handle_create_list : HttpRequest ListRequest → Handler (ListResponse)
handle_create_list r = do
  hid ← household_from_ctx r
  uid ← user_from_ctx r
  id ← parse_param r "inventoryID" "invalid inventory ID"
  req ← decode_body r
  resp ← call grocery (Service.create_list id hid uid req)
  write_json 201 (data_of resp)

unfoldable pub handle_list_by_inventory : HttpRequest (Unit {0}) → Handler (List ListResponse)
handle_list_by_inventory r = do
  hid ← household_from_ctx r
  id ← parse_param r "inventoryID" "invalid inventory ID"
  resp ← call grocery (Service.list_by_inventory id hid)
  write_json 200 (data_of resp)

unfoldable pub handle_get_list : HttpRequest (Unit {0}) → Handler (ListResponse)
handle_get_list r = do
  hid ← household_from_ctx r
  id ← parse_param r "listID" "invalid list ID"
  resp ← call grocery (Service.get_list id hid)
  write_json 200 (data_of resp)

unfoldable pub handle_complete_list : HttpRequest (Unit {0}) → Handler (ListResponse)
handle_complete_list r = do
  hid ← household_from_ctx r
  id ← parse_param r "listID" "invalid list ID"
  resp ← call grocery (Service.complete_list id hid)
  write_json 200 (data_of resp)

unfoldable pub handle_archive_list : HttpRequest (Unit {0}) → Handler (String)
handle_archive_list r = do
  hid ← household_from_ctx r
  id ← parse_param r "listID" "invalid list ID"
  call grocery (Service.archive_list id hid)
  write_json 200 (data_of "archived")

unfoldable pub handle_rename_list : HttpRequest ListRequest → Handler (ListResponse)
handle_rename_list r = do
  hid ← household_from_ctx r
  id ← parse_param r "listID" "invalid list ID"
  req ← decode_body r
  resp ← call grocery (Service.rename_list id hid req.name)
  write_json 200 (data_of resp)

unfoldable pub handle_delete_list : HttpRequest (Unit {0}) → Handler (Unit {0})
handle_delete_list r = do
  hid ← household_from_ctx r
  id ← parse_param r "listID" "invalid list ID"
  call grocery (Service.delete_list id hid)
  no_content

unfoldable pub handle_auto_generate : HttpRequest AutoGenerateRequest → Handler (ListResponse)
handle_auto_generate r = do
  hid ← household_from_ctx r
  uid ← user_from_ctx r
  id ← parse_param r "inventoryID" "invalid inventory ID"
  resp ← call grocery (Service.auto_generate id hid uid r.body)
  write_json 201 (data_of resp)

unfoldable pub handle_add_item : HttpRequest AddItemRequest → Handler (ItemResponse)
handle_add_item r = do
  hid ← household_from_ctx r
  id ← parse_param r "listID" "invalid list ID"
  req ← decode_body r
  resp ← call grocery (Service.add_item id hid req)
  write_json 201 (data_of resp)

unfoldable pub handle_list_items : HttpRequest (Unit {0}) → Handler (List ItemResponse)
handle_list_items r = do
  hid ← household_from_ctx r
  id ← parse_param r "listID" "invalid list ID"
  resp ← call grocery (Service.list_items id hid)
  write_json 200 (data_of resp)

unfoldable pub handle_update_item_status :
    HttpRequest UpdateItemStatusRequest → Handler (ItemResponse)
handle_update_item_status r = do
  hid ← household_from_ctx r
  list_id ← parse_param r "listID" "invalid list ID"
  id ← parse_param r "itemID" "invalid item ID"
  req ← decode_body r
  resp ← call grocery (Service.update_item_status id list_id hid req)
  write_json 200 (data_of resp)

unfoldable pub handle_reorder_item : HttpRequest ReorderItemRequest → Handler (ℤ)
handle_reorder_item r = do
  hid ← household_from_ctx r
  list_id ← parse_param r "listID" "invalid list ID"
  id ← parse_param r "itemID" "invalid item ID"
  req ← decode_body r
  call grocery (Service.reorder_item id list_id hid req)
  write_json 200 (data_of req.sort_order)

unfoldable pub handle_delete_item : HttpRequest (Unit {0}) → Handler (Unit {0})
handle_delete_item r = do
  hid ← household_from_ctx r
  list_id ← parse_param r "listID" "invalid list ID"
  id ← parse_param r "itemID" "invalid item ID"
  call grocery (Service.delete_item id list_id hid)
  no_content
