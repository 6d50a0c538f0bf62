-- ===== src/Catalog/Handler.antt =====
-- handler.go of baskety/internal/catalog.
use baskety.Base.{List}
use baskety.World.{catalog}
use baskety.Http.{
  HttpRequest, data_of, Handler, ◌>>=◌, write_json, household_from_ctx, decode_body, call,
}
use baskety.Receipt.Handler.{optional_id}
use baskety.Catalog.Dto.{
  CreateStoreRequest, CreateCatalogEntryRequest, StoreResponse, CatalogEntryResponse,
  TransactionResponse,
}
use baskety.Catalog.Service

unfoldable pub handle_list_stores : HttpRequest (Unit {0}) → Handler (List StoreResponse)
handle_list_stores r = do
  hid ← household_from_ctx r
  resp ← call catalog (Service.list_stores hid)
  write_json 200 (data_of resp)

unfoldable pub handle_create_store : HttpRequest CreateStoreRequest → Handler StoreResponse
handle_create_store r = do
  hid ← household_from_ctx r
  req ← decode_body r
  resp ← call catalog (Service.create_store hid req)
  write_json 201 (data_of resp)

unfoldable pub handle_list_catalog_entries :
    HttpRequest (Unit {0}) → Handler (List CatalogEntryResponse)
handle_list_catalog_entries r = do
  hid ← household_from_ctx r
  resp ← call catalog (Service.list_catalog_entries hid)
  write_json 200 (data_of resp)

unfoldable pub handle_create_catalog_entry :
    HttpRequest CreateCatalogEntryRequest → Handler CatalogEntryResponse
handle_create_catalog_entry r = do
  hid ← household_from_ctx r
  req ← decode_body r
  resp ← call catalog (Service.create_catalog_entry hid req)
  write_json 201 (data_of resp)

-- `url_param "catalog_entry_id"` is the parameter of the query.
unfoldable pub handle_list_transactions :
    HttpRequest (Unit {0}) → Handler (List TransactionResponse)
handle_list_transactions r = do
  hid ← household_from_ctx r
  entry_id ← optional_id (r.url_param "catalog_entry_id") "invalid catalog_entry_id"
  resp ← call catalog (Service.list_transactions hid entry_id)
  write_json 200 (data_of resp)
