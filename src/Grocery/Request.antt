-- ===== src/Grocery/Request.antt =====
-- The methods of `ServiceIface` in baskety/internal/grocery/service.go, as requests.
use baskety.Base.{ℕ, String}
use baskety.World.{M}
use baskety.Inventory.Request.{void}
use baskety.Grocery.Dto.{
  ListRequest, AddItemRequest, UpdateItemStatusRequest, ReorderItemRequest, AutoGenerateRequest,
}
use baskety.Grocery.Service

-- With the ids of the path and the decoded body; no route leads to `get_item`.
pub data Request : Type 0 where
  create_list : ℕ → ListRequest → Request
  get_list list_by_inventory complete_list archive_list delete_list : ℕ → Request
  rename_list : ℕ → String → Request
  add_item : ℕ → AddItemRequest → Request
  get_item delete_item : ℕ → ℕ → Request
  list_items : ℕ → Request
  update_item_status : ℕ → ℕ → UpdateItemStatusRequest → Request
  reorder_item : ℕ → ℕ → ReorderItemRequest → Request
  auto_generate : ℕ → AutoGenerateRequest → Request

-- Serve a request of the user `u`, whose household is `h`.
unfoldable pub serve : ℕ → ℕ → Request → M (Unit {0})
serve h u (create_list id req) = void (Service.create_list id h u req)
serve h u (get_list id) = void (Service.get_list id h)
serve h u (list_by_inventory id) = void (Service.list_by_inventory id h)
serve h u (complete_list id) = void (Service.complete_list id h)
serve h u (archive_list id) = void (Service.archive_list id h)
serve h u (delete_list id) = void (Service.delete_list id h)
serve h u (rename_list id name) = void (Service.rename_list id h name)
serve h u (add_item id req) = void (Service.add_item id h req)
serve h u (get_item id list_id) = void (Service.get_item id list_id h)
serve h u (delete_item id list_id) = void (Service.delete_item id list_id h)
serve h u (list_items id) = void (Service.list_items id h)
serve h u (update_item_status id list_id req) = void (Service.update_item_status id list_id h req)
serve h u (reorder_item id list_id req) = void (Service.reorder_item id list_id h req)
serve h u (auto_generate id req) = void (Service.auto_generate id h u req)
