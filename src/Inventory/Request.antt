-- ===== src/Inventory/Request.antt =====
-- The requests of the inventory API (routes.go), each served by its method of the service.
use baskety.Base.{ℕ}
use baskety.World.{M, ◌>>=◌, pure}
use baskety.Inventory.Dto.{InventoryRequest, CreateItemRequest, UpdateItemRequest, BatchRequest}
use baskety.Inventory.Service

-- The routes of routes.go, with the ids of the path and the decoded body.
pub data Request : Type 0 where
  create_inventory : InventoryRequest → Request
  get_inventory delete_inventory list_items : ℕ → Request
  list_inventories : Request
  update_inventory : ℕ → InventoryRequest → Request
  create_item : ℕ → CreateItemRequest → Request
  get_item delete_item list_active_batches get_effective_quantity : ℕ → Request
  update_item : ℕ → UpdateItemRequest → Request
  add_batch : ℕ → BatchRequest → Request
  mark_batch_emptied delete_batch : ℕ → Request
  patch_batch : ℕ → ℕ → BatchRequest → Request

-- The reply is dropped: what is of interest here is what becomes of the world.
abbrev pub void {ℓ} : {A : Type ℓ} → M A → M (Unit {0})
void m = m >>= λ _. pure tt

-- Serve a request of a caller whose household is `household_id`.
unfoldable pub serve : ℕ → Request → M (Unit {0})
serve h (create_inventory req) = void (Service.create_inventory h req)
serve h (get_inventory id) = void (Service.get_inventory id h)
serve h (delete_inventory id) = void (Service.delete_inventory id h)
serve h (list_items id) = void (Service.list_items id h)
serve h list_inventories = void (Service.list_inventories h)
serve h (update_inventory id req) = void (Service.update_inventory id h req)
serve h (create_item id req) = void (Service.create_item id h req)
serve h (get_item id) = void (Service.get_item id h)
serve h (delete_item id) = void (Service.delete_item id h)
serve h (list_active_batches id) = void (Service.list_active_batches id h)
serve h (get_effective_quantity id) = void (Service.get_effective_quantity id h)
serve h (update_item id req) = void (Service.update_item id h req)
serve h (add_batch id req) = void (Service.add_batch id h req)
serve h (mark_batch_emptied id) = void (Service.mark_batch_emptied id h)
serve h (delete_batch id) = void (Service.delete_batch id h)
serve h (patch_batch id item_id req) = void (Service.patch_batch id item_id h req)
