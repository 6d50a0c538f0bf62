-- ===== src/Inventory/Handler/Context.antt =====
-- The routes of baskety/internal/inventory/routes.go behind the middleware.
use baskety.Base.{ℕ, ◌≡◌, some, arith}
use baskety.World.{Env, World}
use baskety.Http.{HttpRequest, Reply, Handler, empty}
use baskety.Inventory.Request.{Request}
use baskety.Inventory.Handler.Routes.{
  Route, handle, asked, create_inventory_route, list_inventories_route, get_inventory_route,
  update_inventory_route, delete_inventory_route, create_item_route, list_items_route,
  get_item_route, update_item_route, delete_item_route, get_effective_quantity_route,
  add_batch_route, list_active_batches_route, mark_batch_emptied_route, delete_batch_route,
  patch_batch_route,
}

-- The request with what the middleware puts into its context.
abbrev pub in_context {ℓ} : {B : Type ℓ} → ℕ → ℕ → HttpRequest B → HttpRequest B
in_context user_id household_id r = record r { household = some household_id; user = some user_id }

unfoldable pub within : ℕ → ℕ → Route → Route
within u h (create_inventory_route r) = create_inventory_route (in_context u h r)
within u h (list_inventories_route r) = list_inventories_route (in_context u h r)
within u h (get_inventory_route r) = get_inventory_route (in_context u h r)
within u h (update_inventory_route r) = update_inventory_route (in_context u h r)
within u h (delete_inventory_route r) = delete_inventory_route (in_context u h r)
within u h (create_item_route r) = create_item_route (in_context u h r)
within u h (list_items_route r) = list_items_route (in_context u h r)
within u h (get_item_route r) = get_item_route (in_context u h r)
within u h (update_item_route r) = update_item_route (in_context u h r)
within u h (delete_item_route r) = delete_item_route (in_context u h r)
within u h (get_effective_quantity_route r) = get_effective_quantity_route (in_context u h r)
within u h (add_batch_route r) = add_batch_route (in_context u h r)
within u h (list_active_batches_route r) = list_active_batches_route (in_context u h r)
within u h (mark_batch_emptied_route r) = mark_batch_emptied_route (in_context u h r)
within u h (delete_batch_route r) = delete_batch_route (in_context u h r)
within u h (patch_batch_route r) = patch_batch_route (in_context u h r)

abbrev by_status : ℕ × World → Reply (Unit {0}) × World
by_status (status, w) = (record { status = status; body = empty }, w)

-- The handler of a route, run for a user and a household. Of its reply the status is kept.
unfoldable pub served_for : Route → ℕ → ℕ → Handler (Unit {0})
served_for route user_id household_id w = by_status (handle (within user_id household_id route) w)

-- What is asked for is asked for the household of the context.
pub asked-within :
    (e : Env) (u h h' : ℕ) (req : Request) (route : Route)
    → asked e (within u h route) ≡ some (h', req)
    → h ≡ h'
unfolding asked within
asked-within e u h h' req (create_inventory_route r) q = ground (arith, q)
asked-within e u h h' req (list_inventories_route r) q = ground (arith, q)
asked-within e u h h' req (get_inventory_route r) q = ground (arith, q)
asked-within e u h h' req (update_inventory_route r) q = ground (arith, q)
asked-within e u h h' req (delete_inventory_route r) q = ground (arith, q)
asked-within e u h h' req (create_item_route r) q = ground (arith, q)
asked-within e u h h' req (list_items_route r) q = ground (arith, q)
asked-within e u h h' req (get_item_route r) q = ground (arith, q)
asked-within e u h h' req (update_item_route r) q = ground (arith, q)
asked-within e u h h' req (delete_item_route r) q = ground (arith, q)
asked-within e u h h' req (get_effective_quantity_route r) q = ground (arith, q)
asked-within e u h h' req (add_batch_route r) q = ground (arith, q)
asked-within e u h h' req (list_active_batches_route r) q = ground (arith, q)
asked-within e u h h' req (mark_batch_emptied_route r) q = ground (arith, q)
asked-within e u h h' req (delete_batch_route r) q = ground (arith, q)
asked-within e u h h' req (patch_batch_route r) q = ground (arith, q)
