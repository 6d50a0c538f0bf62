-- ===== src/Inventory/Handler/Served.antt =====
-- What the handlers of baskety/internal/inventory/handler.go do with a request of the service.
use mathlib.Core.Path.{subst}
use baskety.Base.{ℕ, ◌≡◌, refl, some, none}
use baskety.World.{World, M, inventory}
use baskety.Http.Sent.{outcome}
use baskety.Http.Steps.{Answers, IsRefusal, household_step, param_step, json_step, call_step}
use baskety.Inventory.Request.{Request, serve}
use baskety.Inventory.Handler
use baskety.Inventory.Handler.Routes.{
  Route, handle, asked, success, create_inventory_route, list_inventories_route,
  get_inventory_route, update_inventory_route, delete_inventory_route, create_item_route,
  list_items_route, get_item_route, update_item_route, delete_item_route,
  get_effective_quantity_route, add_batch_route, list_active_batches_route,
  mark_batch_emptied_route, delete_batch_route, patch_batch_route,
}

abbrev pub served : ℕ × Request → M (Unit {0})
served (h, req) = serve h req

ruleset steps = (household_step, param_step, json_step, call_step, refl)

handle-Answers :
    (route : Route) (w : World)
    → Answers inventory (success route) served w (asked w.env route) (handle route w)
unfolding handle asked serve Handler.handle_create_inventory Handler.handle_list_inventories
    Handler.handle_get_inventory Handler.handle_update_inventory Handler.handle_delete_inventory
    Handler.handle_create_item Handler.handle_list_items Handler.handle_get_item
    Handler.handle_update_item Handler.handle_delete_item Handler.handle_get_effective_quantity
    Handler.handle_add_batch Handler.handle_list_active_batches Handler.handle_mark_batch_emptied
    Handler.handle_delete_batch Handler.handle_patch_batch
handle-Answers (create_inventory_route r) w = search steps depth 9
handle-Answers (list_inventories_route r) w = search steps depth 9
handle-Answers (get_inventory_route r) w = search steps depth 9
handle-Answers (update_inventory_route r) w = search steps depth 9
handle-Answers (delete_inventory_route r) w = search steps depth 9
handle-Answers (create_item_route r) w = search steps depth 9
handle-Answers (list_items_route r) w = search steps depth 9
handle-Answers (get_item_route r) w = search steps depth 9
handle-Answers (update_item_route r) w = search steps depth 9
handle-Answers (delete_item_route r) w = search steps depth 9
handle-Answers (get_effective_quantity_route r) w = search steps depth 9
handle-Answers (add_batch_route r) w = search steps depth 9
handle-Answers (list_active_batches_route r) w = search steps depth 9
handle-Answers (mark_batch_emptied_route r) w = search steps depth 9
handle-Answers (delete_batch_route r) w = search steps depth 9
handle-Answers (patch_batch_route r) w = search steps depth 9

-- Where the context, the path and the body say who asks for what, the handler of the route does to
-- the world what the service does for that request, and its status is that of the route or that of
-- the error, by the sentinels of the package.
pub handle-serve :
    (h : ℕ) (req : Request) (route : Route) (w : World)
    → asked w.env route ≡ some (h, req)
    → handle route w ≡ outcome inventory (success route) (serve h req w)
handle-serve h req route w e =
    subst (λ o. Answers inventory (success route) served w o (handle route w)) e
      (handle-Answers route w)

-- Where they do not, the handler replies with 400, 401 or 403, and the world is as it was.
pub handle_refused :
    (route : Route) (w : World)
    → asked w.env route ≡ none
    → IsRefusal (handle route w).0 × ((handle route w).1 ≡ w)
handle_refused route w e =
    subst (λ o. Answers inventory (success route) served w o (handle route w)) e
      (handle-Answers route w)
