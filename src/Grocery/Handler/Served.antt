-- ===== src/Grocery/Handler/Served.antt =====
-- What the handlers of baskety/internal/grocery/handler.go do with a request of the service.
use mathlib.Core.Path.{subst}
use baskety.Base.{ℕ, ◌≡◌, refl, some, none}
use baskety.World.{World, M, grocery}
use baskety.Http.Sent.{outcome}
use baskety.Http.Steps.{
  Answers, IsRefusal, household_step, user_step, param_step, json_step, call_step,
}
use baskety.Grocery.Request.{Request, serve}
use baskety.Grocery.Handler
use baskety.Grocery.Handler.Routes.{
  Route, handle, asked, success, create_list_route, list_by_inventory_route, get_list_route,
  complete_list_route, archive_list_route, rename_list_route, delete_list_route,
  auto_generate_route, add_item_route, list_items_route, update_item_status_route,
  reorder_item_route, delete_item_route,
}

abbrev pub served : ℕ × ℕ × Request → M (Unit {0})
served (h, u, req) = serve h u req

ruleset steps = (household_step, user_step, param_step, json_step, call_step, refl)

handle-Answers :
    (route : Route) (w : World)
    → Answers grocery (success route) served w (asked w.env route) (handle route w)
unfolding handle asked serve Handler.handle_create_list Handler.handle_list_by_inventory
    Handler.handle_get_list Handler.handle_complete_list Handler.handle_archive_list
    Handler.handle_rename_list Handler.handle_delete_list Handler.handle_auto_generate
    Handler.handle_add_item Handler.handle_list_items Handler.handle_update_item_status
    Handler.handle_reorder_item Handler.handle_delete_item
handle-Answers (create_list_route r) w = search steps depth 9
handle-Answers (list_by_inventory_route r) w = search steps depth 9
handle-Answers (get_list_route r) w = search steps depth 9
handle-Answers (complete_list_route r) w = search steps depth 9
handle-Answers (archive_list_route r) w = search steps depth 9
handle-Answers (rename_list_route r) w = search steps depth 9
handle-Answers (delete_list_route r) w = search steps depth 9
handle-Answers (auto_generate_route r) w = search steps depth 9
handle-Answers (add_item_route r) w = search steps depth 9
handle-Answers (list_items_route r) w = search steps depth 9
handle-Answers (update_item_status_route r) w = search steps depth 9
handle-Answers (reorder_item_route r) w = search steps depth 9
handle-Answers (delete_item_route r) w = search steps depth 9

-- Where the context, the path and the body say who asks for what, the handler of the route does to
-- the world what the service does for that request, and its status is that of the route or that of
-- the error, by the sentinels of the package.
pub grocery_handle-serve :
    (h u : ℕ) (req : Request) (route : Route) (w : World)
    → asked w.env route ≡ some (h, u, req)
    → handle route w ≡ outcome grocery (success route) (serve h u req w)
grocery_handle-serve h u req route w e =
    subst (λ o. Answers grocery (success route) served w o (handle route w)) e
      (handle-Answers route w)

-- Where they do not, the handler replies with 400, 401 or 403, and the world is as it was.
pub grocery_handle_refused :
    (route : Route) (w : World)
    → asked w.env route ≡ none
    → IsRefusal (handle route w).0 × ((handle route w).1 ≡ w)
grocery_handle_refused route w e =
    subst (λ o. Answers grocery (success route) served w o (handle route w)) e
      (handle-Answers route w)
