-- ===== src/Api/Tests.antt =====
-- Runs of the HTTP handlers on the database of `Fixture`.
use mathlib.Core.Path.{subst}
use baskety.Schema.{SessionRow}
use baskety.Table.{find_by, any_row}
use baskety.Auth.Queries.{token_is}
use baskety.Auth.Admission.{Live, asked_once}
use baskety.Household.Scope.{Stopped, IsMember}
use baskety.Inventory.Isolation.{Untouched}
use baskety.Api.Gate.{scoped, scoped-decides, scoped-Untouched}
use baskety.Inventory.Handler.Context.{served_for}
use baskety.Base.{sym, ap, cut_prefix, ℕ, ◌≡◌, ◌⊎◌, refl, String, Option, some, none, true}
use baskety.Base.Int.{pos}
use baskety.World.{inventory, grocery}
use baskety.Fixture.{start, homes-WellFormed}
use baskety.Http.{HttpRequest}
use baskety.Http.Sent.{outcome}
use baskety.Http.Steps.{IsRefusal}
use baskety.Inventory.Request as InventoryRequest
use baskety.Grocery.Request as GroceryRequest
use baskety.Inventory.Handler.Routes as InventoryRoutes
use baskety.Grocery.Handler.Routes as GroceryRoutes
use baskety.Inventory.Handler.Served.{handle-serve, handle_refused}
use baskety.Grocery.Handler.Served.{grocery_handle-serve, grocery_handle_refused}

abbrev asking {ℓ} : {B : Type ℓ} → Option ℕ → String → B → HttpRequest B
asking household id body = record {
  url_param = λ name. id;
  household = household;
  user = some 5;
  body = body;
  decoded = true;
}

-- Household 1 asks for its item 20; the uuid text of the fixture has as many letters as the number.
abbrev twenty : String
twenty = "xxxxxxxxxxxxxxxxxxxx"

abbrev ask_item : InventoryRoutes.Route
ask_item = InventoryRoutes.get_item_route (asking (some 1) twenty tt)

abbrev ask_nobody : InventoryRoutes.Route
ask_nobody = InventoryRoutes.get_item_route (asking none twenty tt)

abbrev generate : GroceryRoutes.Route
generate =
    GroceryRoutes.auto_generate_route
      (asking (some 1) "xxxxxxxxxx" (record { expiry_threshold_days = pos 0 }))

handle-serve_example :
    InventoryRoutes.handle ask_item start
    ≡ outcome inventory 200 (InventoryRequest.serve 1 (InventoryRequest.get_item 20) start)
unfolding InventoryRoutes.asked
handle-serve_example = handle-serve 1 (InventoryRequest.get_item 20) ask_item start refl

handle_refused_example :
    IsRefusal (InventoryRoutes.handle ask_nobody start).0
    × ((InventoryRoutes.handle ask_nobody start).1 ≡ start)
unfolding InventoryRoutes.asked
handle_refused_example = handle_refused ask_nobody start refl

grocery_handle_refused_example :
    let route = GroceryRoutes.list_items_route (asking none "" tt) in
    IsRefusal (GroceryRoutes.handle route start).0 × ((GroceryRoutes.handle route start).1 ≡ start)
unfolding GroceryRoutes.asked
grocery_handle_refused_example =
    grocery_handle_refused (GroceryRoutes.list_items_route (asking none "" tt)) start refl

grocery_handle-serve_example :
    GroceryRoutes.handle generate start
    ≡ outcome grocery 201 (
        GroceryRequest.serve 1 5
          (GroceryRequest.auto_generate 10 (record { expiry_threshold_days = pos 0 }))
          start)
unfolding GroceryRoutes.asked
grocery_handle-serve_example =
    grocery_handle-serve 1 5
      (GroceryRequest.auto_generate 10 (record { expiry_threshold_days = pos 0 })) generate start
      refl

abbrev user_of : Option SessionRow → ℕ
user_of none = 0
user_of (some s) = s.user_id

token_of_bob : (token : String) → some "bobs" ≡ some token → token ≡ "bobs"
token_of_bob token e = cc

-- The session of the header is that of the user 6, who is no member of the household 1.
bob : (s : SessionRow) → Live "Bearer bobs" start s → s.user_id ≡ 6
unfolding cut_prefix find_by
bob s live =
    let stored =
      subst (λ t. find_by (token_is t) start.db.sessions ≡ some s)
        (token_of_bob live.token live.held) live.stored in
    sym (ap user_of stored)

stranger : (s : SessionRow) → Live "Bearer bobs" start s → ¬ IsMember (asked_once start) 1 s.user_id
unfolding any_row
stranger s live there =
    absurd (cc (subst (λ u. IsMember (asked_once start) 1 u) (bob s live) there))

scoped-decides_example :
    let next = served_for ask_item in
    Stopped start (scoped "Bearer bobs" "xx" next start)
    ⊎ ((s : SessionRow) × (h : ℕ) × Live "Bearer bobs" start s
        × IsMember (asked_once start) h s.user_id
        × (scoped "Bearer bobs" "xx" next start ≡ next s.user_id h (asked_once (asked_once start))))
scoped-decides_example = scoped-decides "Bearer bobs" "xx" (served_for ask_item) start

-- Whatever the context of the request is, the middleware replaces it.
abbrev delete_milk : InventoryRoutes.Route
delete_milk = InventoryRoutes.delete_item_route (asking none twenty tt)

scoped-Untouched_example :
    Untouched 10 start.db (scoped "Bearer bobs" "" (served_for delete_milk) start).1.db
unfolding find_by
scoped-Untouched_example =
    scoped-Untouched "Bearer bobs" "" delete_milk 10 _ start homes-WellFormed refl stranger
