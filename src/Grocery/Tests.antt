-- ===== src/Grocery/Tests.antt =====
-- Runs of the grocery service on the database of `Fixture`.
use baskety.Base.{false, ◌≡◌, refl, none, ptr_str, str_to_ptr, is_empty}
use baskety.Base.Int.{pos, ◌+ℤ◌, ◌-ℤ◌}
use baskety.Schema.{ListRow}
use baskety.Table.{find_by, any_row, select, order_by, insert_sorted, sum_by}
use baskety.World.{err, not_found, grocery, ok, exec, ◌>>=◌, guard, map_err, pure, env, host_clock}
use baskety.Sql.{inserted}
use baskety.Integrity.{WellFormed}
use baskety.Inventory.Queries as InventoryQueries
use baskety.Inventory.Repository as InventoryRepository
use baskety.Inventory.Dto as InventoryDto
use baskety.Inventory.Dto.{respond}
use baskety.Inventory.Service as InventoryService
use baskety.Inventory.Effective.{shelf}
use baskety.Grocery.Queries
use baskety.Grocery.Repository
use baskety.Grocery.Dto.{AutoGenerateRequest, ListResponse, to_list_response}
use baskety.Grocery.Service
use baskety.Grocery.Request.{serve, auto_generate, get_list}
use baskety.Grocery.Errors.{of_inventory}
use baskety.Grocery.Errors.Requests.{serve-of_inventory}
use baskety.Grocery.Generate.{lines, shortfalls}
use baskety.Grocery.Generate.Generated.{auto_generate-lines}
use baskety.Grocery.Integrity.Requests.{grocery_serve-WellFormed}
use baskety.Fixture.{homes, start, homes-WellFormed, ids_readable, cellar-Foreign}
use baskety.Grocery.Isolation.{Spared}
use baskety.Grocery.Isolation.Requests.{serve-Spared}
use baskety.Grocery.Status.{valid_item_status-item_status}
use baskety.Grocery.Queries.Rows.{item_status}

abbrev weekly : AutoGenerateRequest
weekly = record { expiry_threshold_days = pos 0 }

grocery_serve-WellFormed_example : WellFormed (serve 1 5 (auto_generate 10 weekly) start).1.db
grocery_serve-WellFormed_example =
    grocery_serve-WellFormed 1 5 (auto_generate 10 weekly) start homes-WellFormed

abbrev generated : ListResponse
generated = record {
  id = start.env.uuid_string 103;
  inventory_id = start.env.uuid_string 10;
  name = "Auto-generated 2026-01-02";
  status = "active";
  created_by_user_id = start.env.uuid_string 5;
  completed_at = none;
  pinned_at = none;
  expires_at = none;
  created_at = 1003;
  updated_at = 1003;
}

generate : (Service.auto_generate 10 1 5 weekly start).0 ≡ ok generated
unfolding Service.auto_generate Service.assert_inventory_scope Service.generate_lines
    Service.generate_line Service.add_shortfall Repository.create_list Repository.add_item
    Repository.to_item Queries.create_grocery_list Queries.add_grocery_list_item
    InventoryService.get_inventory InventoryService.list_items
    InventoryService.get_effective_quantity InventoryService.assert_inventory_scope
    InventoryService.assert_item_scope InventoryRepository.get_inventory
    InventoryRepository.get_item InventoryRepository.list_items
    InventoryRepository.get_item_quantity InventoryRepository.to_item
    InventoryRepository.to_item_from_list_row InventoryQueries.get_inventory_by_id
    InventoryQueries.get_inventory_item_by_id InventoryQueries.list_inventory_items
    InventoryQueries.get_inventory_item_quantity InventoryQueries.stock InventoryQueries.with_stock
    InventoryDto.to_item_response InventoryDto.to_inventory_response to_list_response respond
    find_by any_row select order_by insert_sorted sum_by inserted exec ◌>>=◌ guard map_err pure env
    host_clock ptr_str str_to_ptr is_empty ◌+ℤ◌ ◌-ℤ◌
generate = refl

auto_generate-lines_example :
    (list : ListRow) × (generated ≡ to_list_response start.env.uuid_string list)
    × (list.inventory_id ≡ 10)
    × (list.status ≡ "active")
    × (lines list.id (Service.auto_generate 10 1 5 weekly start).1.db
        ≡ shortfalls homes.batches (shelf start 10) (pos 0))
auto_generate-lines_example =
    auto_generate-lines 10 1 5 weekly start generated homes-WellFormed ids_readable generate

serve-Spared_example : Spared 11 homes (serve 1 5 (auto_generate 10 weekly) start).1.db
serve-Spared_example =
    serve-Spared 1 11 5 (auto_generate 10 weekly) start homes-WellFormed cellar-Foreign

valid_item_status-item_status_example : Service.valid_item_status "eaten" ≡ item_status "eaten"
valid_item_status-item_status_example = valid_item_status-item_status "eaten"

-- The list of the other household.
foreign_list : (serve 1 5 (get_list 41) start).0 ≡ err (not_found grocery)
unfolding serve Service.get_list Service.assert_list_scope Service.assert_inventory_scope
    Repository.get_list Queries.get_grocery_list_by_id InventoryService.get_inventory
    InventoryService.assert_inventory_scope InventoryRepository.get_inventory
    InventoryQueries.get_inventory_by_id find_by exec ◌>>=◌ guard map_err
foreign_list = refl

serve-of_inventory_example : of_inventory (not_found grocery) ≡ false
serve-of_inventory_example =
    serve-of_inventory 1 5 (get_list 41) start (not_found grocery) foreign_list
