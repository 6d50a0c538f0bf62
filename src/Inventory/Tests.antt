-- ===== src/Inventory/Tests.antt =====
-- Runs of the inventory service on the database of `Fixture`.
use baskety.Inventory.Counted.{in_stock}
use baskety.Inventory.Listed.{entry, list_items-Ordered}
use baskety.Base.{
  not, is_some, ◌&&◌, ◌==◌, false, str_to_ptr, is_empty, ◌⊎◌, List, [], ◌∷◌, map, Bool, some, ◌≡◌,
  refl, ptr_str, none, true,
}
use baskety.Base.Int.{pos, ◌+ℤ◌}
use baskety.Integrity.{WellFormed}
use baskety.World.{ok, err, not_found, inventory, ◌>>=◌, guard, map_err, exec, pure, env}
use baskety.Base.Decimal.{is_positive, stored_numeric, of_numeric}
use baskety.Inventory.Created.{Made}
use baskety.Schema.{BatchRow, ItemRow}
use baskety.Table.{find_by, any_row, select, order_by, insert_sorted, sum_by, nulls_last}
use baskety.Table.Order.{Ordered, count_by}
use baskety.Inventory.Queries.Rows.{active_of, item_is}
use baskety.Inventory.Fefo.{sooner, list_active_batches-Ordered}
use baskety.Inventory.Scope.{Owned}
use baskety.Inventory.Decision.{get_item_decides}
use baskety.Inventory.Deleted.{get_item-delete_item}
use baskety.Inventory.FirstBatch.{create_item-stock}
use baskety.Sql.{inserted}
use baskety.Inventory.Repository
use baskety.Inventory.Queries
use baskety.Inventory.Service
use baskety.Inventory.Dto.{
  CreateItemRequest, BatchRequest, BatchResponse, ItemResponse, to_item_response, respond,
  to_batch_response,
}
use baskety.Inventory.Request.{serve, delete_inventory, create_item}
use baskety.Inventory.Integrity.Requests.{serve-WellFormed}
use baskety.Inventory.Isolation.{Untouched}
use baskety.Inventory.Isolation.Requests.{serve-Untouched}
use baskety.Inventory.Stock.{add_batch-stock}
use baskety.Fixture.{homes, start, homes-WellFormed, cellar-Foreign}

serve-WellFormed_example : WellFormed (serve 1 (delete_inventory 10) start).1.db
serve-WellFormed_example = serve-WellFormed 1 (delete_inventory 10) start homes-WellFormed

abbrev bread : CreateItemRequest
bread = record {
  name = "bread";
  category = "";
  unit = "";
  target_quantity = of_numeric (pos 1000);
  notes = none;
  initial_quantity = of_numeric (pos 500);
  initial_expires_at = none;
}

serve-Untouched_example : Untouched 11 homes (serve 1 (create_item 10 bread) start).1.db
serve-Untouched_example =
    serve-Untouched 1 11 (create_item 10 bread) start homes-WellFormed cellar-Foreign

-- 0.7504, of which 0.75 is stored.
abbrev bottle : BatchRequest
bottle = record {
  quantity = record { digits = pos 7504; places = 4 };
  expires_at = none;
  notes = none;
}

abbrev stored : BatchResponse
stored = record {
  id = start.env.uuid_string 102;
  item_id = start.env.uuid_string 20;
  quantity = pos 750;
  expires_at = none;
  added_at = 1002;
  emptied_at = none;
  notes = none;
  created_at = 1002;
}

add_bottle : (Service.add_batch 20 1 bottle start).0 ≡ ok stored
unfolding Service.add_batch ◌>>=◌ guard Service.assert_item_scope Repository.get_item map_err exec
    Queries.get_inventory_item_by_id find_by any_row pure Repository.to_item
    Service.assert_inventory_scope Repository.get_inventory Queries.get_inventory_by_id
    Repository.add_batch Queries.create_inventory_batch stored_numeric inserted respond
    to_batch_response env ptr_str
add_bottle = refl

add_batch-stock_example :
    (is_positive bottle.quantity ≡ true)
    × (in_stock 20 (Service.add_batch 20 1 bottle start).1.db.batches
        ≡ in_stock 20 homes.batches +ℤ pos 750)
unfolding stored_numeric
add_batch-stock_example = add_batch-stock 20 1 bottle start stored 20 add_bottle

-- The batch that expires on day 9 comes before the one that does not expire.
abbrev on_shelf : List BatchResponse
on_shelf =
    record stored {
      id = start.env.uuid_string 32;
      quantity = pos 250;
      expires_at = some 9;
      added_at = 1;
      created_at = 1;
    }
    ∷ record stored {
      id = start.env.uuid_string 30;
      quantity = pos 500;
      added_at = 1;
      created_at = 1;
    }
    ∷ []

list_batches : (Service.list_active_batches 20 1 start).0 ≡ ok on_shelf
unfolding Service.list_active_batches ◌>>=◌ guard Service.assert_item_scope Repository.get_item
    map_err exec Queries.get_inventory_item_by_id find_by any_row pure Repository.to_item
    Service.assert_inventory_scope Repository.get_inventory Queries.get_inventory_by_id
    Repository.list_active_batches Queries.list_active_batches_by_item order_by insert_sorted select
    nulls_last respond to_batch_response env ptr_str
list_batches = refl

list_active_batches-Ordered_example :
    (bs : List BatchRow) × (on_shelf ≡ map (to_batch_response start.env.uuid_string) bs)
    × Ordered sooner bs
    × ((p : BatchRow → Bool) → count_by p bs ≡ count_by p (select (active_of 20) homes.batches))
list_active_batches-Ordered_example = list_active_batches-Ordered 20 1 start on_shelf list_batches

abbrev milk : List ItemResponse
milk =
    record {
      id = start.env.uuid_string 20;
      inventory_id = start.env.uuid_string 10;
      name = "milk";
      category = "";
      unit = "l";
      target_quantity = pos 2000;
      notes = none;
      created_at = 1;
      updated_at = 1;
      stored_quantity = pos 750;
      batch_count = 2;
    }
    ∷ []

list_milk : (Service.list_items 10 1 start).0 ≡ ok milk
unfolding Service.list_items ◌>>=◌ guard map_err exec find_by any_row pure Repository.to_item
    Service.assert_inventory_scope Repository.get_inventory Queries.get_inventory_by_id
    Repository.list_items Queries.list_inventory_items Repository.to_item_from_list_row
    Queries.with_stock Queries.stock sum_by ◌+ℤ◌ order_by insert_sorted select respond
    to_item_response env ptr_str
list_milk = refl

list_items-Ordered_example :
    (rows : List ItemRow) × (milk ≡ map (entry start) rows)
    × Ordered (λ a b. start.env.name_le a.name b.name) rows
    × ((p : ItemRow → Bool)
        → count_by p rows
          ≡ count_by p
              (select (λ r. r.inventory_id == 10 && not (is_some r.deleted_at)) homes.items))
list_items-Ordered_example = list_items-Ordered 10 1 start milk (λ a b e. refl) list_milk

get_item_decides_example :
    ((o : Owned 1 homes 21) × ((Service.get_item 21 1 start).0
        ≡ ok (to_item_response start.env.uuid_string (Repository.to_item o.row))))
    ⊎ ((¬ Owned 1 homes 21) × ((Service.get_item 21 1 start).0 ≡ err (not_found inventory)))
get_item_decides_example = get_item_decides 21 1 start (λ k. refl)

delete_milk : (Service.delete_item 20 1 start).0 ≡ ok tt
unfolding Service.delete_item ◌>>=◌ guard Service.assert_item_scope Repository.get_item map_err exec
    Queries.get_inventory_item_by_id find_by pure Repository.to_item Service.assert_inventory_scope
    Repository.get_inventory Queries.get_inventory_by_id Repository.soft_delete_item
    Queries.soft_delete_inventory_item
delete_milk = refl

get_item-delete_item_example :
    (Service.get_item 20 1 (Service.delete_item 20 1 start).1).0 ≡ err (not_found inventory)
get_item-delete_item_example = get_item-delete_item 20 1 1 start (λ k. refl) delete_milk

abbrev loaf : ItemResponse
loaf = record {
  id = start.env.uuid_string 101;
  inventory_id = start.env.uuid_string 10;
  name = "bread";
  category = "";
  unit = "";
  target_quantity = pos 1000;
  notes = none;
  created_at = 1001;
  updated_at = 1001;
  stored_quantity = pos 0;
  batch_count = 0;
}

create_bread : (Service.create_item 10 1 bread start).0 ≡ ok loaf
unfolding Service.create_item Service.require_name ◌>>=◌ guard map_err exec find_by any_row pure
    Repository.to_item Service.assert_inventory_scope Repository.get_inventory
    Queries.get_inventory_by_id Repository.create_item Queries.create_inventory_item
    Repository.add_batch Queries.create_inventory_batch stored_numeric inserted respond
    to_item_response env ptr_str str_to_ptr is_empty
create_bread = refl

create_item-stock_example :
    (row : ItemRow) × (find_by (item_is row.id) (Service.create_item 10 1 bread start).1.db.items
      ≡ some row)
    × (any_row (item_is row.id) homes.items ≡ false)
    × (loaf.id ≡ start.env.uuid_string row.id)
    × Made 10 "bread" bread.target_quantity row
    × (in_stock row.id (Service.create_item 10 1 bread start).1.db.batches ≡ pos 500)
unfolding stored_numeric
create_item-stock_example = create_item-stock 10 1 bread start loaf homes-WellFormed create_bread
