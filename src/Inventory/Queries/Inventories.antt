-- ===== src/Inventory/Queries/Inventories.antt =====
-- baskety/gen/sqlc/inventories.sql.go, with the cascades of baskety/db/migrations.
use baskety.Base.{ℕ, String, Bool, true, not, ◌&&◌, Option, none, List, [], ◌∷◌, ◌++◌, ltb, ◌==◌}
use baskety.Schema.{
  HouseholdRow, InventoryRow, ItemRow, BatchRow, ListRow, ListItemRow, ScanItemRow, Db,
}
use baskety.Table.{find_by, any_row, select, delete_where, update_where, order_by}
use baskety.World.{ok, Moment, Stmt}
use baskety.Sql.{inserted, one, any_link, forget_lists}
use baskety.Inventory.Queries.Rows.{inventory_is, item_in}

unfoldable pub create_inventory : ℕ → String → Option String → Stmt InventoryRow
create_inventory household_id name description m d =
    let row : InventoryRow = record {
      id = m.fresh;
      household_id = household_id;
      name = name;
      description = description;
      created_at = m.now;
      updated_at = m.now;
    } in
    inserted true (any_row (inventory_is m.fresh) d.inventories)
      (any_row (λ (h : HouseholdRow). h.id == household_id) d.households) row d
      (record d { inventories = d.inventories ++ row ∷ [] })

unfoldable pub get_inventory_by_id : ℕ → Stmt InventoryRow
get_inventory_by_id id m d = (one (find_by (inventory_is id) d.inventories), d)

unfoldable pub list_inventories_by_household : ℕ → Stmt (List InventoryRow)
list_inventories_by_household household_id m d = (
  ok (
      order_by (λ a b. not (ltb b.created_at a.created_at))
        (select (λ (r : InventoryRow). r.household_id == household_id) d.inventories)),
  d,
)

abbrev pub renamed : Moment → String → Option String → InventoryRow → InventoryRow
renamed m name description r = record r {
  name = name;
  description = description;
  updated_at = m.now;
}

unfoldable pub update_inventory : ℕ → String → Option String → Stmt InventoryRow
update_inventory id name description m d =
    let rows = update_where (inventory_is id) (renamed m name description) d.inventories in
    (one (find_by (inventory_is id) rows), record d { inventories = rows })

-- The rows that go with an inventory, by ON DELETE CASCADE and ON DELETE SET NULL.
abbrev pub item_goes : ℕ → Db → ℕ → Bool
item_goes id d item_id = any_row (λ (r : ItemRow). r.id == item_id && r.inventory_id == id) d.items

abbrev pub list_goes : ℕ → Db → ℕ → Bool
list_goes id d list_id = any_row (λ (r : ListRow). r.id == list_id && r.inventory_id == id) d.lists

unfoldable pub delete_inventory : ℕ → Stmt (Unit {0})
delete_inventory id m d = (
  ok tt,
  record d {
    inventories = delete_where (inventory_is id) d.inventories;
    items = delete_where (item_in id) d.items;
    batches = delete_where (λ (b : BatchRow). item_goes id d b.item_id) d.batches;
    lists = delete_where (λ (l : ListRow). l.inventory_id == id) d.lists;
    list_items =
        update_where (λ (r : ListItemRow). any_link (item_goes id d) r.inventory_item_id)
          (λ r. record r { inventory_item_id = none })
          (delete_where (λ (r : ListItemRow). list_goes id d r.grocery_list_id) d.list_items);
    scans = forget_lists (list_goes id d) d.scans;
    scan_items =
        update_where (λ (r : ScanItemRow). any_link (item_goes id d) r.inventory_item_id)
          (λ r. record r { inventory_item_id = none }) d.scan_items;
  },
)
