-- ===== src/Inventory/Queries/Items.antt =====
-- baskety/gen/sqlc/inventory_items.sql.go, with the unique index of
-- baskety/db/migrations/00010_inventory_constraints.sql.
use text.Mathlib.Text.{◌==◌ as str_eq}
use baskety.Base.{
  ℕ, String, Bool, true, not, ◌&&◌, Option, none, some, List, [], ◌∷◌, ◌++◌, map, ◌==◌,
  if◌then◌else◌, length,
}
use baskety.Base.Int.{ℤ}
use baskety.Base.Decimal.{Decimal, stored_numeric}
use baskety.Schema.{ItemRow, BatchRow}
use baskety.Table.{find_by, any_row, select, update_where, sum_by, order_by}
use baskety.World.{ok, Moment, Stmt}
use baskety.Sql.{updated, fits, inserted, one}
use baskety.Inventory.Queries.Rows.{inventory_is, item_is, item_in, active_of, live}

abbrev pub category_key : Moment → ItemRow → String
category_key m r = elim r.category [ none ↦ "" | some c ↦ m.lower c ]

-- idx_inventory_items_unique_name_category
abbrev pub same_item : Moment → ItemRow → ItemRow → Bool
same_item m a b =
    a.inventory_id == b.inventory_id
    && str_eq (m.lower a.name) (m.lower b.name)
    && str_eq (category_key m a) (category_key m b)

abbrev pub item_clashes : Moment → ItemRow → ItemRow → Bool
item_clashes m row r = not (r.id == row.id) && live r && live row && same_item m r row

unfoldable pub create_inventory_item :
    ℕ → String → Option String → Option String → Decimal → Option String → Stmt ItemRow
create_inventory_item inventory_id name category unit target_quantity notes m d =
    let row : ItemRow = record {
      id = m.fresh;
      inventory_id = inventory_id;
      name = name;
      category = category;
      unit = unit;
      target_quantity = stored_numeric target_quantity;
      notes = notes;
      deleted_at = none;
      created_at = m.now;
      updated_at = m.now;
    } in
    inserted (fits (stored_numeric target_quantity))
      (any_row (λ r. if item_is m.fresh r then true else item_clashes m row r) d.items)
      (any_row (inventory_is inventory_id) d.inventories) row d
      (record d { items = d.items ++ row ∷ [] })

unfoldable pub get_inventory_item_by_id : ℕ → Stmt ItemRow
get_inventory_item_by_id id m d = (one (find_by (item_is id) d.items), d)

-- COALESCE(SUM(quantity), 0) over the active batches of an item.
unfoldable pub stock : ℕ → List BatchRow → ℤ
stock item_id bs = sum_by (λ b. b.quantity) (select (active_of item_id) bs)

unfoldable pub get_inventory_item_quantity : ℕ → Stmt ℤ
get_inventory_item_quantity item_id m d = (ok (stock item_id d.batches), d)

pub record ListItemsRow : Type 0 where
  pub item : ItemRow
  pub stored_quantity : ℤ
  pub batch_count : ℕ

unfoldable pub with_stock : List BatchRow → ItemRow → ListItemsRow
unfolding stock
with_stock bs r = record {
  item = r;
  stored_quantity = stock r.id bs;
  batch_count = length (select (active_of r.id) bs);
}

unfoldable pub list_inventory_items : ℕ → Stmt (List ListItemsRow)
list_inventory_items inventory_id m d = (
  ok (
      map (with_stock d.batches) (
        order_by (λ a b. m.name_le a.name b.name)
          (select (λ r. item_in inventory_id r && live r) d.items))),
  d,
)

abbrev pub edited :
    Moment → String → Option String → Option String → ℤ → Option String → ItemRow → ItemRow
edited m name category unit target_quantity notes r = record r {
  name = name;
  category = category;
  unit = unit;
  target_quantity = target_quantity;
  notes = notes;
  updated_at = m.now;
}

unfoldable pub update_inventory_item :
    ℕ → String → Option String → Option String → Decimal → Option String → Stmt ItemRow
update_inventory_item id name category unit target_quantity notes m d =
    let change = edited m name category unit (stored_numeric target_quantity) notes in
    updated (find_by (item_is id) d.items) (fits (stored_numeric target_quantity))
      (λ row. any_row (item_clashes m row) d.items) change d
      (record d { items = update_where (item_is id) change d.items })

unfoldable pub soft_delete_inventory_item : ℕ → Stmt (Unit {0})
soft_delete_inventory_item id m d = (
  ok tt,
  record d {
    items = update_where (item_is id) (λ r. record r { deleted_at = some m.now }) d.items;
  },
)
