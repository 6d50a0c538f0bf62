-- ===== src/Inventory/Queries/Rows.antt =====
-- The tests that select the rows of the inventory tables.
use baskety.Base.{ℕ, Bool, not, ◌&&◌, ◌==◌, is_some}
use baskety.Schema.{InventoryRow, ItemRow, BatchRow}

abbrev pub inventory_is : ℕ → InventoryRow → Bool
inventory_is id r = r.id == id

abbrev pub item_is : ℕ → ItemRow → Bool
item_is id r = r.id == id

abbrev pub batch_is : ℕ → BatchRow → Bool
batch_is id r = r.id == id

abbrev pub item_in : ℕ → ItemRow → Bool
item_in inventory_id r = r.inventory_id == inventory_id

abbrev pub batch_of : ℕ → BatchRow → Bool
batch_of item_id r = r.item_id == item_id

-- A batch that counts: `emptied_at IS NULL`.
abbrev pub active_of : ℕ → BatchRow → Bool
active_of item_id r = r.item_id == item_id && not (is_some r.emptied_at)

abbrev pub live : ItemRow → Bool
live r = not (is_some r.deleted_at)
