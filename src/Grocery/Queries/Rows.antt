-- ===== src/Grocery/Queries/Rows.antt =====
-- The tests that select the rows of the grocery tables, and the CHECKs on their status.
use text.Mathlib.Text.{◌==◌ as str_eq}
use baskety.Base.{ℕ, String, Bool, ◌||◌, ◌==◌}
use baskety.Schema.{ListRow, ListItemRow}

abbrev pub list_is : ℕ → ListRow → Bool
list_is id r = r.id == id

abbrev pub list_in : ℕ → ListRow → Bool
list_in inventory_id r = r.inventory_id == inventory_id

abbrev pub list_item_is : ℕ → ListItemRow → Bool
list_item_is id r = r.id == id

abbrev pub list_item_of : ℕ → ListItemRow → Bool
list_item_of list_id r = r.grocery_list_id == list_id

-- CHECK (status IN ('active', 'completed', 'archived'))
unfoldable pub list_status : String → Bool
list_status s = str_eq s "active" || str_eq s "completed" || str_eq s "archived"

-- CHECK (status IN ('pending', 'bought', 'skipped'))
unfoldable pub item_status : String → Bool
item_status s = str_eq s "pending" || str_eq s "bought" || str_eq s "skipped"
