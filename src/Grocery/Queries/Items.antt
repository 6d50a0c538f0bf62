-- ===== src/Grocery/Queries/Items.antt =====
-- baskety/gen/sqlc/grocery_list_items.sql.go.
use baskety.Base.{ℕ, String, Bool, false, ◌&&◌, ◌||◌, Option, List, [], ◌∷◌, ◌++◌, leb}
use baskety.Base.Int.{ℤ, ltb_ℤ, leb_ℤ}
use baskety.Schema.{ListItemRow}
use baskety.Table.{find_by, any_row, select, delete_where, update_where, order_by}
use baskety.World.{ok, Moment, Stmt}
use baskety.Sql.{fits, inserted, updated, one}
use baskety.Integrity.{has_list, has_item, linked}
use baskety.Grocery.Queries.Rows.{list_item_is, list_item_of, item_status}

unfoldable pub add_grocery_list_item :
    ℕ → Option ℕ → String → ℤ → Option String → Option String → ℤ → Stmt ListItemRow
add_grocery_list_item list_id inventory_item_id name quantity unit notes sort_order m d =
    let row : ListItemRow = record {
      id = m.fresh;
      grocery_list_id = list_id;
      inventory_item_id = inventory_item_id;
      name = name;
      quantity = quantity;
      unit = unit;
      notes = notes;
      status = "pending";
      sort_order = sort_order;
      created_at = m.now;
      updated_at = m.now;
    } in
    inserted (fits quantity) (any_row (list_item_is m.fresh) d.list_items)
      (has_list d list_id && linked (has_item d) inventory_item_id) row d
      (record d { list_items = d.list_items ++ row ∷ [] })

unfoldable pub get_grocery_list_item_by_id : ℕ → Stmt ListItemRow
get_grocery_list_item_by_id id m d = (one (find_by (list_item_is id) d.list_items), d)

-- ORDER BY sort_order ASC, created_at ASC
abbrev pub item_le : ListItemRow → ListItemRow → Bool
item_le a b =
    ltb_ℤ a.sort_order b.sort_order
    || (leb_ℤ a.sort_order b.sort_order && leb a.created_at b.created_at)

unfoldable pub list_grocery_list_items : ℕ → Stmt (List ListItemRow)
list_grocery_list_items list_id m d =
    (ok (order_by item_le (select (list_item_of list_id) d.list_items)), d)

abbrev pub item_marked : Moment → String → ListItemRow → ListItemRow
item_marked m status r = record r { status = status; updated_at = m.now }

unfoldable pub update_grocery_list_item_status : ℕ → String → Stmt ListItemRow
unfolding item_status
update_grocery_list_item_status id status m d =
    let change = item_marked m status in
    updated (find_by (list_item_is id) d.list_items) (item_status status) (λ row. false) change d
      (record d { list_items = update_where (list_item_is id) change d.list_items })

unfoldable pub update_grocery_list_item_sort_order : ℕ → ℤ → Stmt (Unit {0})
update_grocery_list_item_sort_order id sort_order m d = (
  ok tt,
  record d {
    list_items =
        update_where (list_item_is id) (λ r. record r { sort_order = sort_order }) d.list_items;
  },
)

unfoldable pub delete_grocery_list_item : ℕ → Stmt (Unit {0})
delete_grocery_list_item id m d =
    (ok tt, record d { list_items = delete_where (list_item_is id) d.list_items })
