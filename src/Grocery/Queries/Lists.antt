-- ===== src/Grocery/Queries/Lists.antt =====
-- baskety/gen/sqlc/grocery_lists.sql.go. Of the cascades of a deleted list, the model has the one on
-- its items.
use baskety.Base.{ℕ, String, false, true, Option, none, List, [], ◌∷◌, ◌++◌, leb, ◌==◌, ◌&&◌}
use baskety.Schema.{UserRow, InventoryRow, ListRow}
use baskety.Table.{find_by, any_row, select, delete_where, update_where, order_by}
use baskety.World.{ok, Moment, Stmt}
use baskety.Sql.{inserted, updated, one, forget_lists}
use baskety.Grocery.Queries.Rows.{list_is, list_in, list_item_of, list_status}

unfoldable pub create_grocery_list : ℕ → String → ℕ → Stmt ListRow
create_grocery_list inventory_id name created_by_user_id m d =
    let row : ListRow = record {
      id = m.fresh;
      inventory_id = inventory_id;
      name = name;
      status = "active";
      created_by_user_id = created_by_user_id;
      completed_at = none;
      pinned_at = none;
      expires_at = none;
      created_at = m.now;
      updated_at = m.now;
    } in
    inserted true (any_row (list_is m.fresh) d.lists)
      (any_row (λ (r : InventoryRow). r.id == inventory_id) d.inventories
        && any_row (λ (r : UserRow). r.id == created_by_user_id) d.users)
      row d (record d { lists = d.lists ++ row ∷ [] })

unfoldable pub get_grocery_list_by_id : ℕ → Stmt ListRow
get_grocery_list_by_id id m d = (one (find_by (list_is id) d.lists), d)

unfoldable pub list_grocery_lists_by_inventory : ℕ → Stmt (List ListRow)
list_grocery_lists_by_inventory inventory_id m d = (
  ok (order_by (λ a b. leb b.created_at a.created_at) (select (list_in inventory_id) d.lists)),
  d,
)

abbrev pub with_status : Moment → String → Option ℕ → ListRow → ListRow
with_status m status completed_at r = record r {
  status = status;
  completed_at = completed_at;
  updated_at = m.now;
}

unfoldable pub update_grocery_list_status : ℕ → String → Option ℕ → Stmt ListRow
unfolding list_status
update_grocery_list_status id status completed_at m d =
    let change = with_status m status completed_at in
    updated (find_by (list_is id) d.lists) (list_status status) (λ row. false) change d
      (record d { lists = update_where (list_is id) change d.lists })

unfoldable pub archive_grocery_list : ℕ → Stmt (Unit {0})
archive_grocery_list id m d = (
  ok tt,
  record d {
    lists =
        update_where (list_is id) (λ r. record r { status = "archived"; updated_at = m.now })
          d.lists;
  },
)

abbrev pub list_renamed : Moment → String → ListRow → ListRow
list_renamed m name r = record r { name = name; updated_at = m.now }

unfoldable pub rename_grocery_list : ℕ → String → Stmt ListRow
rename_grocery_list id name m d =
    let change = list_renamed m name in
    updated (find_by (list_is id) d.lists) true (λ row. false) change d
      (record d { lists = update_where (list_is id) change d.lists })

unfoldable pub delete_grocery_list : ℕ → Stmt (Unit {0})
delete_grocery_list id m d = (
  ok tt,
  record d {
    lists = delete_where (list_is id) d.lists;
    list_items = delete_where (list_item_of id) d.list_items;
    scans = forget_lists (λ list_id. list_id == id) d.scans;
  },
)
