-- ===== src/Inventory/Queries/Batches.antt =====
-- baskety/gen/sqlc/inventory_batches.sql.go.
use baskety.Base.{false, ℕ, String, Bool, ◌&&◌, Option, none, some, List, [], ◌∷◌, ◌++◌}
use baskety.Base.Int.{ℤ}
use baskety.Base.Decimal.{Decimal, stored_numeric}
use baskety.Schema.{BatchRow}
use baskety.Table.{find_by, any_row, select, delete_where, update_where, order_by, nulls_last}
use baskety.World.{ok, Stmt}
use baskety.Sql.{updated, fits, inserted, one, coalesce}
use baskety.Inventory.Queries.Rows.{item_is, batch_is, active_of}

unfoldable pub create_inventory_batch : ℕ → Decimal → Option ℕ → Option String → Stmt BatchRow
create_inventory_batch item_id quantity expires_at notes m d =
    let row : BatchRow = record {
      id = m.fresh;
      item_id = item_id;
      quantity = stored_numeric quantity;
      expires_at = expires_at;
      added_at = m.now;
      emptied_at = none;
      notes = notes;
      created_at = m.now;
    } in
    inserted (fits (stored_numeric quantity)) (any_row (batch_is m.fresh) d.batches)
      (any_row (item_is item_id) d.items) row d (record d { batches = d.batches ++ row ∷ [] })

unfoldable pub get_inventory_batch_by_id : ℕ → Stmt BatchRow
get_inventory_batch_by_id id m d = (one (find_by (batch_is id) d.batches), d)

unfoldable pub list_active_batches_by_item : ℕ → Stmt (List BatchRow)
list_active_batches_by_item item_id m d = (
  ok (
      order_by (λ a b. nulls_last a.expires_at b.expires_at)
        (select (active_of item_id) d.batches)),
  d,
)

unfoldable pub mark_batch_emptied : ℕ → Stmt (Unit {0})
mark_batch_emptied id m d = (
  ok tt,
  record d {
    batches = update_where (batch_is id) (λ r. record r { emptied_at = some m.now }) d.batches;
  },
)

unfoldable pub delete_inventory_batch : ℕ → Stmt (Unit {0})
delete_inventory_batch id m d = (ok tt, record d { batches = delete_where (batch_is id) d.batches })

abbrev pub patches : ℕ → ℕ → BatchRow → Bool
patches id item_id r = batch_is id r && active_of item_id r

abbrev pub patched : ℤ → Option ℕ → Option String → BatchRow → BatchRow
patched quantity expires_at notes r = record r {
  quantity = quantity;
  expires_at = coalesce expires_at r.expires_at;
  notes = coalesce notes r.notes;
}

unfoldable pub patch_batch : ℕ → ℕ → Decimal → Option ℕ → Option String → Stmt BatchRow
patch_batch id item_id quantity expires_at notes m d =
    let change = patched (stored_numeric quantity) expires_at notes in
    updated (find_by (patches id item_id) d.batches) (fits (stored_numeric quantity)) (λ row. false)
      change d (record d { batches = update_where (patches id item_id) change d.batches })
