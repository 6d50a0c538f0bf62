-- ===== src/Receipt/Queries/Transactions.antt =====
-- baskety/gen/sqlc/purchase_transactions.sql.go.
use baskety.Base.{ℕ, String, ◌&&◌, Option, none, some, List, [], ◌∷◌, ◌++◌, leb, ◌==◌}
use baskety.Base.Int.{ℤ}
use baskety.Schema.{HouseholdRow, TransactionRow}
use baskety.Table.{find_by, any_row, select, order_by}
use baskety.World.{ok, Stmt}
use baskety.Sql.{inserted, one, any_link, nullable, fits, char_fits, char_padded}
use baskety.Receipt.Queries.Rows.{scan_item_is, transaction_is}

-- With the columns that `CreatePurchaseTransaction` of repository_pg.go sets.
unfoldable pub create_purchase_transaction :
    ℕ → ℕ → Option ℤ → String → Option ℤ → ℕ → Stmt TransactionRow
create_purchase_transaction household_id scan_item_id price currency quantity purchased_at m d =
    let row : TransactionRow = record {
      id = m.fresh;
      household_id = household_id;
      store_id = none;
      receipt_scan_item_id = some scan_item_id;
      catalog_entry_id = none;
      price_per_unit_minor = price;
      currency = char_padded 3 currency;
      quantity = quantity;
      purchased_at = purchased_at;
      created_at = m.now;
    } in
    inserted (nullable fits quantity && char_fits 3 currency)
      (any_row (transaction_is m.fresh) d.transactions)
      (any_row (λ (r : HouseholdRow). r.id == household_id) d.households
        && any_row (scan_item_is scan_item_id) d.scan_items)
      row d (record d { transactions = d.transactions ++ row ∷ [] })

unfoldable pub get_purchase_transaction_by_id : ℕ → Stmt TransactionRow
get_purchase_transaction_by_id id m d = (one (find_by (transaction_is id) d.transactions), d)

unfoldable pub list_purchase_transactions_by_catalog_entry : ℕ → Stmt (List TransactionRow)
list_purchase_transactions_by_catalog_entry entry_id m d = (
  ok (
      order_by (λ a b. leb b.purchased_at a.purchased_at)
        (select (λ (r : TransactionRow). any_link (λ id. id == entry_id) r.catalog_entry_id)
          d.transactions)),
  d,
)

unfoldable pub list_purchase_transactions_by_household : ℕ → Stmt (List TransactionRow)
list_purchase_transactions_by_household household_id m d = (
  ok (
      order_by (λ a b. leb b.purchased_at a.purchased_at)
        (select (λ (r : TransactionRow). r.household_id == household_id) d.transactions)),
  d,
)
