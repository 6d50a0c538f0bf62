-- ===== src/Catalog/Repository.antt =====
-- repository_pg.go of baskety/internal/catalog. Its `Store`, `CatalogEntry` and
-- `PurchaseTransaction` have the fields of their rows.
use baskety.Base.{ℕ, String, Bool, true, false, ◌&&◌, Option, none, some, List}
use baskety.Schema.{StoreRow, CatalogEntryRow, TransactionRow}
use baskety.Table.{find_by}
use baskety.World.{Error, no_rows, not_found, catalog, M, exec, map_err, env, pure, ◌>>=◌}
use baskety.Receipt.Queries as ReceiptQueries
use baskety.Catalog.Queries

abbrev pub Store : Type 0
Store = StoreRow

abbrev pub CatalogEntry : Type 0
CatalogEntry = CatalogEntryRow

abbrev pub PurchaseTransaction : Type 0
PurchaseTransaction = TransactionRow

abbrev pub or_not_found : Error → Error
or_not_found no_rows = not_found catalog
or_not_found e = e

unfoldable pub create_store : String → Option String → Option String → M Store
create_store name chain_name address = exec (Queries.create_store name chain_name address)

unfoldable pub list_stores : M (List Store)
list_stores = exec Queries.list_stores

-- The one that is there, or a new one.
abbrev pub first_or {ℓ} : {A : Type ℓ} → Option A → M A → M A
first_or none create = create
first_or (some a) create = pure a

unfoldable pub upsert_store : String → Option String → Option String → M Store
upsert_store name chain_name address = do
  existing ← list_stores
  e ← env
  first_or (find_by (λ (s : Store). e.equal_fold s.name name) existing)
      (create_store name chain_name address)

unfoldable pub create_catalog_entry :
    Option ℕ → String → Option String → Option String → Option String → String → M CatalogEntry
create_catalog_entry household_id name brand unit category scope =
    exec (Queries.create_catalog_entry name brand unit category scope household_id)

unfoldable pub list_catalog_entries : ℕ → M (List CatalogEntry)
list_catalog_entries household_id = exec (Queries.list_catalog_entries_by_household household_id)

unfoldable pub same_str_ptr : (String → String → Bool) → Option String → Option String → Bool
same_str_ptr fold none none = true
same_str_ptr fold none (some b) = false
same_str_ptr fold (some a) none = false
same_str_ptr fold (some a) (some b) = fold a b

unfoldable pub upsert_catalog_entry :
    Option ℕ → String → Option String → Option String → Option String → String → M CatalogEntry
upsert_catalog_entry none name brand unit category scope =
    create_catalog_entry none name brand unit category scope
upsert_catalog_entry (some household_id) name brand unit category scope = do
  existing ← list_catalog_entries household_id
  e ← env
  first_or
      (find_by
        (λ (c : CatalogEntry). e.equal_fold c.name name && same_str_ptr e.equal_fold c.brand brand)
        existing)
      (create_catalog_entry (some household_id) name brand unit category scope)

unfoldable pub get_purchase_transaction : ℕ → M PurchaseTransaction
get_purchase_transaction id =
    map_err or_not_found (exec (ReceiptQueries.get_purchase_transaction_by_id id))

unfoldable pub update_purchase_transaction_refs : ℕ → Option ℕ → Option ℕ → M (Unit {0})
update_purchase_transaction_refs id store_id entry_id =
    exec (Queries.update_purchase_transaction_refs id store_id entry_id)

unfoldable pub list_transactions_by_household : ℕ → M (List PurchaseTransaction)
list_transactions_by_household household_id =
    exec (ReceiptQueries.list_purchase_transactions_by_household household_id)

unfoldable pub list_transactions_by_catalog_entry : ℕ → M (List PurchaseTransaction)
list_transactions_by_catalog_entry entry_id =
    exec (ReceiptQueries.list_purchase_transactions_by_catalog_entry entry_id)
