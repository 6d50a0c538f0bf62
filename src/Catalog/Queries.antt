-- ===== src/Catalog/Queries.antt =====
-- baskety/gen/sqlc/stores.sql.go, catalog_entries.sql.go, and the two statements that
-- baskety/internal/catalog writes out. What is read of a purchase stands with the receipt tables.
use text.Mathlib.Text.{◌==◌ as str_eq}
use baskety.Base.{
  ℕ, String, Bool, true, not, ◌&&◌, ◌||◌, Option, none, some, List, [], ◌∷◌, ◌++◌, is_some, ◌==◌,
  if◌then◌else◌,
}
use baskety.Schema.{HouseholdRow, StoreRow, CatalogEntryRow, ScanItemRow, Db}
use baskety.Table.{find_by, any_row, select, update_where, order_by}
use baskety.World.{ok, err, db_error, Stmt}
use baskety.Sql.{inserted, one, nullable, coalesce}
use baskety.Receipt.Queries.Rows.{scan_item_is, transaction_is}

abbrev pub store_is : ℕ → StoreRow → Bool
store_is id r = r.id == id

abbrev pub entry_is : ℕ → CatalogEntryRow → Bool
entry_is id r = r.id == id

unfoldable pub create_store : String → Option String → Option String → Stmt StoreRow
create_store name chain_name address m d =
    let row : StoreRow = record {
      id = m.fresh;
      name = name;
      chain_name = chain_name;
      address = address;
      canonical_store_id = none;
      created_at = m.now;
      updated_at = m.now;
    } in
    inserted true (any_row (store_is m.fresh) d.stores) true row d
      (record d { stores = d.stores ++ row ∷ [] })

-- The stores that are merged into another are left out.
unfoldable pub list_stores : Stmt (List StoreRow)
list_stores m d = (
  ok (
      order_by (λ a b. m.name_le a.name b.name)
        (select (λ (r : StoreRow). not (is_some r.canonical_store_id)) d.stores)),
  d,
)

-- CHECK (scope IN ('public', 'private'))
abbrev pub entry_scope : String → Bool
entry_scope s = str_eq s "public" || str_eq s "private"

unfoldable pub create_catalog_entry :
    String
    → Option String
    → Option String
    → Option String
    → String
    → Option ℕ
    → Stmt CatalogEntryRow
create_catalog_entry name brand unit category scope household_id m d =
    let row : CatalogEntryRow = record {
      id = m.fresh;
      name = name;
      brand = brand;
      unit = unit;
      category = category;
      scope = scope;
      household_id = household_id;
      canonical_entry_id = none;
      created_at = m.now;
      updated_at = m.now;
    } in
    inserted (entry_scope scope) (any_row (entry_is m.fresh) d.catalog_entries)
      (nullable (λ id. any_row (λ (h : HouseholdRow). h.id == id) d.households) household_id) row d
      (record d { catalog_entries = d.catalog_entries ++ row ∷ [] })

-- household_id = $1 OR household_id IS NULL
abbrev pub visible_to : ℕ → CatalogEntryRow → Bool
visible_to household_id r = nullable (λ owner. owner == household_id) r.household_id

unfoldable pub list_catalog_entries_by_household : ℕ → Stmt (List CatalogEntryRow)
list_catalog_entries_by_household household_id m d = (
  ok (
      order_by (λ a b. m.name_le a.name b.name)
        (select (visible_to household_id) d.catalog_entries)),
  d,
)

-- `UpdatePurchaseTransactionRefs`: an UPDATE that meets no row checks no foreign key.
unfoldable pub update_purchase_transaction_refs : ℕ → Option ℕ → Option ℕ → Stmt (Unit {0})
update_purchase_transaction_refs id store_id entry_id m d =
    let refs =
      nullable (λ s. any_row (store_is s) d.stores) store_id
      && nullable (λ e. any_row (entry_is e) d.catalog_entries) entry_id in
    let linked : Db = record d {
      transactions =
          update_where (transaction_is id)
            (λ t. record t { store_id = store_id; catalog_entry_id = entry_id }) d.transactions;
    } in
    if any_row (transaction_is id) d.transactions
    then if refs then (ok tt, linked) else (err db_error, d)
    else (ok tt, d)

-- `scanItemRefs`
pub record ScanItemRefs : Type 0 where
  pub parsed_name : Option String
  pub parsed_brand : Option String
  pub parsed_unit : Option String
  pub parsed_store_name : Option String
  pub inventory_item_id : Option ℕ

abbrev pub refs_of_line : ScanItemRow → ScanItemRefs
refs_of_line r = record {
  parsed_name = coalesce r.corrected_name r.parsed_name;
  parsed_brand = coalesce r.corrected_brand r.parsed_brand;
  parsed_unit = coalesce r.corrected_unit r.parsed_unit;
  parsed_store_name = coalesce r.corrected_store_name r.parsed_store_name;
  inventory_item_id = r.inventory_item_id;
}

abbrev pub refs_row : Option ScanItemRow → Option ScanItemRefs
refs_row none = none
refs_row (some r) = some (refs_of_line r)

-- The statement of `loadScanItemRefs`.
unfoldable pub scan_item_refs : ℕ → Stmt ScanItemRefs
scan_item_refs id m d = (one (refs_row (find_by (scan_item_is id) d.scan_items)), d)
