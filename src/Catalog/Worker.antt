-- ===== src/Catalog/Worker.antt =====
-- worker.go of baskety/internal/catalog: the job that enriches a committed purchase and adds it to the
-- stock.
use baskety.Base.{
  ℕ, String, Option, none, some, List, [], ◌∷◌, is_some, is_blank, trim_space, ptr_str,
  if◌then◌else◌,
}
use baskety.Base.Int.{ℤ, pos, ltb_ℤ}
use baskety.Table.{find_by}
use baskety.Outside.{Payload, scan_args, transaction_args}
use baskety.Base.Decimal.{of_numeric}
use baskety.World.{
  Error, parse_error, external, not_found, inventory, M, exec, env, map_err, pure, raise, caught,
  ◌>>=◌, ◌>>◌,
}
use baskety.Inventory.Request.{void}
use baskety.Inventory.Repository as InventoryRepository
use baskety.Inventory.Repository.{Inventory, InventoryItem}
use baskety.Receipt.Service.{required, non_empty}
use baskety.Catalog.Queries
use baskety.Catalog.Queries.{ScanItemRefs}
use baskety.Catalog.Repository
use baskety.Catalog.Repository.{PurchaseTransaction, or_not_found}

unfoldable pub load_scan_item_refs : ℕ → M ScanItemRefs
load_scan_item_refs scan_item_id = map_err or_not_found (exec (Queries.scan_item_refs scan_item_id))

-- Nothing for a name that is missing or empty.
unfoldable pub upsert_named_store : Option String → M (Option ℕ)
upsert_named_store none = pure none
upsert_named_store (some name) = do
  store ← Repository.upsert_store name none none
  pure (some store.id)

unfoldable pub upsert_named_entry : ℕ → ScanItemRefs → Option String → M (Option ℕ)
upsert_named_entry household_id refs none = pure none
upsert_named_entry household_id refs (some name) = do
  entry ←
      Repository.upsert_catalog_entry (some household_id) name refs.parsed_brand refs.parsed_unit
        none "private"
  pure (some entry.id)

-- The item of the inventory that bears the name, or a new one.
unfoldable pub item_named : ℕ → String → Option String → M ℕ
item_named inventory_id name unit = do
  items ← InventoryRepository.list_items inventory_id
  e ← env
  item ← Repository.first_or (find_by (λ (it : InventoryItem). e.equal_fold it.name name) items) (
      InventoryRepository.create_item inventory_id name "" (ptr_str unit) (of_numeric (pos 0)) none)
  pure item.id

-- The oldest inventory is the default.
unfoldable pub in_default : String → Option String → List Inventory → M (Option ℕ)
in_default name unit [] = pure none
in_default name unit (inv ∷ invs) = do id ← item_named inv.id name unit; pure (some id)

abbrev pub not_blank : Option String → Option String
not_blank none = none
not_blank (some s) = if is_blank s then none else some (trim_space s)

unfoldable pub resolve_by_name : ℕ → Option String → Option String → M (Option ℕ)
resolve_by_name household_id unit none = pure none
resolve_by_name household_id unit (some name) = do
  invs ← InventoryRepository.list_inventories household_id
  in_default name unit invs

unfoldable pub resolve_from : ℕ → ScanItemRefs → Option ℕ → M (Option ℕ)
resolve_from household_id refs none =
    resolve_by_name household_id refs.parsed_unit (not_blank refs.parsed_name)
resolve_from household_id refs (some id) = pure (some id)

unfoldable pub resolve_inventory_item_id : ℕ → ScanItemRefs → M (Option ℕ)
resolve_inventory_item_id household_id refs = resolve_from household_id refs refs.inventory_item_id

abbrev pub missing_item : Error → M (Option InventoryItem)
missing_item (not_found inventory) = pure none
missing_item e = raise e

-- The item, where it is there: an item that is not is logged and skipped.
unfoldable pub live_item : ℕ → M (Option InventoryItem)
live_item id = caught missing_item do
  item ← InventoryRepository.get_item id
  pure (if is_some item.deleted_at then none else some item)

unfoldable pub add_stock : ℤ → Option InventoryItem → M (Unit {0})
add_stock quantity none = pure tt
add_stock quantity (some item) =
    void (InventoryRepository.add_batch item.id (of_numeric quantity) none none)

unfoldable pub stock_item : ℤ → Option ℕ → M (Unit {0})
stock_item quantity none = pure tt
stock_item quantity (some id) = do item ← live_item id; add_stock quantity item

-- `if txn.Quantity != nil && *txn.Quantity > 0`
abbrev pub positive : Option ℤ → Option ℤ
positive none = none
positive (some q) = if ltb_ℤ (pos 0) q then some q else none

unfoldable pub update_stock : ℕ → ScanItemRefs → Option ℤ → M (Unit {0})
update_stock household_id refs none = pure tt
update_stock household_id refs (some quantity) = do
  id ← resolve_inventory_item_id household_id refs
  stock_item quantity id

unfoldable pub enrich : ℕ → PurchaseTransaction → Option ℕ → M (Unit {0})
enrich txn_id txn none = pure tt
enrich txn_id txn (some scan_item_id) = do
  refs ← load_scan_item_refs scan_item_id
  store_id ← upsert_named_store (non_empty refs.parsed_store_name)
  entry_id ← upsert_named_entry txn.household_id refs (non_empty refs.parsed_name)
  Repository.update_purchase_transaction_refs txn_id store_id entry_id
  update_stock txn.household_id refs (positive txn.quantity)

unfoldable pub work : String → M (Unit {0})
work transaction_text = do
  e ← env
  txn_id ← required parse_error (e.uuid_parse transaction_text)
  txn ← Repository.get_purchase_transaction txn_id
  enrich txn_id txn txn.receipt_scan_item_id

unfoldable pub handle_job : Payload → M (Unit {0})
handle_job (scan_args id) = raise external
handle_job (transaction_args id) = work id
