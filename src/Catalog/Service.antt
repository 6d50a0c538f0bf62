-- ===== src/Catalog/Service.antt =====
-- service.go of baskety/internal/catalog.
use text.Mathlib.Text.{◌==◌ as str_eq}
use baskety.Base.{ℕ, String, not, ◌||◌, Option, none, some, List, map, is_empty, if◌then◌else◌}
use baskety.World.{invalid_input, catalog, M, guard, ◌>>=◌, ◌>>◌}
use baskety.Inventory.Dto.{respond}
use baskety.Catalog.Repository
use baskety.Catalog.Repository.{PurchaseTransaction}
use baskety.Catalog.Dto.{
  CreateStoreRequest, CreateCatalogEntryRequest, StoreResponse, CatalogEntryResponse,
  TransactionResponse, to_store_response, to_catalog_entry_response, to_transaction_response,
}

unfoldable pub create_store : ℕ → CreateStoreRequest → M StoreResponse
create_store household_id req = do
  guard (not (is_empty req.name)) (invalid_input catalog)
  store ← Repository.create_store req.name req.chain_name req.address
  respond to_store_response store

-- The stores are those of all households.
unfoldable pub list_stores : ℕ → M (List StoreResponse)
list_stores household_id = do
  stores ← Repository.list_stores
  respond (λ show. map (to_store_response show)) stores

abbrev pub scope_or_private : String → String
scope_or_private scope = if is_empty scope then "private" else scope

-- Private entries are the household's, public ones nobody's.
abbrev pub owner : String → ℕ → Option ℕ
owner scope household_id = if str_eq scope "private" then some household_id else none

unfoldable pub create_catalog_entry : ℕ → CreateCatalogEntryRequest → M CatalogEntryResponse
create_catalog_entry household_id req = do
  guard (not (is_empty req.name)) (invalid_input catalog)
  guard
      (str_eq (scope_or_private req.scope) "public"
        || str_eq (scope_or_private req.scope) "private")
      (invalid_input catalog)
  entry ←
      Repository.create_catalog_entry (owner (scope_or_private req.scope) household_id) req.name
        req.brand req.unit req.category (scope_or_private req.scope)
  respond to_catalog_entry_response entry

unfoldable pub list_catalog_entries : ℕ → M (List CatalogEntryResponse)
list_catalog_entries household_id = do
  entries ← Repository.list_catalog_entries household_id
  respond (λ show. map (to_catalog_entry_response show)) entries

-- With the id of an entry, whatever household its purchases are of.
unfoldable pub find_transactions : ℕ → Option ℕ → M (List PurchaseTransaction)
find_transactions household_id none = Repository.list_transactions_by_household household_id
find_transactions household_id (some entry_id) =
    Repository.list_transactions_by_catalog_entry entry_id

unfoldable pub list_transactions : ℕ → Option ℕ → M (List TransactionResponse)
list_transactions household_id entry_id = do
  txns ← find_transactions household_id entry_id
  respond (λ show. map (to_transaction_response show)) txns
