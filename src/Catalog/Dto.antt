-- ===== src/Catalog/Dto.antt =====
-- dto.go of baskety/internal/catalog. Times are not formatted: the JSON encoder does that.
use baskety.Base.{ℕ, String, Option, none}
use baskety.Base.Int.{ℤ}
use baskety.Receipt.Dto.{shown_id}
use baskety.Catalog.Repository.{Store, CatalogEntry, PurchaseTransaction}

pub record CreateStoreRequest : Type 0 where
  pub name : String
  pub chain_name : Option String
  pub address : Option String

pub record CreateCatalogEntryRequest : Type 0 where
  pub name : String
  pub brand : Option String
  pub unit : Option String
  pub category : Option String
  pub scope : String

pub record StoreResponse : Type 0 where
  pub id : String
  pub name : String
  pub chain_name : Option String
  pub address : Option String
  pub canonical_store_id : Option String
  pub created_at : ℕ
  pub updated_at : ℕ

pub record CatalogEntryResponse : Type 0 where
  pub id : String
  pub name : String
  pub brand : Option String
  pub unit : Option String
  pub category : Option String
  pub scope : String
  pub household_id : Option String
  pub canonical_entry_id : Option String
  pub created_at : ℕ
  pub updated_at : ℕ

pub record TransactionResponse : Type 0 where
  pub id : String
  pub household_id : String
  pub store_id : Option String
  pub grocery_list_item_id : Option String
  pub receipt_scan_item_id : Option String
  pub catalog_entry_id : Option String
  pub price_per_unit_minor : Option ℤ
  pub currency : String
  pub quantity : Option ℤ
  pub purchased_at : ℕ
  pub created_at : ℕ

unfoldable pub to_store_response : (ℕ → String) → Store → StoreResponse
to_store_response show m = record {
  id = show m.id;
  name = m.name;
  chain_name = m.chain_name;
  address = m.address;
  canonical_store_id = shown_id show m.canonical_store_id;
  created_at = m.created_at;
  updated_at = m.updated_at;
}

unfoldable pub to_catalog_entry_response : (ℕ → String) → CatalogEntry → CatalogEntryResponse
to_catalog_entry_response show m = record {
  id = show m.id;
  name = m.name;
  brand = m.brand;
  unit = m.unit;
  category = m.category;
  scope = m.scope;
  household_id = shown_id show m.household_id;
  canonical_entry_id = shown_id show m.canonical_entry_id;
  created_at = m.created_at;
  updated_at = m.updated_at;
}

-- Nothing links a purchase to a line of a grocery list.
unfoldable pub to_transaction_response : (ℕ → String) → PurchaseTransaction → TransactionResponse
to_transaction_response show m = record {
  id = show m.id;
  household_id = show m.household_id;
  store_id = shown_id show m.store_id;
  grocery_list_item_id = none;
  receipt_scan_item_id = shown_id show m.receipt_scan_item_id;
  catalog_entry_id = shown_id show m.catalog_entry_id;
  price_per_unit_minor = m.price_per_unit_minor;
  currency = m.currency;
  quantity = m.quantity;
  purchased_at = m.purchased_at;
  created_at = m.created_at;
}
