-- ===== src/Schema.antt =====
-- The tables of baskety/db/migrations, a record for each row as in baskety/gen/sqlc/models.go. A
-- nullable column is an `Option`; a uuid is a number, a timestamp too, and a `numeric(10,3)` is a
-- whole number of thousandths.
use baskety.Base.{ℕ, String, List, Option}
use baskety.Base.Int.{ℤ}

pub record UserRow : Type 0 where
  pub id : ℕ
  pub email : String
  pub name : String
  pub password_hash : String
  pub created_at : ℕ
  pub updated_at : ℕ

pub record SessionRow : Type 0 where
  pub id : ℕ
  pub user_id : ℕ
  pub token_hash : String
  pub expires_at : Option ℕ
  pub revoked_at : Option ℕ
  pub created_at : ℕ

pub record HouseholdRow : Type 0 where
  pub id : ℕ
  pub name : String
  pub created_by : ℕ
  pub created_at : ℕ
  pub updated_at : ℕ

pub record MemberRow : Type 0 where
  pub household_id : ℕ
  pub user_id : ℕ
  pub role : String
  pub joined_at : ℕ
  pub invited_by_user_id : Option ℕ
  pub expires_at : Option ℕ
  pub revoked_at : Option ℕ

pub record InventoryRow : Type 0 where
  pub id : ℕ
  pub household_id : ℕ
  pub name : String
  pub description : Option String
  pub created_at : ℕ
  pub updated_at : ℕ

pub record ItemRow : Type 0 where
  pub id : ℕ
  pub inventory_id : ℕ
  pub name : String
  pub category : Option String
  pub unit : Option String
  pub target_quantity : ℤ
  pub notes : Option String
  pub deleted_at : Option ℕ
  pub created_at : ℕ
  pub updated_at : ℕ

pub record BatchRow : Type 0 where
  pub id : ℕ
  pub item_id : ℕ
  pub quantity : ℤ
  pub expires_at : Option ℕ
  pub added_at : ℕ
  pub emptied_at : Option ℕ
  pub notes : Option String
  pub created_at : ℕ

pub record ListRow : Type 0 where
  pub id : ℕ
  pub inventory_id : ℕ
  pub name : String
  pub status : String
  pub created_by_user_id : ℕ
  pub completed_at : Option ℕ
  pub pinned_at : Option ℕ
  pub expires_at : Option ℕ
  pub created_at : ℕ
  pub updated_at : ℕ

pub record ListItemRow : Type 0 where
  pub id : ℕ
  pub grocery_list_id : ℕ
  pub inventory_item_id : Option ℕ
  pub name : String
  pub quantity : ℤ
  pub unit : Option String
  pub notes : Option String
  pub status : String
  pub sort_order : ℤ
  pub created_at : ℕ
  pub updated_at : ℕ

pub record ScanRow : Type 0 where
  pub id : ℕ
  pub household_id : ℕ
  pub grocery_list_id : Option ℕ
  pub raw_image_path : String
  pub ocr_text : Option String
  pub llm_raw_response : Option String
  pub status : String
  pub error_message : Option String
  pub created_by_user_id : ℕ
  pub created_at : ℕ
  pub updated_at : ℕ

pub record ScanItemRow : Type 0 where
  pub id : ℕ
  pub receipt_scan_id : ℕ
  pub raw_text : String
  pub parsed_name : Option String
  pub parsed_brand : Option String
  pub parsed_quantity : Option ℤ
  pub parsed_unit : Option String
  pub parsed_price_minor : Option ℤ
  pub parsed_total_price_minor : Option ℤ
  pub parsed_currency : Option String
  pub parsed_store_name : Option String
  pub confidence_score : Option ℤ
  pub status : String
  pub inventory_item_id : Option ℕ
  pub corrected_name : Option String
  pub corrected_brand : Option String
  pub corrected_quantity : Option ℤ
  pub corrected_price_minor : Option ℤ
  pub corrected_total_price_minor : Option ℤ
  pub corrected_currency : Option String
  pub corrected_store_name : Option String
  pub corrected_unit : Option String
  pub created_at : ℕ
  pub updated_at : ℕ

-- Without `grocery_list_item_id`, to which nothing is ever written.
pub record TransactionRow : Type 0 where
  pub id : ℕ
  pub household_id : ℕ
  pub store_id : Option ℕ
  pub receipt_scan_item_id : Option ℕ
  pub catalog_entry_id : Option ℕ
  pub price_per_unit_minor : Option ℤ
  pub currency : String
  pub quantity : Option ℤ
  pub purchased_at : ℕ
  pub created_at : ℕ

pub record StoreRow : Type 0 where
  pub id : ℕ
  pub name : String
  pub chain_name : Option String
  pub address : Option String
  pub canonical_store_id : Option ℕ
  pub created_at : ℕ
  pub updated_at : ℕ

pub record CatalogEntryRow : Type 0 where
  pub id : ℕ
  pub name : String
  pub brand : Option String
  pub unit : Option String
  pub category : Option String
  pub scope : String
  pub household_id : Option ℕ
  pub canonical_entry_id : Option ℕ
  pub created_at : ℕ
  pub updated_at : ℕ

pub record Db : Type 0 where
  pub users : List UserRow
  pub sessions : List SessionRow
  pub households : List HouseholdRow
  pub members : List MemberRow
  pub inventories : List InventoryRow
  pub items : List ItemRow
  pub batches : List BatchRow
  pub lists : List ListRow
  pub list_items : List ListItemRow
  pub scans : List ScanRow
  pub scan_items : List ScanItemRow
  pub transactions : List TransactionRow
  pub stores : List StoreRow
  pub catalog_entries : List CatalogEntryRow
