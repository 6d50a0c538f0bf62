-- ===== src/Receipt/Dto.antt =====
-- dto.go of baskety/internal/receipt. Times are not formatted: the JSON encoder does that.
use baskety.Base.{ℕ, String, Option, none, some}
use baskety.Base.Int.{ℤ}
use baskety.Receipt.Queries.{Correction}
use baskety.Receipt.Repository.{ReceiptScan, ReceiptScanItem}

-- The fields that the repository writes are those of `Correction`.
pub record UpdateScanItemRequest : Type 0 where
  pub correction : Correction
  pub inventory_item_id : Option String

pub record CommitScanRequest : Type 0 where
  pub purchased_at : ℕ

pub record ScanResponse : Type 0 where
  pub id : String
  pub household_id : String
  pub grocery_list_id : Option String
  pub raw_image_path : String
  pub ocr_text : Option String
  pub llm_raw_response : Option String
  pub status : String
  pub error_message : Option String
  pub created_by_user_id : String
  pub created_at : ℕ
  pub updated_at : ℕ

pub record ScanItemResponse : Type 0 where
  pub id : String
  pub receipt_scan_id : String
  pub raw_text : String
  pub parsed_name : Option String
  pub parsed_brand : Option String
  pub parsed_quantity : Option ℤ
  pub parsed_unit : Option String
  pub parsed_price_minor : Option ℤ
  pub parsed_total_price_minor : Option ℤ
  pub parsed_currency : Option String
  pub parsed_store_name : Option String
  pub confidence_score : Option ℤ
  pub status : String
  pub inventory_item_id : Option String
  pub corrected_name : Option String
  pub corrected_brand : Option String
  pub corrected_quantity : Option ℤ
  pub corrected_price_minor : Option ℤ
  pub corrected_total_price_minor : Option ℤ
  pub corrected_currency : Option String
  pub corrected_store_name : Option String
  pub corrected_unit : Option String
  pub created_at : ℕ
  pub updated_at : ℕ

abbrev pub shown_id : (ℕ → String) → Option ℕ → Option String
shown_id show none = none
shown_id show (some id) = some (show id)

unfoldable pub to_scan_response : (ℕ → String) → ReceiptScan → ScanResponse
to_scan_response show m = record {
  id = show m.id;
  household_id = show m.household_id;
  grocery_list_id = shown_id show m.grocery_list_id;
  raw_image_path = m.raw_image_path;
  ocr_text = m.ocr_text;
  llm_raw_response = m.llm_raw_response;
  status = m.status;
  error_message = m.error_message;
  created_by_user_id = show m.created_by_user_id;
  created_at = m.created_at;
  updated_at = m.updated_at;
}

unfoldable pub to_scan_item_response : (ℕ → String) → ReceiptScanItem → ScanItemResponse
to_scan_item_response show m = record {
  id = show m.id;
  receipt_scan_id = show m.receipt_scan_id;
  raw_text = m.raw_text;
  parsed_name = m.parsed_name;
  parsed_brand = m.parsed_brand;
  parsed_quantity = m.parsed_quantity;
  parsed_unit = m.parsed_unit;
  parsed_price_minor = m.parsed_price_minor;
  parsed_total_price_minor = m.parsed_total_price_minor;
  parsed_currency = m.parsed_currency;
  parsed_store_name = m.parsed_store_name;
  confidence_score = m.confidence_score;
  status = m.status;
  inventory_item_id = shown_id show m.inventory_item_id;
  corrected_name = m.corrected_name;
  corrected_brand = m.corrected_brand;
  corrected_quantity = m.corrected_quantity;
  corrected_price_minor = m.corrected_price_minor;
  corrected_total_price_minor = m.corrected_total_price_minor;
  corrected_currency = m.corrected_currency;
  corrected_store_name = m.corrected_store_name;
  corrected_unit = m.corrected_unit;
  created_at = m.created_at;
  updated_at = m.updated_at;
}
