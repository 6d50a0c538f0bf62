-- ===== src/Receipt/Repository.antt =====
-- repository_pg.go of baskety/internal/receipt. Its `ReceiptScan`, `ReceiptScanItem` and
-- `PurchaseTransaction` have the fields of their rows.
use baskety.Base.{ℕ, String, Option, none, some, List}
use baskety.Schema.{ScanRow, ScanItemRow, TransactionRow}
use baskety.Outside.{ParsedLineItem}
use baskety.World.{Error, no_rows, not_found, receipt, M, exec, map_err, ◌>>=◌}
use baskety.Sql.{coalesce}
use baskety.Receipt.Queries
use baskety.Receipt.Queries.{Correction}

abbrev pub ReceiptScan : Type 0
ReceiptScan = ScanRow

abbrev pub ReceiptScanItem : Type 0
ReceiptScanItem = ScanItemRow

abbrev pub PurchaseTransaction : Type 0
PurchaseTransaction = TransactionRow

-- `if errors.Is(err, pgx.ErrNoRows) { return ErrNotFound }; return err`
abbrev pub or_not_found : Error → Error
or_not_found no_rows = not_found receipt
or_not_found e = e

unfoldable pub create_scan : ℕ → Option ℕ → String → ℕ → M ReceiptScan
create_scan household_id grocery_list_id image_path created_by =
    exec (Queries.create_receipt_scan household_id grocery_list_id image_path created_by)

unfoldable pub get_scan : ℕ → M ReceiptScan
get_scan id = map_err or_not_found (exec (Queries.get_receipt_scan_by_id id))

unfoldable pub list_scans_by_household : ℕ → M (List ReceiptScan)
list_scans_by_household household_id = exec (Queries.list_receipt_scans_by_household household_id)

unfoldable pub update_scan_status : ℕ → String → Option String → M ReceiptScan
update_scan_status id status err_msg =
    map_err or_not_found (exec (Queries.update_receipt_scan_status id status err_msg))

unfoldable pub set_ocr_result : ℕ → String → M ReceiptScan
set_ocr_result id ocr_text = exec (Queries.set_receipt_scan_ocr_result id ocr_text)

unfoldable pub set_llm_result : ℕ → String → M ReceiptScan
set_llm_result id llm_raw = exec (Queries.set_receipt_scan_llm_result id llm_raw)

unfoldable pub create_scan_item : ℕ → ParsedLineItem → M ReceiptScanItem
create_scan_item scan_id item = exec (Queries.create_receipt_scan_item scan_id item)

unfoldable pub list_scan_items : ℕ → M (List ReceiptScanItem)
list_scan_items scan_id = exec (Queries.list_receipt_scan_items scan_id)

unfoldable pub update_scan_item : ℕ → Correction → M ReceiptScanItem
update_scan_item id req =
    map_err or_not_found (exec (Queries.update_receipt_scan_item_status id req))

unfoldable pub link_scan_item_to_inventory : ℕ → ℕ → Option String → M (Unit {0})
link_scan_item_to_inventory scan_item_id inventory_item_id unit =
    exec (Queries.link_receipt_scan_item_to_inventory scan_item_id inventory_item_id unit)

unfoldable pub get_scan_item : ℕ → M ReceiptScanItem
get_scan_item id = map_err or_not_found (exec (Queries.get_scan_item id))

-- `*p`, and "" for nil
abbrev pub text_or_empty : Option String → String
text_or_empty none = ""
text_or_empty (some s) = s

-- The corrected values are taken where there are any.
unfoldable pub create_purchase_transaction : ℕ → ℕ → ℕ → M PurchaseTransaction
create_purchase_transaction household_id scan_item_id purchased_at = do
  si ← get_scan_item scan_item_id
  exec (
      Queries.create_purchase_transaction household_id scan_item_id
        (coalesce si.corrected_price_minor si.parsed_price_minor)
        (text_or_empty (coalesce si.corrected_currency si.parsed_currency))
        (coalesce si.corrected_quantity si.parsed_quantity) purchased_at)
