-- ===== src/Receipt/Queries/Rows.antt =====
-- The tests that select the rows of the receipt tables, and the CHECKs on their status in
-- baskety/db/migrations/00005_receipt_scans.sql.
use text.Mathlib.Text.{◌==◌ as str_eq}
use baskety.Base.{ℕ, String, Bool, ◌||◌, ◌==◌}
use baskety.Schema.{ScanRow, ScanItemRow, TransactionRow}

abbrev pub scan_is : ℕ → ScanRow → Bool
scan_is id r = r.id == id

abbrev pub scan_item_is : ℕ → ScanItemRow → Bool
scan_item_is id r = r.id == id

abbrev pub scan_item_of : ℕ → ScanItemRow → Bool
scan_item_of scan_id r = r.receipt_scan_id == scan_id

abbrev pub transaction_is : ℕ → TransactionRow → Bool
transaction_is id r = r.id == id

unfoldable pub scan_status : String → Bool
scan_status s =
    str_eq s "uploading"
    || str_eq s "ocr_processing"
    || str_eq s "llm_processing"
    || str_eq s "pending_review"
    || str_eq s "committed"
    || str_eq s "failed"

unfoldable pub scan_item_status : String → Bool
scan_item_status s =
    str_eq s "pending" || str_eq s "accepted" || str_eq s "rejected" || str_eq s "corrected"
