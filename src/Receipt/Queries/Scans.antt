-- ===== src/Receipt/Queries/Scans.antt =====
-- baskety/gen/sqlc/receipt_scans.sql.go.
use baskety.Base.{
  ℕ, String, Bool, true, false, ◌&&◌, Option, none, some, List, [], ◌∷◌, ◌++◌, leb, ◌==◌,
}
use baskety.Schema.{UserRow, HouseholdRow, ListRow, ScanRow}
use baskety.Table.{find_by, any_row, select, update_where, order_by}
use baskety.World.{ok, Moment, Stmt}
use baskety.Sql.{inserted, updated, one, nullable}
use baskety.Receipt.Queries.Rows.{scan_is, scan_status}

unfoldable pub create_receipt_scan : ℕ → Option ℕ → String → ℕ → Stmt ScanRow
create_receipt_scan household_id grocery_list_id raw_image_path created_by_user_id m d =
    let row : ScanRow = record {
      id = m.fresh;
      household_id = household_id;
      grocery_list_id = grocery_list_id;
      raw_image_path = raw_image_path;
      ocr_text = none;
      llm_raw_response = none;
      status = "uploading";
      error_message = none;
      created_by_user_id = created_by_user_id;
      created_at = m.now;
      updated_at = m.now;
    } in
    inserted true (any_row (scan_is m.fresh) d.scans)
      (any_row (λ (r : HouseholdRow). r.id == household_id) d.households
        && nullable (λ list_id. any_row (λ (r : ListRow). r.id == list_id) d.lists) grocery_list_id
        && any_row (λ (r : UserRow). r.id == created_by_user_id) d.users)
      row d (record d { scans = d.scans ++ row ∷ [] })

unfoldable pub get_receipt_scan_by_id : ℕ → Stmt ScanRow
get_receipt_scan_by_id id m d = (one (find_by (scan_is id) d.scans), d)

unfoldable pub list_receipt_scans_by_household : ℕ → Stmt (List ScanRow)
list_receipt_scans_by_household household_id m d = (
  ok (
      order_by (λ a b. leb b.created_at a.created_at)
        (select (λ (r : ScanRow). r.household_id == household_id) d.scans)),
  d,
)

-- UPDATE receipt_scans SET … WHERE id = $1 RETURNING …
unfoldable pub update_scan : ℕ → Bool → (ScanRow → ScanRow) → Stmt ScanRow
update_scan id checks change m d =
    updated (find_by (scan_is id) d.scans) checks (λ row. false) change d
      (record d { scans = update_where (scan_is id) change d.scans })

abbrev pub scan_marked : Moment → String → Option String → ScanRow → ScanRow
scan_marked m status error_message r = record r {
  status = status;
  error_message = error_message;
  updated_at = m.now;
}

unfoldable pub update_receipt_scan_status : ℕ → String → Option String → Stmt ScanRow
unfolding scan_status
update_receipt_scan_status id status error_message m =
    update_scan id (scan_status status) (scan_marked m status error_message) m

abbrev pub scan_read : Moment → String → ScanRow → ScanRow
scan_read m ocr_text r = record r {
  ocr_text = some ocr_text;
  status = "llm_processing";
  updated_at = m.now;
}

unfoldable pub set_receipt_scan_ocr_result : ℕ → String → Stmt ScanRow
set_receipt_scan_ocr_result id ocr_text m = update_scan id true (scan_read m ocr_text) m

abbrev pub scan_parsed : Moment → String → ScanRow → ScanRow
scan_parsed m llm_raw_response r = record r {
  llm_raw_response = some llm_raw_response;
  status = "pending_review";
  updated_at = m.now;
}

unfoldable pub set_receipt_scan_llm_result : ℕ → String → Stmt ScanRow
set_receipt_scan_llm_result id llm_raw_response m =
    update_scan id true (scan_parsed m llm_raw_response) m
