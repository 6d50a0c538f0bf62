-- ===== src/Receipt/Handler.antt =====
-- handler.go of baskety/internal/receipt.
use baskety.Base.{
  ℕ, ◌*◌, String, Bool, true, not, Option, none, some, List, is_empty, ltb, if◌then◌else◌,
}
use baskety.World.{receipt}
use baskety.Http.{
  HttpRequest, data_of, error_text, Handler, ◌>>=◌, ◌>>◌, write_json, given, household_from_ctx,
  user_from_ctx, parse_param, decode_body, call,
}
use baskety.Receipt.Dto.{UpdateScanItemRequest, CommitScanRequest, ScanResponse, ScanItemResponse}
use baskety.Receipt.Service

-- 10 << 20
abbrev pub max_upload_bytes : ℕ
max_upload_bytes = 10 * 1048576

pub record FormFile : Type 0 where
  pub filename : String
  pub size : ℕ

-- A multipart form: `decoded` of the request is whether `ParseMultipartForm` reported no error.
pub record UploadForm : Type 0 where
  pub image : Option FormFile
  pub grocery_list_id : String

-- `if … { writeJSON(w, http.StatusBadRequest, …); return }`
abbrev pub unless {ℓ} : {A : Type ℓ} → Bool → String → (Unit {0} → Handler A) → Handler A
unless refused text k = if refused then write_json 400 (error_text text) else k tt

-- An id that may be left out.
unfoldable pub optional_id {ℓ} : {A : Type ℓ} → String → String → (Option ℕ → Handler A) → Handler A
optional_id raw text k w =
    let parsed = given (write_json 400 (error_text text)) (w.env.uuid_parse raw) in
    if is_empty raw then k none w else parsed (λ id. k (some id)) w

unfoldable pub handle_upload_scan : HttpRequest UploadForm → Handler ScanResponse
handle_upload_scan r = do
  hid ← household_from_ctx r
  uid ← user_from_ctx r
  unless (not r.decoded) "invalid multipart form"
  file ← given (write_json 400 (error_text "missing image field")) r.body.image
  unless (ltb max_upload_bytes file.size) "file exceeds maximum upload size of 10 MB"
  list_id ← optional_id r.body.grocery_list_id "invalid grocery_list_id"
  resp ← call receipt (Service.upload_scan hid uid list_id file.filename true)
  write_json 201 (data_of resp)

unfoldable pub handle_list_scans : HttpRequest (Unit {0}) → Handler (List ScanResponse)
handle_list_scans r = do
  hid ← household_from_ctx r
  resp ← call receipt (Service.list_scans hid)
  write_json 200 (data_of resp)

unfoldable pub handle_get_scan : HttpRequest (Unit {0}) → Handler ScanResponse
handle_get_scan r = do
  hid ← household_from_ctx r
  scan_id ← parse_param r "scanID" "invalid scan ID"
  resp ← call receipt (Service.get_scan scan_id hid)
  write_json 200 (data_of resp)

unfoldable pub handle_get_scan_items : HttpRequest (Unit {0}) → Handler (List ScanItemResponse)
handle_get_scan_items r = do
  hid ← household_from_ctx r
  scan_id ← parse_param r "scanID" "invalid scan ID"
  resp ← call receipt (Service.get_scan_items scan_id hid)
  write_json 200 (data_of resp)

unfoldable pub handle_update_scan_item :
    HttpRequest UpdateScanItemRequest → Handler ScanItemResponse
handle_update_scan_item r = do
  hid ← household_from_ctx r
  scan_id ← parse_param r "scanID" "invalid scan ID"
  item_id ← parse_param r "itemID" "invalid item ID"
  req ← decode_body r
  resp ← call receipt (Service.update_scan_item item_id scan_id hid req)
  write_json 200 (data_of resp)

unfoldable pub handle_commit_scan : HttpRequest CommitScanRequest → Handler ScanResponse
handle_commit_scan r = do
  hid ← household_from_ctx r
  scan_id ← parse_param r "scanID" "invalid scan ID"
  req ← decode_body r
  resp ← call receipt (Service.commit_scan scan_id hid req)
  write_json 200 (data_of resp)
