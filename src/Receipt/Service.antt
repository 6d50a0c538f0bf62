-- ===== src/Receipt/Service.antt =====
-- service.go of baskety/internal/receipt. The lookup of inventory items is the one of
-- baskety/cmd/baskety; the file store and the queue stand in the environment.
use Prim.Native.Char.{code}
use Prim.Native.String.{◌++◌ as str_append}
use text.Mathlib.Text.{◌==◌ as str_eq}
use baskety.Base.{
  ℕ, String, Bool, false, not, ◌&&◌, ◌||◌, Option, none, some, List, [], ◌∷◌, map, is_empty, ◌==◌,
  if◌then◌else◌,
}
use baskety.Outside.{Job, scan_args, transaction_args}
use baskety.Table.{any_row}
use baskety.World.{
  Error, not_found, invalid_input, receipt, M, env, outside, enqueue, ignoring, caught, pure, raise,
  guard, ◌>>=◌, ◌>>◌,
}
use baskety.Sql.{coalesce}
use baskety.Inventory.Dto.{respond}
use baskety.Receipt.Lookup
use baskety.Receipt.Queries.Rows.{scan_item_is}
use baskety.Receipt.Repository
use baskety.Receipt.Repository.{ReceiptScan, ReceiptScanItem}
use baskety.Receipt.Dto.{
  UpdateScanItemRequest, CommitScanRequest, ScanResponse, ScanItemResponse, to_scan_response,
  to_scan_item_response,
}

-- The kinds of job, as they are registered.
abbrev pub scan_job : String → Job
scan_job scan_id = record { job_type = "process_receipt_scan"; payload = scan_args scan_id }

abbrev pub transaction_job : String → Job
transaction_job transaction_id = record {
  job_type = "process_purchase_transaction";
  payload = transaction_args transaction_id;
}

unfoldable pub assert_scan_scope : ℕ → ℕ → M ReceiptScan
assert_scan_scope scan_id household_id = do
  scan ← Repository.get_scan scan_id
  guard (scan.household_id == household_id) (not_found receipt)
  pure scan

has_slash : String → Bool
has_slash String.[] = false
has_slash (String.◌∷◌ c s) = code c == 0x2f || has_slash s

-- `filepath.Ext`: from the last dot on, where no slash follows it.
unfoldable pub ext : String → String
unfolding has_slash
ext String.[] = ""
ext (String.◌∷◌ c s) =
    let rest = ext s in
    if not (is_empty rest)
    then rest
    else if code c == 0x2e && not (has_slash s)
    then String.◌∷◌ c s
    else ""

-- `image` is whether there is a reader.
unfoldable pub upload_scan : ℕ → ℕ → Option ℕ → String → Bool → M ScanResponse
upload_scan household_id user_id grocery_list_id filename image = do
  guard image (invalid_input receipt)
  path ← outside (λ e k. e.store_file k (str_append (e.uuid_string (e.fresh k)) (ext filename)))
  scan ← Repository.create_scan household_id grocery_list_id path user_id
  e ← env
  enqueue (scan_job (e.uuid_string scan.id))
  respond to_scan_response scan

unfoldable pub get_scan : ℕ → ℕ → M ScanResponse
get_scan id household_id = do
  scan ← assert_scan_scope id household_id
  respond to_scan_response scan

unfoldable pub list_scans : ℕ → M (List ScanResponse)
list_scans household_id = do
  scans ← Repository.list_scans_by_household household_id
  respond (λ show. map (to_scan_response show)) scans

unfoldable pub get_scan_items : ℕ → ℕ → M (List ScanItemResponse)
get_scan_items scan_id household_id = do
  assert_scan_scope scan_id household_id
  items ← Repository.list_scan_items scan_id
  respond (λ show. map (to_scan_item_response show)) items

abbrev pub valid_item_status : String → Bool
valid_item_status s =
    str_eq s "pending" || str_eq s "accepted" || str_eq s "rejected" || str_eq s "corrected"

-- A value that must be there.
abbrev pub required {ℓ} : {A : Type ℓ} → Error → Option A → M A
required e none = raise e
required e (some a) = pure a

abbrev pub non_empty : Option String → Option String
non_empty none = none
non_empty (some s) = if is_empty s then none else some s

-- The unit of an inventory item, where it is found and has one; an error of the lookup is dropped.
unfoldable pub stored_unit : ℕ → M (Option String)
stored_unit item_id = do
  unit ← caught (λ e. pure none) (Lookup.item_unit item_id)
  pure (non_empty unit)

unfoldable pub link_item : ℕ → ReceiptScanItem → Option String → M ReceiptScanItem
link_item item_id updated none = pure updated
link_item item_id updated (some raw) = do
  e ← env
  inventory_id ← required (invalid_input receipt) (e.uuid_parse raw)
  unit ← stored_unit inventory_id
  Repository.link_scan_item_to_inventory item_id inventory_id unit
  pure (record updated {
    inventory_item_id = some inventory_id;
    corrected_unit = coalesce unit updated.corrected_unit;
  })

unfoldable pub update_scan_item : ℕ → ℕ → ℕ → UpdateScanItemRequest → M ScanItemResponse
update_scan_item item_id scan_id household_id req = do
  guard (valid_item_status req.correction.status) (invalid_input receipt)
  assert_scan_scope scan_id household_id
  items ← Repository.list_scan_items scan_id
  guard (any_row (scan_item_is item_id) items) (not_found receipt)
  updated ← Repository.update_scan_item item_id req.correction
  item ← link_item item_id updated (non_empty req.inventory_item_id)
  respond to_scan_item_response item

-- The lines that become purchases.
abbrev pub purchased : ReceiptScanItem → Bool
purchased it = str_eq it.status "accepted" || str_eq it.status "corrected"

-- The body of the loop of `CommitScan`, before the rest of its rounds.
unfoldable pub create_transaction : ℕ → ℕ → ReceiptScanItem → M (List ℕ) → M (List ℕ)
create_transaction household_id purchased_at it rest = do
  txn ← Repository.create_purchase_transaction household_id it.id purchased_at
  ids ← rest
  pure (txn.id ∷ ids)

unfoldable pub create_transactions : ℕ → ℕ → List ReceiptScanItem → M (List ℕ)
create_transactions household_id purchased_at [] = pure []
create_transactions household_id purchased_at (it ∷ its) =
    let rest = create_transactions household_id purchased_at its in
    if purchased it then create_transaction household_id purchased_at it rest else rest

-- A job that cannot be enqueued is logged and left out.
unfoldable pub enqueue_transactions : List ℕ → M (Unit {0})
enqueue_transactions [] = pure tt
enqueue_transactions (id ∷ ids) = do
  e ← env
  ignoring (enqueue (transaction_job (e.uuid_string id)))
  enqueue_transactions ids

unfoldable pub commit_scan : ℕ → ℕ → CommitScanRequest → M ScanResponse
commit_scan scan_id household_id req = do
  scan ← assert_scan_scope scan_id household_id
  guard (str_eq scan.status "pending_review") (invalid_input receipt)
  items ← Repository.list_scan_items scan_id
  ids ← create_transactions household_id req.purchased_at items
  committed ← Repository.update_scan_status scan_id "committed" none
  enqueue_transactions ids
  respond to_scan_response committed
