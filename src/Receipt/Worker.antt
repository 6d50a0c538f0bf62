-- ===== src/Receipt/Worker.antt =====
-- worker.go of baskety/internal/receipt: the job that reads a receipt, and what it does where a step
-- fails.
use Prim.Native.String.{◌++◌ as str_append}
use text.Mathlib.Text.{◌==◌ as str_eq}
use baskety.Base.{ℕ, String, Option, none, some, List, [], ◌∷◌, trim_space, if◌then◌else◌}
use baskety.Outside.{ParsedLineItem, Payload, scan_args, transaction_args}
use baskety.World.{
  Error, parse_error, external, Env, M, env, outside, ignoring, caught, pure, raise, ◌>>=◌, ◌>>◌,
}
use baskety.Sql.{coalesce}
use baskety.Inventory.Request.{void}
use baskety.Receipt.Lookup
use baskety.Receipt.Lookup.{InventoryItemRef}
use baskety.Receipt.Repository
use baskety.Receipt.Repository.{ReceiptScanItem}
use baskety.Receipt.Service.{required, non_empty}

-- `fmt.Sprintf("%s failed: %v", stage, cause)`
abbrev pub failure_text : Env → String → Error → String
failure_text e stage cause = str_append stage (str_append " failed: " (e.error_text cause))

-- The failure is written to the scan; where that fails too, the error is still that of the stage.
unfoldable pub fail {ℓ} : {A : Type ℓ} → ℕ → String → Error → M A
fail scan_id stage cause = do
  e ← env
  ignoring
      (void (Repository.update_scan_status scan_id "failed" (some (failure_text e stage cause))))
  raise cause

abbrev pub or_fail {ℓ} : {A : Type ℓ} → ℕ → String → M A → M A
or_fail scan_id stage = caught (fail scan_id stage)

unfoldable pub create_items : ℕ → List ParsedLineItem → M (List ReceiptScanItem)
create_items scan_id [] = pure []
create_items scan_id (it ∷ its) = do
  ci ← or_fail scan_id "persist line item" (Repository.create_scan_item scan_id it)
  created ← create_items scan_id its
  pure (ci ∷ created)

abbrev pub normalize_name : (String → String) → String → String
normalize_name to_lower s = to_lower (trim_space s)

-- The map `byName`: of the items with a name, the last.
unfoldable pub by_name :
    (String → String) → List InventoryItemRef → String → Option InventoryItemRef
by_name to_lower [] name = none
by_name to_lower (ref ∷ refs) name =
    coalesce (by_name to_lower refs name)
      (if str_eq (normalize_name to_lower ref.name) name then some ref else none)

abbrev named_ref :
    (String → String) → List InventoryItemRef → Option String → Option InventoryItemRef
named_ref to_lower refs none = none
named_ref to_lower refs (some name) = by_name to_lower refs (normalize_name to_lower name)

unfoldable pub link_match : ReceiptScanItem → Option InventoryItemRef → M (Unit {0})
link_match it none = pure tt
link_match it (some ref) =
    ignoring (Repository.link_scan_item_to_inventory it.id ref.id (non_empty (some ref.unit)))

unfoldable pub link_matches : List InventoryItemRef → List ReceiptScanItem → M (Unit {0})
link_matches refs [] = pure tt
link_matches refs (it ∷ its) = do
  e ← env
  link_match it (named_ref e.to_lower refs it.parsed_name)
  link_matches refs its

-- Nothing here fails: an error of the lookup or of a link is logged and dropped.
unfoldable pub match_inventory : ℕ → List ReceiptScanItem → M (Unit {0})
match_inventory household_id items =
    ignoring do refs ← Lookup.household_items household_id; link_matches refs items

-- `llmResolver`, which reads the provider that the household has configured.
abbrev pub llm_resolved : ℕ → Env → ℕ → Option (Unit {0})
llm_resolved household_id e k = if e.resolve_llm k household_id then some tt else none

-- What `Work` does once the id of the scan is known.
unfoldable pub pipeline : ℕ → M (Unit {0})
pipeline scan_id = do
  scan ← or_fail scan_id "fetch" (Repository.get_scan scan_id)
  Repository.update_scan_status scan_id "ocr_processing" none
  text ← or_fail scan_id "ocr" (outside (λ e k. e.extract_text k scan.raw_image_path))
  or_fail scan_id "persist_ocr" (Repository.set_ocr_result scan_id text)
  or_fail scan_id "resolve_llm" (outside (llm_resolved scan.household_id))
  parsed ← or_fail scan_id "llm" (outside (λ e k. e.parse_receipt k text))
  created ← create_items scan_id parsed.0
  match_inventory scan.household_id created
  or_fail scan_id "persist_llm" (Repository.set_llm_result scan_id parsed.1)
  Repository.update_scan_status scan_id "pending_review" none
  pure tt

unfoldable pub work : String → M (Unit {0})
work scan_text = do
  e ← env
  scan_id ← required parse_error (e.uuid_parse scan_text)
  pipeline scan_id

-- A payload of another kind is an error.
unfoldable pub handle_job : Payload → M (Unit {0})
handle_job (scan_args scan_id) = work scan_id
handle_job (transaction_args id) = raise external
