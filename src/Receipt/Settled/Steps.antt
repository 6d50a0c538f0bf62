-- ===== src/Receipt/Settled/Steps.antt =====
-- The steps of the job of baskety/internal/receipt/worker.go, one by one.
use baskety.Base.{ℕ, ◌≡◌, refl, String, Bool, true, false, Option, none, some, List, [], ◌∷◌, arith}
use baskety.Schema.{ScanRow, Db}
use baskety.Table.Laws.{find_by-update_where_hit}
use baskety.World.{Moment, moment}
use baskety.Sql.{updated}
use baskety.World.Laws.{
  Keeps, Keeps-exec, Keeps-map_err, Keeps-bind, Keeps-pure, Keeps-env, Keeps-ignoring,
}
use baskety.World.Steady.{
  Steady, steady_rules, Steady-bind, Steady-pure, Steady-ignoring, Steady-exec, Steady-env,
}
use baskety.Receipt.Queries
use baskety.Receipt.Queries.Rows.{scan_is}
use baskety.Receipt.Repository
use baskety.Receipt.Repository.{ReceiptScanItem}
use baskety.Receipt.Lookup
use baskety.Receipt.Worker
use baskety.Inventory.Repository as InventoryRepository
use baskety.Inventory.Queries as InventoryQueries
use baskety.Integrity.{inserted_keeps}
use baskety.Outside.{ParsedLineItem}
use baskety.Receipt.Settled.{Present, Ends, bind-Ends, or_fail-Ends, sure-Ends, pure-Ends}

-- The steps of the job leave the scan there.
module _ (id : ℕ) where
  pub update_scan-Present :
      (checks : Bool) (change : ScanRow → ScanRow) (m : Moment) (d : Db)
      → ((r : ScanRow) → scan_is id (change r) ≡ scan_is id r)
      → Present id d
      → Present id (Queries.update_scan id checks change m d).1
  unfolding Queries.update_scan updated
  update_scan-Present true change m d same (row, found, _) =
      rw found (change row, find_by-update_where_hit (scan_is id) change d.scans row same found, tt)
  update_scan-Present false change m d same (row, found, _) = rw found (row, found, tt)

  pub get_scan-Keeps : Keeps (Present id) (Repository.get_scan id)
  unfolding Repository.get_scan Queries.get_receipt_scan_by_id
  get_scan-Keeps = Keeps-map_err _ _ (Keeps-exec _ (λ w h. h))

  pub set_ocr-Keeps : (text : String) → Keeps (Present id) (Repository.set_ocr_result id text)
  unfolding Repository.set_ocr_result Queries.set_receipt_scan_ocr_result
  set_ocr-Keeps text = Keeps-exec _ (λ w. update_scan-Present true _ (moment w) w.db (λ r. refl))

  pub set_llm-Keeps : (text : String) → Keeps (Present id) (Repository.set_llm_result id text)
  unfolding Repository.set_llm_result Queries.set_receipt_scan_llm_result
  set_llm-Keeps text = Keeps-exec _ (λ w. update_scan-Present true _ (moment w) w.db (λ r. refl))

  pub create_item-Keeps :
      (it : ParsedLineItem) → Keeps (Present id) (Repository.create_scan_item id it)
  unfolding Repository.create_scan_item Queries.create_receipt_scan_item
  create_item-Keeps it =
      Keeps-exec _ (λ w h. inserted_keeps (Present id) _ _ _ _ w.db _ h (λ _ _. h))

  link_Keeps :
      (k i : ℕ) (unit : Option String)
      → Keeps (Present id) (Repository.link_scan_item_to_inventory k i unit)
  unfolding Repository.link_scan_item_to_inventory Queries.link_receipt_scan_item_to_inventory
  link_Keeps k i unit = Keeps-exec _ (λ w h. ground arith)

  pub list_inventories-Keeps : (h : ℕ) → Keeps (Present id) (InventoryRepository.list_inventories h)
  unfolding InventoryRepository.list_inventories InventoryQueries.list_inventories_by_household
  list_inventories-Keeps h = Keeps-exec _ (λ w p. p)

  list_items-Keeps : (i : ℕ) → Keeps (Present id) (InventoryRepository.list_items i)
  unfolding InventoryRepository.list_items InventoryQueries.list_inventory_items
  list_items-Keeps i = Keeps-bind _ _ (Keeps-exec _ (λ w p. p)) (λ rows. Keeps-pure _)

  pub refs_of-Keeps :
      (invs : List InventoryRepository.Inventory) → Keeps (Present id) (Lookup.refs_of invs)
  unfolding Lookup.refs_of
  refs_of-Keeps [] = Keeps-pure _
  refs_of-Keeps (inv ∷ invs) =
      Keeps-bind _ _ (list_items-Keeps inv.id)
        λ items. Keeps-bind _ _ (refs_of-Keeps invs) λ refs. Keeps-pure _

  link_match-Keeps :
      (it : ReceiptScanItem) (ref : Option Lookup.InventoryItemRef)
      → Keeps (Present id) (Worker.link_match it ref)
  unfolding Worker.link_match
  link_match-Keeps it none = Keeps-pure _
  link_match-Keeps it (some ref) = Keeps-ignoring _ (link_Keeps it.id ref.id _)

  pub link_matches-Keeps :
      (refs : List Lookup.InventoryItemRef) (its : List ReceiptScanItem)
      → Keeps (Present id) (Worker.link_matches refs its)
  unfolding Worker.link_matches
  link_matches-Keeps refs [] = Keeps-pure _
  link_matches-Keeps refs (it ∷ its) =
      Keeps-bind _ _ Keeps-env
        λ e. Keeps-bind _ _ (link_match-Keeps it _) λ _. link_matches-Keeps refs its

-- The steps leave the environment as it is.
pub refs_of-Steady : (invs : List InventoryRepository.Inventory) → Steady (Lookup.refs_of invs)
unfolding Lookup.refs_of InventoryRepository.list_items
refs_of-Steady [] = Steady-pure _
refs_of-Steady (inv ∷ invs) =
    Steady-bind _ _ (search steady_rules depth 9)
      λ items. Steady-bind _ _ (refs_of-Steady invs) λ refs. Steady-pure _

link_match-Steady :
    (it : ReceiptScanItem) (ref : Option Lookup.InventoryItemRef)
    → Steady (Worker.link_match it ref)
unfolding Worker.link_match Repository.link_scan_item_to_inventory
link_match-Steady it none = Steady-pure _
link_match-Steady it (some ref) = Steady-ignoring _ (Steady-exec _)

link_matches-Steady :
    (refs : List Lookup.InventoryItemRef) (its : List ReceiptScanItem)
    → Steady (Worker.link_matches refs its)
unfolding Worker.link_matches
link_matches-Steady refs [] = Steady-pure _
link_matches-Steady refs (it ∷ its) =
    Steady-bind _ _ Steady-env
      λ e. Steady-bind _ _ (link_match-Steady it _) λ _. link_matches-Steady refs its

-- The matching with the inventory does not fail.
pub match_inventory-Ends :
    (id h : ℕ) (its : List ReceiptScanItem) → Ends id (λ row. Unit) (Worker.match_inventory h its)
unfolding Worker.match_inventory Lookup.household_items InventoryRepository.list_inventories
match_inventory-Ends id h its =
    sure-Ends id _
      (Steady-bind _ _ (Steady-bind _ _ (Steady-exec _) (λ invs. refs_of-Steady invs))
        (λ refs. link_matches-Steady refs its))
      (Keeps-bind _ _ (Keeps-bind _ _ (list_inventories-Keeps id h) (λ invs. refs_of-Keeps id invs))
        (λ refs. link_matches-Keeps id refs its))

pub create_items-Ends :
    (id : ℕ) (its : List ParsedLineItem) → Ends id (λ row. Unit) (Worker.create_items id its)
unfolding Worker.create_items Repository.create_scan_item
create_items-Ends id [] = pure-Ends id _
create_items-Ends id (it ∷ its) =
    bind-Ends id _ _ (or_fail-Ends id _ _ (Steady-exec _) (create_item-Keeps id it))
      λ ci. bind-Ends id _ _ (create_items-Ends id its) λ created. pure-Ends id _
