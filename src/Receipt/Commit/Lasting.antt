-- ===== src/Receipt/Commit/Lasting.antt =====
-- What the service of baskety/internal/receipt/service.go leaves of a scan that is committed.
use baskety.Base.{
  ℕ, ◌≡◌, refl, ◌==◌, String, true, false, Bool-cases, inl, inr, Option, none, some, List, [], ◌∷◌,
  arith,
}
use baskety.Schema.{ScanRow, Db}
use baskety.Table.{find_by, update_where}
use baskety.Table.Laws.{
  find_by-update_where_found, find_by-append_found, find_by-update_where_other,
}
use baskety.World.{World, Moment, moment, Error, not_found, inventory, receipt, invalid_input}
use baskety.World.Laws.{
  Keeps, keeps_rules, Keeps-exec, Keeps-bind, Keeps-pure, Keeps-map_err, Keeps-caught, Keeps-raise,
  Keeps-ignoring, Keeps-enqueue, Keeps-env,
}
use baskety.Sql.{updated}
use baskety.Integrity.{inserted_keeps}
use baskety.Inventory.Dto.{respond}
use baskety.Inventory.Repository as InventoryRepository
use baskety.Inventory.Queries as InventoryQueries
use baskety.Receipt.Queries
use baskety.Receipt.Queries.Rows.{scan_is, scan_status}
use baskety.Receipt.Repository
use baskety.Receipt.Repository.{ReceiptScanItem}
use baskety.Receipt.Lookup
use baskety.Receipt.Service
use baskety.Receipt.Request.{
  Request, serve, upload_scan, list_scans, get_scan, get_scan_items, update_scan_item, commit_scan,
  run,
}
use baskety.Receipt.Settled.{Scan}

abbrev pub Committed : ℕ → Db → Type 0
Committed id = Scan id (λ row. row.status ≡ "committed")

module _ (id : ℕ) where
  -- Statements on other tables.
  get_scan-Keeps : (i : ℕ) → Keeps (Committed id) (Repository.get_scan i)
  unfolding Repository.get_scan Queries.get_receipt_scan_by_id
  get_scan-Keeps i = Keeps-map_err _ _ (Keeps-exec _ (λ w h. h))

  list_scans-Keeps : (h : ℕ) → Keeps (Committed id) (Repository.list_scans_by_household h)
  unfolding Repository.list_scans_by_household Queries.list_receipt_scans_by_household
  list_scans-Keeps h = Keeps-exec _ (λ w p. p)

  list_lines-Keeps : (i : ℕ) → Keeps (Committed id) (Repository.list_scan_items i)
  unfolding Repository.list_scan_items Queries.list_receipt_scan_items
  list_lines-Keeps i = Keeps-exec _ (λ w p. p)

  correct_Keeps :
      (i : ℕ) (c : Queries.Correction) → Keeps (Committed id) (Repository.update_scan_item i c)
  unfolding Repository.update_scan_item Queries.update_receipt_scan_item_status updated
  correct_Keeps i c = Keeps-map_err _ _ (Keeps-exec _ (λ w h. ground arith))

  link_Keeps :
      (k i : ℕ) (unit : Option String)
      → Keeps (Committed id) (Repository.link_scan_item_to_inventory k i unit)
  unfolding Repository.link_scan_item_to_inventory Queries.link_receipt_scan_item_to_inventory
  link_Keeps k i unit = Keeps-exec _ (λ w h. ground arith)

  get_item-Keeps : (i : ℕ) → Keeps (Committed id) (InventoryRepository.get_item i)
  unfolding InventoryRepository.get_item InventoryQueries.get_inventory_item_by_id
  get_item-Keeps i =
      Keeps-bind _ _ (Keeps-map_err _ _ (Keeps-exec _ (λ w p. p))) (λ row. Keeps-pure _)

  purchase_Keeps :
      (h i at : ℕ) → Keeps (Committed id) (Repository.create_purchase_transaction h i at)
  unfolding Repository.create_purchase_transaction Repository.get_scan_item Queries.get_scan_item
      Queries.create_purchase_transaction
  purchase_Keeps h i at =
      Keeps-bind _ _ (Keeps-map_err _ _ (Keeps-exec _ (λ w p. p)))
        λ si. Keeps-exec _ (λ w p. inserted_keeps (Committed id) _ _ _ _ w.db _ p (λ _ _. p))

  -- A new scan comes after those that are there.
  create_scan-Keeps :
      (h u : ℕ) (l : Option ℕ) (path : String)
      → Keeps (Committed id) (Repository.create_scan h l path u)
  unfolding Repository.create_scan Queries.create_receipt_scan
  create_scan-Keeps h u l path = Keeps-exec _ λ w p.
      inserted_keeps (Committed id) _ _ _ _ w.db _ p
        (λ _ _. (p.0, find_by-append_found (scan_is id) w.db.scans _ p.0 p.1, p.2))

  -- A commit leaves a committed scan committed, whether it is of this scan or of another.
  marked_Committed :
      (i : ℕ) (m : Moment) (d : Db)
      → Committed id d
      → Committed id (record d {
        scans = update_where (scan_is i) (Queries.scan_marked m "committed" none) d.scans;
      })
  marked_Committed i m d (row, found, done) = elim (Bool-cases (row.id == i)) [
    | inl same ↦ (
      Queries.scan_marked m "committed" none row,
      find_by-update_where_found (scan_is id) (scan_is i) (Queries.scan_marked m "committed" none)
          d.scans row (λ x. refl) found same,
      refl,
    )
    | inr other ↦ (
      row,
      find_by-update_where_other (scan_is id) (scan_is i) (Queries.scan_marked m "committed" none)
          d.scans row (λ x. refl) found other,
      done,
    )
  ]

  mark_Keeps : (i : ℕ) → Keeps (Committed id) (Repository.update_scan_status i "committed" none)
  unfolding Repository.update_scan_status Queries.update_receipt_scan_status Queries.update_scan
      updated scan_status
  mark_Keeps i =
      Keeps-map_err _ _ (Keeps-exec _ (λ w p. one_marked (find_by (scan_is i) w.db.scans) w p))
    where
      one_marked :
          (found : Option ScanRow) (w : World)
          → Committed id w.db
          → Committed id
              (updated found true
                (λ row. false)
                (Queries.scan_marked (moment w) "committed" none)
                w.db
                (record w.db {
                  scans =
                      update_where
                        (scan_is i)
                        (Queries.scan_marked (moment w) "committed" none)
                        w.db.scans;
                })).1
      one_marked none w p = p
      one_marked (some r) w p = marked_Committed i (moment w) w.db p

  ruleset statements = (
    keeps_rules, get_scan-Keeps, list_scans-Keeps, list_lines-Keeps, correct_Keeps, link_Keeps,
    get_item-Keeps, purchase_Keeps, create_scan-Keeps, mark_Keeps,
  )

  scope_Keeps : (i h : ℕ) → Keeps (Committed id) (Service.assert_scan_scope i h)
  unfolding Service.assert_scan_scope
  scope_Keeps i h = search statements depth 9

  item_unit-Keeps : (i : ℕ) → Keeps (Committed id) (Lookup.item_unit i)
  unfolding Lookup.item_unit
  item_unit-Keeps i = Keeps-caught _ _ not_there-Keeps (search statements depth 9)
    where
      not_there-Keeps : (e : Error) → Keeps (Committed id) (Lookup.not_there e)
      not_there-Keeps (not_found inventory) = Keeps-pure _
      not_there-Keeps e = Keeps-raise _

  link_item-Keeps :
      (i : ℕ) (it : ReceiptScanItem) (raw : Option String)
      → Keeps (Committed id) (Service.link_item i it raw)
  unfolding Service.link_item Service.stored_unit
  link_item-Keeps i it none = Keeps-pure _
  link_item-Keeps i it (some raw) = Keeps-bind _ _ Keeps-env λ e.
      Keeps-bind _ _ (required_Keeps (e.uuid_parse raw))
        λ inv. search (statements, item_unit-Keeps) depth 9
    where
      required_Keeps :
          (o : Option ℕ) → Keeps (Committed id) (Service.required (invalid_input receipt) o)
      required_Keeps none = Keeps-raise _
      required_Keeps (some a) = Keeps-pure _

  purchases_Keeps :
      (h at : ℕ) (its : List ReceiptScanItem)
      → Keeps (Committed id) (Service.create_transactions h at its)
  unfolding Service.create_transactions Service.create_transaction
  purchases_Keeps h at [] = Keeps-pure _
  purchases_Keeps h at (it ∷ its) = elim (Bool-cases (Service.purchased it)) [
    | inl bought ↦ rw bought (
        Keeps-bind _ _ (purchase_Keeps h it.id at)
          λ txn. Keeps-bind _ _ (purchases_Keeps h at its) λ ids. Keeps-pure _)
    | inr left ↦ rw left (purchases_Keeps h at its)
  ]

  jobs_Keeps : (ids : List ℕ) → Keeps (Committed id) (Service.enqueue_transactions ids)
  unfolding Service.enqueue_transactions
  jobs_Keeps [] = Keeps-pure _
  jobs_Keeps (i ∷ ids) =
      Keeps-bind _ _ Keeps-env
        λ e. Keeps-bind _ _ (Keeps-ignoring _ (Keeps-enqueue _)) λ _. jobs_Keeps ids

  ruleset parts = (statements, scope_Keeps, link_item-Keeps, purchases_Keeps, jobs_Keeps)

  serve-Keeps : (h : ℕ) (req : Request) → Keeps (Committed id) (serve h req)
  unfolding serve respond Service.upload_scan Service.list_scans Service.get_scan
      Service.get_scan_items Service.update_scan_item Service.commit_scan
  serve-Keeps h (upload_scan user_id list_id filename image) = search parts depth 12
  serve-Keeps h list_scans = search parts depth 12
  serve-Keeps h (get_scan i) = search parts depth 12
  serve-Keeps h (get_scan_items i) = search parts depth 12
  serve-Keeps h (update_scan_item item_id i req) = search parts depth 12
  serve-Keeps h (commit_scan i req) = search parts depth 12

  -- Whatever requests are served, a committed scan stays committed.
  pub run-Committed :
      (reqs : List (ℕ × Request)) (w : World) → Committed id w.db → Committed id (run reqs w).db
  unfolding run
  run-Committed [] w p = p
  run-Committed ((h, req) ∷ reqs) w p =
      run-Committed reqs (serve h req w).1 ((serve-Keeps h req).at w p)
