-- ===== src/Receipt/Tests.antt =====
-- Runs of the receipt service and its worker on the database of `Fixture`.
use baskety.Base.{ℕ, ◌≡◌, refl, String, true, none, some, List, [], ◌∷◌, ◌++◌}
use baskety.World.{err, Error, exec, map_err, guard, pure, env, enqueue, ignoring, outside, ◌>>=◌}
use baskety.Fixture.{start, ids_readable}
use baskety.Schema.{ScanRow, TransactionRow}
use baskety.Table.{find_by, select, order_by, insert_sorted, update_where, any_row}
use baskety.Sql.{inserted, updated, char_fits, char_padded}
use baskety.Inventory.Dto.{respond}
use baskety.Receipt.Queries
use baskety.Receipt.Queries.Rows.{scan_is, scan_status}
use baskety.Receipt.Repository
use baskety.Receipt.Dto.{CommitScanRequest, to_scan_response}
use baskety.Receipt.Service
use baskety.Receipt.Worker
use baskety.Receipt.Settled.{Outcome, Marked}
use baskety.Receipt.Settled.Job.{work-settled}
use baskety.Receipt.Upload.{upload_scan-work}
use baskety.Receipt.Commit.{bought, lines_of, commit_scan-Purchases}
use baskety.Receipt.Commit.Loop.{Purchases}
use baskety.Receipt.Request.{Request, upload_scan, get_scan, commit_scan, run}
use baskety.Receipt.Commit.Once.{commit_scan_once}

-- The text of the id 70.
abbrev seventy : String
seventy = "xxxxxxxxxxxxxxxxxxxxxxxxxxxxxxxxxxxxxxxxxxxxxxxxxxxxxxxxxxxxxxxxxxxxxx"

work-settled_example :
    Outcome 70
      (Marked "pending_review")
      (Worker.work seventy start).0
      (Worker.work seventy start).1.db
unfolding find_by
work-settled_example = work-settled seventy 70 start _ (λ k. refl) refl refl

upload_scan-work_example :
    let w' = (Service.upload_scan 1 5 none "receipt.png" true start).1 in
    (row : ScanRow) × (find_by (scan_is row.id) w'.db.scans ≡ some row)
    × (row.household_id ≡ 1)
    × (w'.queue ≡ [] ++ Service.scan_job (start.env.uuid_string row.id) ∷ [])
    × Outcome row.id
        (Marked "pending_review")
        (Worker.work (start.env.uuid_string row.id) w').0
        (Worker.work (start.env.uuid_string row.id) w').1.db
unfolding Service.upload_scan Service.ext Repository.create_scan Queries.create_receipt_scan
    to_scan_response respond env pure outside guard enqueue exec inserted any_row ◌>>=◌
upload_scan-work_example =
    upload_scan-work 1 5 none "receipt.png" true start _ (λ k. refl) ids_readable refl

abbrev today : CommitScanRequest
today = record { purchased_at = 9 }

commit_scan-Purchases_example :
    let d' = (Service.commit_scan 71 2 today start).1.db in
    (scan kept : ScanRow) × (rows : List TransactionRow) × (find_by (scan_is 71) start.db.scans
      ≡ some scan)
    × (scan.household_id ≡ 2)
    × (scan.status ≡ "pending_review")
    × (find_by (scan_is 71) d'.scans ≡ some kept)
    × (kept.status ≡ "committed")
    × Purchases start.db.scan_items 2 9 (select bought (lines_of 71 start.db)) rows
    × (d'.transactions ≡ start.db.transactions ++ rows)
unfolding Service.commit_scan Service.assert_scan_scope Service.create_transactions
    Service.create_transaction Service.enqueue_transactions Repository.get_scan
    Repository.list_scan_items Repository.create_purchase_transaction Repository.get_scan_item
    Repository.update_scan_status Queries.get_receipt_scan_by_id Queries.list_receipt_scan_items
    Queries.get_scan_item Queries.create_purchase_transaction Queries.update_receipt_scan_status
    Queries.update_scan scan_status to_scan_response respond env pure guard enqueue ignoring exec
    map_err inserted updated any_row find_by select order_by insert_sorted update_where char_fits
    char_padded ◌>>=◌
commit_scan-Purchases_example = commit_scan-Purchases 71 2 today start _ refl

abbrev meanwhile : List (ℕ × Request)
meanwhile =
    (1, upload_scan 5 none "receipt.png" true) ∷ (2, get_scan 71) ∷ (2, commit_scan 71 today) ∷ []

commit_scan_once_example :
    let w' = run meanwhile (Service.commit_scan 71 2 today start).1 in
    ((Service.commit_scan 71 2 today w').1.db ≡ w'.db)
    × ((e : Error) × ((Service.commit_scan 71 2 today w').0 ≡ err e))
unfolding Service.commit_scan Service.assert_scan_scope Service.create_transactions
    Service.create_transaction Service.enqueue_transactions Repository.get_scan
    Repository.list_scan_items Repository.create_purchase_transaction Repository.get_scan_item
    Repository.update_scan_status Queries.get_receipt_scan_by_id Queries.list_receipt_scan_items
    Queries.get_scan_item Queries.create_purchase_transaction Queries.update_receipt_scan_status
    Queries.update_scan scan_status to_scan_response respond env pure guard enqueue ignoring exec
    map_err inserted updated any_row find_by select order_by insert_sorted update_where char_fits
    char_padded ◌>>=◌
commit_scan_once_example = commit_scan_once 71 2 2 today today meanwhile start _ refl
