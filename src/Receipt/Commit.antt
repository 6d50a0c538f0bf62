-- ===== src/Receipt/Commit.antt =====
-- `CommitScan` of baskety/internal/receipt/service.go.
pub mod Loop
pub mod Jobs
pub mod Lasting
pub mod Once
use mathlib.Core.Path.{subst₂}
use text.Mathlib.Text.{◌==◌ as str_eq}
use text.Mathlib.TextEquality.{eq_iff}
use baskety.Base.{
  ◌||◌, ℕ, ◌≡◌, refl, sym, ap, ◌∙◌, String, Bool, Option-cases, inl, inr, true, false, Option, none,
  some, List, [], ◌∷◌, ◌++◌, map, leb, ◌==◌, ==_iff,
}
use baskety.Schema.{ScanRow, ScanItemRow, TransactionRow, Db}
use baskety.Table.{find_by, select, order_by}
use baskety.Table.Laws.{find_by-update_where_hit}
use baskety.World.{World, Result, ok, err, moment, Moment, exec, map_err, pure, no_rows}
use baskety.World.Laws.{bind-eq-ok, guard-eq-ok, exec-eq-ok, map_err-eq-ok, pure-eq-ok, bind_reads}
use baskety.Sql.{updated}
use baskety.Integrity.{one-eq-ok}
use baskety.Inventory.Effective.{respond-db}
use baskety.Receipt.Queries
use baskety.Receipt.Queries.Rows.{scan_is, scan_item_of, scan_status}
use baskety.Receipt.Repository
use baskety.Receipt.Dto.{CommitScanRequest, ScanResponse, to_scan_response}
use baskety.Receipt.Service
use baskety.Receipt.Settled.{status_set}
use baskety.Receipt.Commit.Loop.{Purchases, Recorded, create_transactions-Recorded}
use baskety.Receipt.Commit.Jobs.{enqueue-db}

pub scope-ok :
    (id h : ℕ) (w : World) (scan : ScanRow)
    → (Service.assert_scan_scope id h w).0 ≡ ok scan
    → (find_by (scan_is id) w.db.scans ≡ some scan)
      × (scan.household_id ≡ h)
      × ((Service.assert_scan_scope id h w).1.db ≡ w.db)
unfolding Service.assert_scan_scope Repository.get_scan Queries.get_receipt_scan_by_id map_err pure
scope-ok id h w scan e =
    let read = exec (Queries.get_receipt_scan_by_id id) in
    let (found, got, step, rest) = bind-eq-ok (Repository.get_scan id) _ w scan e in
    let (mine, step', rest') = guard-eq-ok _ _ _ (Repository.get_scan id w).1 scan rest in
    let (row, db) = exec-eq-ok _ w found (map_err-eq-ok Repository.or_not_found read w found got) in
    let same : found ≡ scan = pure-eq-ok found scan (Repository.get_scan id w).1 rest' in
    (
      one-eq-ok _ found row ∙ ap some same,
      sym (ap (λ (r : ScanRow). r.household_id) same) ∙ (==_iff found.household_id h).0 mine,
      ap (λ (r : Result ScanRow × World). r.1.db) (step ∙ step') ∙ db,
    )

ok_injective {ℓ} : {A : Type ℓ} (a b : A) → ok a ≡ ok b → a ≡ b
ok_injective a b h = cc

nothing_set :
    (id : ℕ) (status : String) (msg : Option String) (m : Moment) (d : Db)
    → find_by (scan_is id) d.scans ≡ none
    → Queries.update_receipt_scan_status id status msg m d ≡ (err no_rows, d)
unfolding Queries.update_receipt_scan_status Queries.update_scan updated
nothing_set id status msg m d gone = rw gone refl

-- Where the status is set, the scan is there with it.
pub status_written :
    (id : ℕ) (status : String) (msg : Option String) (w : World) (row : ScanRow)
    → scan_status status ≡ true
    → (Repository.update_scan_status id status msg w).0 ≡ ok row
    → ((Repository.update_scan_status id status msg w).1.db.transactions ≡ w.db.transactions)
      × ((kept : ScanRow) × (find_by
              (scan_is id)
              (Repository.update_scan_status id status msg w).1.db.scans
            ≡ some kept)
          × (kept.status ≡ status))
unfolding Repository.update_scan_status map_err
status_written id status msg w row valid h =
    let set = Queries.update_receipt_scan_status id status msg in
    let (made, db) =
      exec-eq-ok set w row (map_err-eq-ok Repository.or_not_found (exec set) w row h) in
    elim (Option-cases (find_by (scan_is id) w.db.scans)) [
      | inl gone ↦ absurd (
          cc (
            made,
            ap (λ (r : Result ScanRow × Db). r.0) (nothing_set id status msg (moment w) w.db gone),
          ))
      | inr (before, found) ↦
          let ran = status_set id status msg valid (moment w) w.db before found in
          let change = Queries.scan_marked (moment w) status msg in
          (
            ap (λ (d : Db). d.transactions) db
                ∙ ap (λ (r : Result ScanRow × Db). r.1.transactions) ran,
            (
              change before,
              ap (λ (d : Db). find_by (scan_is id) d.scans) db
                  ∙ ap (λ (r : Result ScanRow × Db). find_by (scan_is id) r.1.scans) ran
                  ∙ find_by-update_where_hit (scan_is id) change w.db.scans before (λ x. refl)
                      found,
              refl,
            ),
          )
    ]

-- The lines of a scan, in the order of the statement that reads them.
abbrev pub lines_of : ℕ → Db → List ScanItemRow
lines_of id d =
    order_by (λ (a b : ScanItemRow). leb a.created_at b.created_at)
      (select (scan_item_of id) d.scan_items)

-- A line that was accepted, or corrected.
abbrev pub bought : ScanItemRow → Bool
bought it = str_eq it.status "accepted" || str_eq it.status "corrected"

-- Where `CommitScan` succeeds, the scan was pending review and the household's, it is committed
-- afterwards, and one purchase for each accepted or corrected line was added to the transactions, in
-- the order of the lines and by the corrected values where there are any.
pub commit_scan-Purchases :
    (id h : ℕ) (req : CommitScanRequest) (w : World) (r : ScanResponse)
    → (Service.commit_scan id h req w).0 ≡ ok r
    → let d' = (Service.commit_scan id h req w).1.db in
      (scan kept : ScanRow) × (rows : List TransactionRow) × (find_by (scan_is id) w.db.scans
        ≡ some scan)
      × (scan.household_id ≡ h)
      × (scan.status ≡ "pending_review")
      × (find_by (scan_is id) d'.scans ≡ some kept)
      × (kept.status ≡ "committed")
      × Purchases w.db.scan_items h req.purchased_at (select bought (lines_of id w.db)) rows
      × (d'.transactions ≡ w.db.transactions ++ rows)
unfolding Service.commit_scan Repository.list_scan_items Queries.list_receipt_scan_items scan_status
commit_scan-Purchases id h req w r e =
    let (scan, got0, s0, e0) = bind-eq-ok (Service.assert_scan_scope id h) _ w r e in
    let (found, mine, db0) = scope-ok id h w scan got0 in
    let w0 = (Service.assert_scan_scope id h w).1 in
    let (reviewed, s1, e1) = guard-eq-ok _ _ _ w0 r e0 in
    let (its, got2, s2, e2) = bind-eq-ok (exec (Queries.list_receipt_scan_items id)) _ w0 r e1 in
    let (listed, db2) = exec-eq-ok _ w0 its got2 in
    let w2 = (exec (Queries.list_receipt_scan_items id) w0).1 in
    let (ids, got3, s3, e3) =
      bind-eq-ok (Service.create_transactions h req.purchased_at its) _ w2 r e2 in
    let (rows, list, db3, _) = create_transactions-Recorded h req.purchased_at its w2 ids got3 in
    let w3 = (Service.create_transactions h req.purchased_at its w2).1 in
    let (row, got4, s4, e4) =
      bind-eq-ok (Repository.update_scan_status id "committed" none) _ w3 r e3 in
    let (same4, (kept, found4, marked)) = status_written id "committed" none w3 row refl got4 in
    let w4 = (Repository.update_scan_status id "committed" none w3).1 in
    let last : (Service.commit_scan id h req w).1.db ≡ w4.db =
      ap (λ (x : Result ScanResponse × World). x.1.db) (s0 ∙ s1 ∙ s2 ∙ s3 ∙ s4)
      ∙ bind_reads _ _ w4 (λ _. respond-db to_scan_response row)
      ∙ enqueue-db ids w4 in
    let same : w2.db ≡ w.db = db2 ∙ db0 in
    (
      scan,
      kept,
      rows,
      found,
      mine,
      (eq_iff scan.status "pending_review").0 reviewed,
      ap (λ (d : Db). find_by (scan_is id) d.scans) last ∙ found4,
      marked,
      subst₂ (λ (ls xs : List ScanItemRow). Purchases ls h req.purchased_at (select bought xs) rows)
          (ap (λ (d : Db). d.scan_items) same)
          (sym (ok_injective _ its listed) ∙ ap (lines_of id) db0) list,
      ap (λ (d : Db). d.transactions) (last)
          ∙ same4
          ∙ ap (λ (d : Db). d.transactions) db3
          ∙ ap (λ (d : Db). d.transactions ++ rows) same,
    )
