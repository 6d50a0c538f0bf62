-- ===== src/Receipt/Commit/Once.antt =====
-- `CommitScan` of baskety/internal/receipt/service.go, called again for a scan that is committed.
use text.Mathlib.Text.{◌==◌ as str_eq}
use text.Mathlib.TextEquality.{eq_iff}
use baskety.Base.{
  ℕ, ◌≡◌, ◌≢◌, refl, sym, ap, ◌∙◌, String, Bool, true, false, some, inl, inr, Bool-cases, List,
  arith,
}
use baskety.Schema.{ScanRow, Db}
use baskety.Table.{find_by}
use baskety.World.{World, Result, Error, ok, err, M, exec, map_err, pure, guard, ◌>>=◌, ◌>>◌}
use baskety.World.Laws.{Result-cases, bind_after_read}
use baskety.Receipt.Queries
use baskety.Receipt.Queries.Rows.{scan_is}
use baskety.Receipt.Repository
use baskety.Receipt.Dto.{CommitScanRequest, ScanResponse}
use baskety.Receipt.Service
use baskety.Receipt.Request.{Request, run}
use baskety.Receipt.Commit.Lasting.{run-Committed}
use baskety.Receipt.Commit.{scope-ok, commit_scan-Purchases}

scope-db : (id h : ℕ) (w : World) → (Service.assert_scan_scope id h w).1.db ≡ w.db
unfolding Service.assert_scan_scope Repository.get_scan Queries.get_receipt_scan_by_id exec map_err
    guard pure ◌>>=◌
scope-db id h w = grind arith

guard_stops {ℓ} :
    {A : Type ℓ} (b : Bool) (e : Error) (k : M A) (w : World)
    → b ≡ false
    → (guard b e >> k) w ≡ (err e, w)
unfolding guard ◌>>=◌
guard_stops b e k w stop = rw stop refl

same_scan :
    (id : ℕ) (d : Db) (a b : ScanRow)
    → find_by (scan_is id) d.scans ≡ some a
    → find_by (scan_is id) d.scans ≡ some b
    → a ≡ b
same_scan id d a b p q = cc

differs : (s t : String) → s ≢ t → str_eq s t ≡ false
differs s t ne = elim (Bool-cases (str_eq s t)) [
  | inl same ↦ absurd (ne ((eq_iff s t).0 same))
  | inr other ↦ other
]

-- Whoever asks to commit a scan that is not pending review gets an error, and nothing is written.
not_reviewed :
    (id h : ℕ) (req : CommitScanRequest) (w : World) (scan : ScanRow)
    → find_by (scan_is id) w.db.scans ≡ some scan
    → scan.status ≢ "pending_review"
    → ((Service.commit_scan id h req w).1.db ≡ w.db)
      × ((e : Error) × ((Service.commit_scan id h req w).0 ≡ err e))
unfolding Service.commit_scan
not_reviewed id h req w scan found other = (
  bind_after_read (λ d. d ≡ w.db) (Service.assert_scan_scope id h) _ w (scope-db id h w) refl
      (λ seen got.
        let (there, _, same) = scope-ok id h w seen got in
        let its = same_scan id w.db scan seen found there in
        let stop =
          differs seen.status "pending_review"
            (λ e. other (ap (λ (s : ScanRow). s.status) its ∙ e)) in
        ap (λ (r : Result ScanResponse × World). r.1.db) (guard_stops _ _ _ _ stop) ∙ same),
  elim (Result-cases (Service.commit_scan id h req w).0) [
    | inl (r, good) ↦
        let (before, _, _, there, _, reviewed, _, _, _, _) =
          commit_scan-Purchases id h req w r good in
        absurd (
          other
            (ap (λ (s : ScanRow). s.status) (same_scan id w.db scan before found there) ∙ reviewed))
    | inr (e, bad) ↦ (e, bad)
  ],
)

not_pending : (s : String) → s ≡ "committed" → s ≢ "pending_review"
not_pending s e f =
    absurd (true_ne_false (sym ((eq_iff "committed" "pending_review").1 (sym e ∙ f))))
  where
    true_ne_false : true ≡ false → ⊥
    true_ne_false p = cc

-- Once `CommitScan` has succeeded for a scan, and whatever requests the receipt service has served
-- since, one after the other, while no job of the worker runs: where it is asked to commit the scan
-- again, whoever asks, it answers with an error and writes nothing, so that no purchase of the scan is
-- recorded again.
pub commit_scan_once :
    (id h h' : ℕ) (req req' : CommitScanRequest) (reqs : List (ℕ × Request)) (w : World)
    (r : ScanResponse)
    → (Service.commit_scan id h req w).0 ≡ ok r
    → let w' = run reqs (Service.commit_scan id h req w).1 in
      ((Service.commit_scan id h' req' w').1.db ≡ w'.db)
      × ((e : Error) × ((Service.commit_scan id h' req' w').0 ≡ err e))
commit_scan_once id h h' req req' reqs w r done =
    let (_, kept, _, _, _, _, there, committed, _, _) = commit_scan-Purchases id h req w r done in
    let w' = run reqs (Service.commit_scan id h req w).1 in
    let (still, found, same) =
      run-Committed id reqs (Service.commit_scan id h req w).1 (kept, there, committed) in
    not_reviewed id h' req' w' still found (not_pending still.status same)
