-- ===== src/Receipt/Settled/Job.antt =====
-- `Work` of baskety/internal/receipt/worker.go.
use baskety.Base.{ℕ, ◌≡◌, refl, String, some, false}
use baskety.Schema.{ScanRow}
use baskety.Table.{find_by}
use baskety.World.{World, env, ◌>>=◌, pure}
use baskety.World.Laws.{Keeps-outside}
use baskety.World.Steady.{Steady-outside, Steady-exec, Steady-map_err}
use baskety.Receipt.Queries.Rows.{scan_is, scan_status}
use baskety.Receipt.Repository
use baskety.Receipt.Worker
use baskety.Receipt.Settled.{
  Ends, Outcome, Marked, bind-Ends, or_fail-Ends, last-Ends, update_status-Ends,
}
use baskety.Receipt.Settled.Steps.{
  get_scan-Keeps, set_ocr-Keeps, set_llm-Keeps, create_items-Ends, match_inventory-Ends,
}

pipeline-Ends : (id : ℕ) → Ends id (Marked "pending_review") (Worker.pipeline id)
unfolding Worker.pipeline scan_status Repository.get_scan Repository.set_ocr_result
    Repository.set_llm_result
pipeline-Ends id =
    bind-Ends id _ _ (or_fail-Ends id _ _ (Steady-map_err _ _ (Steady-exec _)) (get_scan-Keeps id))
      λ scan. bind-Ends id _ _ (update_status-Ends id "ocr_processing" refl) λ _.
        bind-Ends id _ _ (or_fail-Ends id _ _ (Steady-outside _) (Keeps-outside _)) λ text.
          bind-Ends id _ _ (or_fail-Ends id _ _ (Steady-exec _) (set_ocr-Keeps id text)) λ _.
            bind-Ends id _ _ (or_fail-Ends id _ _ (Steady-outside _) (Keeps-outside _)) λ _.
              bind-Ends id _ _ (or_fail-Ends id _ _ (Steady-outside _) (Keeps-outside _)) λ parsed.
                bind-Ends id _ _ (create_items-Ends id parsed.0) λ created.
                  bind-Ends id _ _ (match_inventory-Ends id scan.household_id created) λ _.
                    bind-Ends id _ _
                      (or_fail-Ends id _ _ (Steady-exec _) (set_llm-Keeps id parsed.1))
                      λ _. last-Ends id _ _ tt (update_status-Ends id "pending_review" refl)

-- Where no statement fails and the scan that the job names is there, the job does not leave it in
-- processing: after a success it is pending review without an error message, and after any error,
-- of the reader of images, of the language model or of a line, it has failed with a message.
pub work-settled :
    (text : String) (id : ℕ) (w : World) (before : ScanRow)
    → ((k : ℕ) → w.env.fault k ≡ false)
    → w.env.uuid_parse text ≡ some id
    → find_by (scan_is id) w.db.scans ≡ some before
    → Outcome id (Marked "pending_review") (Worker.work text w).0 (Worker.work text w).1.db
unfolding Worker.work ◌>>=◌ env pure
work-settled text id w before calm named found =
    rw named ((pipeline-Ends id).at w calm (before, found, tt))
