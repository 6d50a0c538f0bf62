-- ===== src/Receipt/Upload.antt =====
-- `UploadScan` of baskety/internal/receipt/service.go, and the job that it enqueues.
use Prim.Native.String.{◌++◌ as str_append}
use baskety.Base.{
  ℕ, ◌≡◌, refl, sym, ap, ◌∙◌, String, Bool, Bool-cases, inl, inr, false, Option, some, [], ◌∷◌,
  ◌++◌, ==_refl, arith,
}
use baskety.Outside.{Job}
use baskety.Schema.{ScanRow, Db}
use baskety.Table.{find_by}
use baskety.Table.Laws.{find_by-append_new, any_row-imp, AllRows-all}
use baskety.World.{
  World, Env, Stmt, Moment, Result, ok, exec, moment, outside, enqueue, env, pure, ◌>>=◌,
}
use baskety.World.Laws.{bind-eq-ok, guard-eq-ok, exec-eq-ok}
use baskety.World.Steady.{Steady-exec, Steady-enqueue}
use baskety.Integrity.{inserted-eq-ok}
use baskety.Inventory.Dto.{respond}
use baskety.Receipt.Queries
use baskety.Receipt.Queries.Rows.{scan_is}
use baskety.Receipt.Repository
use baskety.Receipt.Dto.{ScanResponse}
use baskety.Receipt.Service
use baskety.Receipt.Worker
use baskety.Receipt.Settled.{Outcome, Marked}
use baskety.Receipt.Settled.Job.{work-settled}

exec-queue {ℓ} : {A : Type ℓ} (s : Stmt A) (w : World) → (exec s w).1.queue ≡ w.queue
unfolding exec
exec-queue s w = elim (Bool-cases (w.env.fault w.ticks)) [
  | inl bad ↦ rw bad refl
  | inr good ↦ rw good refl
]

enqueue-eq-ok :
    (job : Job) (w : World)
    → (enqueue job w).0 ≡ ok tt
    → ((enqueue job w).1.db ≡ w.db) × ((enqueue job w).1.queue ≡ w.queue ++ job ∷ [])
unfolding enqueue
enqueue-eq-ok job w h = elim (Bool-cases (w.env.cancelled w.ticks)) [
  | inl late ↦ absurd (ground (arith, h, late))
  | inr room ↦ rw room (refl, refl)
]

scan_inserted :
    (h : ℕ) (l : Option ℕ) (path : String) (u : ℕ) (m : Moment) (d : Db) (row : ScanRow)
    → (Queries.create_receipt_scan h l path u m d).0 ≡ ok row
    → (find_by (scan_is row.id) (Queries.create_receipt_scan h l path u m d).1.scans ≡ some row)
      × (row.status ≡ "uploading")
      × (row.household_id ≡ h)
unfolding Queries.create_receipt_scan
scan_inserted h l path u m d row e =
    let (same, clash, _, _, ran) = inserted-eq-ok _ _ _ _ d _ row e in
    (
      rw ran (
          rw (← same) (
            find_by-append_new (scan_is m.fresh) d.scans _
              (any_row-imp _ _ d.scans (AllRows-all _ d.scans (λ x. ground arith)) clash)
              (==_refl m.fresh))),
      sym (ap (λ (r : ScanRow). r.status) same),
      sym (ap (λ (r : ScanRow). r.household_id) same),
    )

-- Where no statement fails and uuids are read back as they were written: where `UploadScan` succeeds,
-- one job was added to the queue, and that job, run on what the upload left, finds the scan of the
-- household and does not leave it in processing. The scan is pending review after a success, and after
-- an error it has failed with a message.
pub upload_scan-work :
    (h u : ℕ) (l : Option ℕ) (filename : String) (image : Bool) (w : World) (r : ScanResponse)
    → ((k : ℕ) → w.env.fault k ≡ false)
    → ((k : ℕ) → w.env.uuid_parse (w.env.uuid_string k) ≡ some k)
    → (Service.upload_scan h u l filename image w).0 ≡ ok r
    → let w' = (Service.upload_scan h u l filename image w).1 in
      (row : ScanRow) × (find_by (scan_is row.id) w'.db.scans ≡ some row)
      × (row.household_id ≡ h)
      × (w'.queue ≡ w.queue ++ Service.scan_job (w.env.uuid_string row.id) ∷ [])
      × Outcome row.id
          (Marked "pending_review")
          (Worker.work (w.env.uuid_string row.id) w').0
          (Worker.work (w.env.uuid_string row.id) w').1.db
unfolding Service.upload_scan Repository.create_scan respond env pure outside ◌>>=◌
upload_scan-work h u l filename image w r calm readable e =
    let w' = (Service.upload_scan h u l filename image w).1 in
    let (_, s0, e0) = guard-eq-ok image _ _ w r e in
    let store =
      outside
        λ v k. v.store_file k (str_append (v.uuid_string (v.fresh k)) (Service.ext filename)) in
    let (path, _, s1, e1) = bind-eq-ok store _ w r e0 in
    let w1 = (store w).1 in
    let insert = Queries.create_receipt_scan h l path u in
    let (row, got, s2, e2) = bind-eq-ok (exec insert) _ w1 r e1 in
    let w2 = (exec insert w1).1 in
    let (made, db2) = exec-eq-ok insert w1 row got in
    let (found, _, mine) = scan_inserted h l path u (moment w1) w1.db row made in
    let job = Service.scan_job (w2.env.uuid_string row.id) in
    let (_, sent, s4, _) = bind-eq-ok (enqueue job) _ w2 r e2 in
    let w3 = (enqueue job w2).1 in
    let (db3, queue) = enqueue-eq-ok job w2 sent in
    let final : w' ≡ w3 = ap (λ (x : Result ScanResponse × World). x.1) (s0 ∙ s1 ∙ s2 ∙ s4) in
    let same : w'.env ≡ w.env =
      ap (λ (x : World). x.env) final ∙ (Steady-enqueue job).at w2 ∙ (Steady-exec insert).at w1 in
    let there : find_by (scan_is row.id) w'.db.scans ≡ some row =
      ap (λ (x : World). find_by (scan_is row.id) x.db.scans) final
      ∙ ap (λ (d : Db). find_by (scan_is row.id) d.scans) (db3 ∙ db2)
      ∙ found in
    (
      row,
      there,
      mine,
      ap (λ (x : World). x.queue) final
          ∙ queue
          ∙ ap (λ q. q ++ job ∷ []) (exec-queue insert w1)
          ∙ ap (λ (v : Env). w.queue ++ Service.scan_job (v.uuid_string row.id) ∷ [])
              ((Steady-exec insert).at w1),
      work-settled (w.env.uuid_string row.id) row.id w' row
          (λ k. ap (λ (v : Env). v.fault k) same ∙ calm k)
          (ap (λ (v : Env). v.uuid_parse (w.env.uuid_string row.id)) same ∙ readable row.id) there,
    )
