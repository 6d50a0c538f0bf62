-- ===== src/Receipt/Settled.antt =====
-- The end of the job of baskety/internal/receipt/worker.go: what becomes of the scan on each path.
pub mod Steps
pub mod Job
use baskety.Base.{
  ℕ, ◌≡◌, refl, sym, ap, ◌∙◌, ◌≢◌, inl, inr, String, Bool, true, false, Option, none, some, List,
  [], ◌∷◌, arith, Bool-cases,
}
use baskety.Schema.{ScanRow, Db}
use baskety.Table.{find_by, update_where}
use baskety.Table.Laws.{find_by-update_where_hit}
use baskety.World.{
  Error, Stmt, Result, ok, err, Env, World, M, Moment, exec, moment, answered, recovered, caught,
  pure, raise, map_err, env, ignoring, outside, ◌>>=◌, ◌>>◌,
}
use baskety.Sql.{updated}
use baskety.World.Laws.{
  exec_runs, Result-cases, Keeps, Keeps-exec, Keeps-map_err, Keeps-bind, Keeps-pure, Keeps-env,
  Keeps-ignoring,
}
use baskety.World.Steady.{
  Steady, steady_rules, Steady-bind, Steady-pure, Steady-caught, Steady-ignoring,
}
use baskety.Receipt.Queries
use baskety.Receipt.Queries.Rows.{scan_is, scan_status}
use baskety.Receipt.Repository
use baskety.Receipt.Repository.{ReceiptScanItem}
use baskety.Receipt.Lookup
use baskety.Receipt.Worker
use baskety.Inventory.Repository as InventoryRepository
use baskety.Inventory.Queries as InventoryQueries
use baskety.Integrity.{inserted_keeps}
use baskety.Outside.{ParsedLineItem}

-- The scan is there, and what is said of its row holds.
abbrev pub Scan : ℕ → (ScanRow → Type 0) → Db → Type 0
Scan id P d = (row : ScanRow) × (find_by (scan_is id) d.scans ≡ some row) × P row

abbrev pub Present : ℕ → Db → Type 0
Present id = Scan id (λ row. Unit)

-- The scan has failed, and the user is told why.
abbrev pub Failed : ScanRow → Type 0
Failed row = (row.status ≡ "failed") × (row.error_message ≢ none)

abbrev pub Marked : String → ScanRow → Type 0
Marked status row = (row.status ≡ status) × (row.error_message ≡ none)

-- No statement fails.
abbrev pub Calm : Env → Type 0
Calm e = (k : ℕ) → e.fault k ≡ false

-- After a success `P` holds of the scan; after an error the scan has failed.
abbrev pub Outcome {ℓ} : {A : Type ℓ} → ℕ → (ScanRow → Type 0) → Result A → Db → Type 0
Outcome id P (ok a) d = Scan id P d
Outcome id P (err e) d = Scan id Failed d

pub record Ends {ℓ} {A : Type ℓ} (id : ℕ) (P : ScanRow → Type 0) (m : M A) : Type ℓ where
  pub steady : Steady m
  pub at : (w : World) → Calm w.env → Present id w.db → Outcome id P (m w).0 (m w).1.db

pub Calm-after {ℓ} : {A : Type ℓ} (m : M A) (w : World) → Steady m → Calm w.env → Calm (m w).1.env
Calm-after m w s calm k = ap (λ (e : Env). e.fault k) (s.at w) ∙ calm k

module _ (id : ℕ) (status : String) (msg : Option String) (valid : scan_status status ≡ true) where
  pub status_set :
      (m : Moment) (d : Db) (row : ScanRow)
      → find_by (scan_is id) d.scans ≡ some row
      → let change = Queries.scan_marked m status msg in
        Queries.update_receipt_scan_status id status msg m d
        ≡ (ok (change row), record d { scans = update_where (scan_is id) change d.scans })
  unfolding Queries.update_receipt_scan_status Queries.update_scan updated
  status_set m d row found = rw found (rw valid refl)

  -- In a calm world the status of a scan that is there is set.
  update_status :
      (w : World)
      → Calm w.env
      → Present id w.db
      → (row : ScanRow) × ((Repository.update_scan_status id status msg w).0 ≡ ok row)
        × (row.status ≡ status)
        × (row.error_message ≡ msg)
        × (find_by (scan_is id) (Repository.update_scan_status id status msg w).1.db.scans
            ≡ some row)
  unfolding Repository.update_scan_status map_err
  update_status w calm (row, found, _) =
      let change = Queries.scan_marked (moment w) status msg in
      let ran =
        exec_runs (Queries.update_receipt_scan_status id status msg) w (calm w.ticks)
        ∙ ap (λ r. answered r w) (status_set (moment w) w.db row found) in
      (
        change row,
        ap (λ (r : Result ScanRow × World). recovered Repository.or_not_found r.0) ran,
        refl,
        refl,
        ap (λ (r : Result ScanRow × World). find_by (scan_is id) r.1.db.scans) ran
            ∙ find_by-update_where_hit (scan_is id) change w.db.scans row (λ x. refl) found,
      )

pub Outcome-Present {ℓ} :
    {A : Type ℓ} (id : ℕ) (P : ScanRow → Type 0) (r : Result A) (d : Db)
    → Outcome id P r d
    → Present id d
Outcome-Present id P (ok a) d (row, found, _) = (row, found, tt)
Outcome-Present id P (err e) d (row, found, _) = (row, found, tt)

pub update_status-Steady :
    (id : ℕ) (s : String) (msg : Option String) → Steady (Repository.update_scan_status id s msg)
unfolding Repository.update_scan_status
update_status-Steady id s msg = search steady_rules depth 9

pub update_status-Ends :
    (id : ℕ) (status : String)
    → scan_status status ≡ true
    → Ends id (Marked status) (Repository.update_scan_status id status none)
update_status-Ends id status valid = record {
  steady = update_status-Steady id status none;
  at = λ w calm here.
      let (row, e, marked, cleared, found) = update_status id status none valid w calm here in
      rw e (row, found, (marked, cleared));
}

-- The job fails with the scan marked as failed, whatever would have held at its end.
pub fail-Ends {ℓ} :
    {A : Type ℓ} (id : ℕ) (P : ScanRow → Type 0) (stage : String) (cause : Error)
    → Ends {A = A} id P (Worker.fail id stage cause)
unfolding Worker.fail ◌>>=◌ env ignoring pure raise scan_status
fail-Ends id P stage cause = record {
  steady = record {
    at = λ w. (Steady-bind _ _ (update_status-Steady id "failed" _) (λ _. Steady-pure _)).at w;
  };
  at = λ w calm here.
      let msg = Worker.failure_text w.env stage cause in
      let (row, e, failed, told, found) = update_status id "failed" (some msg) refl w calm here in
      rw e (row, found, (failed, λ untold. cc (told, untold)));
}

-- A step whose failure is written to the scan.
pub or_fail-Ends {ℓ} :
    {A : Type ℓ} (id : ℕ) (stage : String) (m : M A)
    → Steady m
    → Keeps (Present id) m
    → Ends id (λ row. Unit) (Worker.or_fail id stage m)
unfolding caught
or_fail-Ends id stage m s k = record {
  steady = Steady-caught _ m (λ e. (fail-Ends id Failed stage e).steady) s;
  at = λ w calm here. elim (Result-cases (m w).0) [
    | inl (a, e) ↦ rw e (k.at w here)
    | inr (x, e) ↦
        rw e ((fail-Ends id (λ row. Unit) stage x).at (m w).1 (Calm-after m w s calm) (k.at w here))
  ];
}

-- A step that cannot fail.
pub sure-Ends :
    (id : ℕ) (m : M (Unit {0}))
    → Steady m
    → Keeps (Present id) m
    → Ends id (λ row. Unit) (ignoring m)
unfolding ignoring
sure-Ends id m s k = record { steady = Steady-ignoring m s; at = λ w calm here. k.at w here }

pub pure-Ends {ℓ} : {A : Type ℓ} (id : ℕ) (a : A) → Ends id (λ row. Unit) (pure a)
unfolding pure
pure-Ends id a = record { steady = Steady-pure a; at = λ w calm here. here }

module _ {ℓ κ} {A : Type ℓ} {B : Type κ} (id : ℕ) {P Q : ScanRow → Type 0} where
  pub bind-Ends :
      (m : M A) (f : A → M B) → Ends id P m → ((a : A) → Ends id Q (f a)) → Ends id Q (m >>= f)
  unfolding ◌>>=◌
  bind-Ends m f em ef = record {
    steady = Steady-bind m f em.steady (λ a. (ef a).steady);
    at = λ w calm here. elim (Result-cases (m w).0) [
      | inl (a, e) ↦ rw e (
          (ef a).at (m w).1 (Calm-after m w em.steady calm)
            (Outcome-Present id P (m w).0 (m w).1.db (em.at w calm here)))
      | inr (x, e) ↦ rw e (rw e at (em.at w calm here))
    ];
  }

-- The last statement says how the job ends.
pub last-Ends {ℓ κ} :
    {A : Type ℓ} {B : Type κ} (id : ℕ) (P : ScanRow → Type 0) (m : M A) (b : B)
    → Ends id P m
    → Ends id P (m >> pure b)
unfolding ◌>>=◌ pure
last-Ends id P m b em = record {
  steady = Steady-bind m _ em.steady (λ a. Steady-pure b);
  at = λ w calm here. elim (Result-cases (m w).0) [
    | inl (a, e) ↦ rw e (rw e at (em.at w calm here))
    | inr (x, e) ↦ rw e (rw e at (em.at w calm here))
  ];
}
