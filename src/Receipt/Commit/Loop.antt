-- ===== src/Receipt/Commit/Loop.antt =====
-- The loop of `CommitScan` in baskety/internal/receipt/service.go, purchase by purchase.
use mathlib.Core.Path.{subst}
use baskety.Base.{
  ℕ, ◌≡◌, sym, ap, ◌∙◌, String, Bool-cases, inl, inr, Option, some, List, [], ◌∷◌, ◌++◌, map,
}
use baskety.Base.Int.{ℤ}
use baskety.Schema.{ScanItemRow, TransactionRow, Db}
use baskety.Table.{find_by, select}
use baskety.World.{World, Result, ok, moment, Moment, exec, map_err, M, pure}
use baskety.World.Laws.{bind-eq-ok, exec-eq-ok, map_err-eq-ok, pure-eq-ok}
use baskety.Sql.{coalesce, char_padded}
use baskety.Integrity.{one-eq-ok, inserted-eq-ok}
use baskety.Grocery.Generate.{append_assoc, append_nil}
use baskety.Receipt.Queries
use baskety.Receipt.Queries.Rows.{scan_item_is}
use baskety.Receipt.Repository
use baskety.Receipt.Service

-- A purchase of the household, of the line under the id: by the corrected price, currency and
-- quantity where there are any, and by those that were read off the receipt elsewhere.
pub record IsPurchase (lines : List ScanItemRow) (household purchased_at line_id : ℕ)
    (t : TransactionRow) : Type 0 where
  pub line : ScanItemRow
  pub found : find_by (scan_item_is line_id) lines ≡ some line
  pub of_line : t.receipt_scan_item_id ≡ some line_id
  pub of_household : t.household_id ≡ household
  pub price : t.price_per_unit_minor ≡ coalesce line.corrected_price_minor line.parsed_price_minor
  pub currency :
      t.currency
      ≡ char_padded 3
          (Repository.text_or_empty (coalesce line.corrected_currency line.parsed_currency))
  pub quantity : t.quantity ≡ coalesce line.corrected_quantity line.parsed_quantity
  pub at_time : t.purchased_at ≡ purchased_at

-- One purchase for each line, in their order.
abbrev pub Purchases : List ScanItemRow → ℕ → ℕ → List ScanItemRow → List TransactionRow → Type 0
Purchases lines household purchased_at [] [] = Unit
Purchases lines household purchased_at (it ∷ its) (t ∷ ts) =
    IsPurchase lines household purchased_at it.id t × Purchases lines household purchased_at its ts
Purchases lines household purchased_at _ _ = ⊥

module _ (household purchased_at : ℕ) where
  get_line-ok :
      (id : ℕ) (w : World) (si : ScanItemRow)
      → (Repository.get_scan_item id w).0 ≡ ok si
      → (find_by (scan_item_is id) w.db.scan_items ≡ some si)
        × ((Repository.get_scan_item id w).1.db ≡ w.db)
  unfolding Repository.get_scan_item Queries.get_scan_item map_err
  get_line-ok id w si h =
      let (got, db) =
        exec-eq-ok _ w si
          (map_err-eq-ok Repository.or_not_found (exec (Queries.get_scan_item id)) w si h) in
      (one-eq-ok _ si got, db)

  -- The row that the statement inserts.
  abbrev Inserted : ℕ → Option ℤ → String → Option ℤ → TransactionRow → Type 0
  Inserted id price currency quantity t =
      (t.household_id ≡ household)
      × (t.receipt_scan_item_id ≡ some id)
      × (t.price_per_unit_minor ≡ price)
      × (t.currency ≡ char_padded 3 currency)
      × (t.quantity ≡ quantity)
      × (t.purchased_at ≡ purchased_at)

  purchase-Inserted :
      (id : ℕ) (price : Option ℤ) (currency : String) (quantity : Option ℤ) (m : Moment) (d : Db)
      (t : TransactionRow)
      → let r =
          Queries.create_purchase_transaction household id price currency quantity purchased_at m
            d in
        r.0 ≡ ok t
        → Inserted id price currency quantity t
          × (r.1 ≡ record d { transactions = d.transactions ++ t ∷ [] })
  unfolding Queries.create_purchase_transaction
  purchase-Inserted id price currency quantity m d t h =
      let (row, _, _, _, ran) = inserted-eq-ok _ _ _ _ d _ t h in
      let same = sym row in
      (
        (
          ap (λ (x : TransactionRow). x.household_id) same,
          ap (λ (x : TransactionRow). x.receipt_scan_item_id) same,
          ap (λ (x : TransactionRow). x.price_per_unit_minor) same,
          ap (λ (x : TransactionRow). x.currency) same,
          ap (λ (x : TransactionRow). x.quantity) same,
          ap (λ (x : TransactionRow). x.purchased_at) same,
        ),
        ran ∙ ap (λ (x : TransactionRow). record d { transactions = d.transactions ++ x ∷ [] }) row,
      )

  pub IsPurchase-ok :
      (id : ℕ) (w : World) (t : TransactionRow)
      → (Repository.create_purchase_transaction household id purchased_at w).0 ≡ ok t
      → IsPurchase w.db.scan_items household purchased_at id t
        × ((Repository.create_purchase_transaction household id purchased_at w).1.db
            ≡ record w.db { transactions = w.db.transactions ++ t ∷ [] })
  unfolding Repository.create_purchase_transaction
  IsPurchase-ok id w t h =
      let (si, got, step, rest) = bind-eq-ok (Repository.get_scan_item id) _ w t h in
      let (found, same) = get_line-ok id w si got in
      let w1 = (Repository.get_scan_item id w).1 in
      let (made, db) = exec-eq-ok _ w1 t rest in
      let ((of_household, of_line, price, currency, quantity, at_time), ran) =
        purchase-Inserted id _ _ _ (moment w1) w1.db t made in
      (
        record {
          line = si;
          found = found;
          of_line = of_line;
          of_household = of_household;
          price = price;
          currency = currency;
          quantity = quantity;
          at_time = at_time;
        },
        ap (λ (x : Result TransactionRow × World). x.1.db) step
            ∙ db
            ∙ ran
            ∙ ap (λ (d : Db). record d { transactions = d.transactions ++ t ∷ [] }) same,
      )

  -- What the loop leaves: the purchases at the end of the table, and their ids as its result.
  abbrev pub Recorded : Db → List ScanItemRow → List ℕ → Db → Type 0
  Recorded d its ids d' =
      (rows : List TransactionRow) × Purchases d.scan_items household purchased_at its rows
      × (d' ≡ record d { transactions = d.transactions ++ rows })
      × (ids ≡ map (λ (t : TransactionRow). t.id) rows)

  -- One purchase more, before those of the rest.
  round-Recorded :
      (it : ScanItemRow) (its : List ScanItemRow) (m : M (List ℕ)) (w : World) (ids : List ℕ)
      → ((v : World) (rest : List ℕ) → (m v).0 ≡ ok rest → Recorded v.db its rest (m v).1.db)
      → (Service.create_transaction household purchased_at it m w).0 ≡ ok ids
      → Recorded w.db (it ∷ its) ids (Service.create_transaction household purchased_at it m w).1.db
  unfolding Service.create_transaction pure
  round-Recorded it its m w ids others h =
      let insert = Repository.create_purchase_transaction household it.id purchased_at in
      let (t, got, step, rest) = bind-eq-ok insert _ w ids h in
      let (bought, db) = IsPurchase-ok it.id w t got in
      let w1 = (insert w).1 in
      let (ids', got', step', rest') = bind-eq-ok m _ w1 ids rest in
      let (rows, list, db', named) = others w1 ids' got' in
      (
        t ∷ rows,
        (
          bought,
          subst (λ (d : Db). Purchases d.scan_items household purchased_at its rows) db list,
        ),
        ap (λ (r : Result (List ℕ) × World). r.1.db) (step ∙ step')
            ∙ db'
            ∙ ap (λ (d : Db). record d { transactions = d.transactions ++ rows }) db
            ∙ ap (λ ts. record w.db { transactions = ts }) (append_assoc w.db.transactions t rows),
        sym (pure-eq-ok (t.id ∷ ids') ids (m w1).1 rest') ∙ ap (λ is. t.id ∷ is) named,
      )

  pub create_transactions-Recorded :
      (its : List ScanItemRow) (w : World) (ids : List ℕ)
      → (Service.create_transactions household purchased_at its w).0 ≡ ok ids
      → Recorded w.db
          (select Service.purchased its)
          ids
          (Service.create_transactions household purchased_at its w).1.db
  unfolding Service.create_transactions select pure
  create_transactions-Recorded [] w ids h = (
    [],
    tt,
    ap (λ ts. record w.db { transactions = ts }) (sym (append_nil w.db.transactions)),
    sym (pure-eq-ok [] ids w h),
  )
  create_transactions-Recorded (it ∷ its) w ids h = elim (Bool-cases (Service.purchased it)) [
    | inl hit ↦ rw hit (
        round-Recorded it (select Service.purchased its) _ w ids (create_transactions-Recorded its)
          (rw hit at h))
    | inr miss ↦ rw miss (create_transactions-Recorded its w ids (rw miss at h))
  ]
