-- ===== src/Inventory/Stock.antt =====
-- What is in stock of an item (GetInventoryItemQuantity), and `AddBatch` of
-- baskety/internal/inventory/service.go.
use baskety.Base.{
  ℕ, ◌≡◌, refl, sym, ap, ◌∙◌, String, true, false, Option, none, List, [], ◌∷◌, ◌++◌, ◌==◌, arith,
  if◌then◌else◌, Bool-cases, inl, inr,
}
use baskety.Base.Int.{ℤ, ◌+ℤ◌, +ℤ_assoc, +ℤ_zero, zero_+ℤ}
use baskety.Base.Decimal.{Decimal, stored_numeric, is_positive}
use baskety.Schema.{BatchRow, Db}
use baskety.Table.{select, sum_by}
use baskety.Table.Laws.{select-append_new, select-append_old}
use baskety.World.{World, Result, ok, moment, Moment}
use baskety.World.Laws.{bind-eq-ok, guard-eq-ok, exec-eq-ok, bind_reads}
use baskety.Integrity.{inserted-eq-ok}
use baskety.Inventory.Queries
use baskety.Inventory.Queries.Rows.{active_of}
use baskety.Inventory.Repository
use baskety.Inventory.Dto.{BatchRequest, BatchResponse, to_batch_response}
use baskety.Inventory.Service
use baskety.Inventory.Counted.{in_stock, stock-in_stock}
use baskety.Inventory.Scope.{item_scope-db}
use baskety.Inventory.Effective.{respond-db}

sum_by-append {ℓ} :
    {A : Type ℓ} (q : A → ℤ) (xs : List A) (y : A) → sum_by q (xs ++ y ∷ []) ≡ sum_by q xs +ℤ q y
unfolding sum_by
sum_by-append q [] y = +ℤ_zero (q y) ∙ sym (zero_+ℤ (q y))
sum_by-append q (x ∷ xs) y =
    ap (λ s. q x +ℤ s) (sum_by-append q xs y) ∙ sym (+ℤ_assoc (q x) (sum_by q xs) (q y))

-- A new batch counts for its item and for no other.
stock-append :
    (j : ℕ) (bs : List BatchRow) (b : BatchRow)
    → b.emptied_at ≡ none
    → Queries.stock j (bs ++ b ∷ [])
      ≡ (if b.item_id == j then Queries.stock j bs +ℤ b.quantity else Queries.stock j bs)
unfolding Queries.stock
stock-append j bs b full = elim (Bool-cases (b.item_id == j)) [
  | inl mine ↦
      let counts : active_of j b ≡ true = ground arith in
      rw (mine, select-append_new (active_of j) bs b counts)
        (sum_by-append (λ c. c.quantity) (select (active_of j) bs) b)
  | inr other ↦
      let out : active_of j b ≡ false = ground arith in
      rw (other, select-append_old (active_of j) bs b out) refl
]

pub create_batch-stock :
    (id : ℕ) (quantity : Decimal) (expires : Option ℕ) (notes : Option String) (m : Moment) (d : Db)
    (row : BatchRow) (j : ℕ)
    → (Queries.create_inventory_batch id quantity expires notes m d).0 ≡ ok row
    → Queries.stock j (Queries.create_inventory_batch id quantity expires notes m d).1.batches ≡ (
        if id == j
        then Queries.stock j d.batches +ℤ stored_numeric quantity
        else Queries.stock j d.batches)
unfolding Queries.create_inventory_batch
create_batch-stock id quantity expires notes m d row j h =
    let (_, _, _, _, made) = inserted-eq-ok _ _ _ _ d _ row h in
    rw made (stock-append j d.batches _ refl)

add_batch-sum :
    (id h : ℕ) (req : BatchRequest) (w : World) (r : BatchResponse) (j : ℕ)
    → (Service.add_batch id h req w).0 ≡ ok r
    → (is_positive req.quantity ≡ true)
      × (Queries.stock j (Service.add_batch id h req w).1.db.batches ≡ (
          if id == j
          then Queries.stock j w.db.batches +ℤ stored_numeric req.quantity
          else Queries.stock j w.db.batches))
unfolding Service.add_batch Repository.add_batch
add_batch-sum id h req w r j e =
    let (positive, s0, e0) = guard-eq-ok _ _ _ w r e in
    let (it, scope, s1, e1) = bind-eq-ok _ _ w r e0 in
    let w' = (Service.assert_item_scope id h w).1 in
    let (row, got, s2, e2) = bind-eq-ok _ _ w' r e1 in
    let (made, db) = exec-eq-ok _ w' row got in
    let kept =
      ap (λ (x : Result BatchResponse × World). x.1.db) (s0 ∙ s1)
      ∙ bind_reads _ _ w' (respond-db to_batch_response)
      ∙ db in
    (
      positive,
      ap (λ (d : Db). Queries.stock j d.batches) kept
          ∙ create_batch-stock id _ _ _ (moment w') w'.db row j made
          ∙ ap
              (λ (d : Db).
                if id == j
                then Queries.stock j d.batches +ℤ stored_numeric req.quantity
                else Queries.stock j d.batches)
              (item_scope-db id h w),
    )

-- Where `AddBatch` succeeds, the quantity is positive, the stock of the item grows by that quantity,
-- rounded to thousandths, and the stock of every other item stays as it was.
pub add_batch-stock :
    (id h : ℕ) (req : BatchRequest) (w : World) (r : BatchResponse) (j : ℕ)
    → (Service.add_batch id h req w).0 ≡ ok r
    → (is_positive req.quantity ≡ true)
      × (in_stock j (Service.add_batch id h req w).1.db.batches ≡ (
          if id == j
          then in_stock j w.db.batches +ℤ stored_numeric req.quantity
          else in_stock j w.db.batches))
add_batch-stock id h req w r j e =
    let (positive, grown) = add_batch-sum id h req w r j e in
    (
      positive,
      sym (stock-in_stock j (Service.add_batch id h req w).1.db.batches)
          ∙ grown
          ∙ ap (λ s. if id == j then s +ℤ stored_numeric req.quantity else s)
              (stock-in_stock j w.db.batches),
    )
