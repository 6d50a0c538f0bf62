-- ===== src/Inventory/FirstBatch.antt =====
-- `CreateItem` of baskety/internal/inventory/service.go: the item and its first batch.
use mathlib.Core.Path.{subst}
use baskety.Base.{
  ℕ, ◌≡◌, refl, sym, ap, ◌∙◌, String, true, false, Option, none, some, List, [], ◌∷◌, arith, ◌==◌,
  ==_iff, ==_refl, str_to_ptr, if◌then◌else◌, Bool-cases, inl, inr,
}
use baskety.Base.Int.{ℤ, pos, ◌+ℤ◌, zero_+ℤ}
use baskety.Base.Decimal.{Decimal, stored_numeric}
use baskety.Schema.{ItemRow, BatchRow, Db}
use baskety.Table.{find_by, any_row, select, sum_by}
use baskety.Table.Laws.{AllRows, any_row-imp, AllRows-all}
use baskety.World.{World, Env, Result, ok, exec, moment, Moment, pure, map_err}
use baskety.World.Laws.{bind-eq-ok, guard-eq-ok, exec-eq-ok, pure-eq-ok, map_err-eq-ok, bind_reads}
use baskety.Integrity.{WellFormed, has_item, inserted-eq-ok, inserted_keeps}
use baskety.Inventory.Queries
use baskety.Inventory.Queries.Rows.{item_is, active_of}
use baskety.Inventory.Repository
use baskety.Inventory.Repository.{InventoryItem, to_item}
use baskety.Inventory.Dto.{CreateItemRequest, ItemResponse, to_item_response}
use baskety.Inventory.Service
use baskety.Inventory.Counted.{in_stock, stock-in_stock}
use baskety.Inventory.Scope.{inventory_scope-db}
use baskety.Inventory.Effective.{respond-db, respond-ok, inventory_scope-Steady}
use baskety.World.Steady.{Steady, steady_rules, Steady-exec}
use baskety.Inventory.Created.{Made, created}
use baskety.Inventory.Stock.{create_batch-stock}

-- An item that is not there has nothing in stock.
no_batches :
    (k : ℕ) (d : Db) (bs : List BatchRow)
    → any_row (item_is k) d.items ≡ false
    → AllRows (λ b. has_item d b.item_id ≡ true) bs
    → select (active_of k) bs ≡ []
unfolding select
no_batches k d [] free refs = refl
no_batches k d (b ∷ bs) free refs = elim (Bool-cases (b.item_id == k)) [
  | inl mine ↦ absurd (cc (refs.0, free, ap (has_item d) ((==_iff b.item_id k).0 mine)))
  | inr other ↦ rw other (no_batches k d bs free refs.1)
]

no_stock :
    (k : ℕ) (d : Db)
    → WellFormed d
    → any_row (item_is k) d.items ≡ false
    → Queries.stock k d.batches ≡ pos 0
unfolding Queries.stock sum_by
no_stock k d v free =
    ap (sum_by (λ (b : BatchRow). b.quantity)) (no_batches k d d.batches free v.batch_refs)

fresh_row :
    (inv : ℕ) (name : String) (category unit : Option String) (target : Decimal)
    (notes : Option String) (m : Moment) (d : Db) (row : ItemRow)
    → (Queries.create_inventory_item inv name category unit target notes m d).0 ≡ ok row
    → (any_row (item_is row.id) d.items ≡ false)
      × ((Queries.create_inventory_item inv name category unit target notes m d).1.batches
          ≡ d.batches)
unfolding Queries.create_inventory_item
fresh_row inv name category unit target notes m d row h =
    let (same, clash, _, _, made) = inserted-eq-ok _ _ _ _ d _ row h in
    (
      rw (← same) (any_row-imp _ _ d.items (AllRows-all _ d.items (λ x. ground arith)) clash),
      rw made refl,
    )

module _ (inv : ℕ) (name category unit : String) (target : Decimal) (notes : Option String) where
  fresh_item :
      (w : World) (item : InventoryItem)
      → (map_err Service.name_taken
          (Repository.create_item inv name category unit target notes)
          w).0
        ≡ ok item
      → (any_row (item_is item.id) w.db.items ≡ false)
        × ((map_err Service.name_taken
              (Repository.create_item inv name category unit target notes)
              w).1.db.batches
            ≡ w.db.batches)
  unfolding map_err Repository.create_item pure to_item
  fresh_item w item h =
      let (row, got, step, rest) =
        bind-eq-ok
          (exec (
            Queries.create_inventory_item inv name (str_to_ptr category) (str_to_ptr unit) target
              notes))
          (λ r. pure (to_item r)) w item
          (map_err-eq-ok Service.name_taken
            (Repository.create_item inv name category unit target notes) w item h) in
      let (made, db) = exec-eq-ok _ w row got in
      let same : to_item row ≡ item = pure-eq-ok (to_item row) item w rest in
      let (free, kept) = fresh_row inv name _ _ target notes (moment w) w.db row made in
      (
        subst (λ (k : ℕ). any_row (item_is k) w.db.items ≡ false)
            (ap (λ (a : InventoryItem). a.id) same) free,
        ap (λ (x : Result InventoryItem × World). x.1.db.batches) step
            ∙ ap (λ (d : Db). d.batches) db
            ∙ kept,
      )

create_batch-items :
    (id : ℕ) (quantity : Decimal) (expires : Option ℕ) (notes : Option String) (m : Moment) (d : Db)
    → (Queries.create_inventory_batch id quantity expires notes m d).1.items ≡ d.items
unfolding Queries.create_inventory_batch
create_batch-items id quantity expires notes m d =
    inserted_keeps (λ (x : Db). x.items ≡ d.items) _ _ _ _ d _ refl λ _ _. refl

counted : (k : ℕ) (a b : ℤ) → (if k == k then a else b) ≡ a
counted k a b = rw (==_refl k) refl

insert-Steady :
    (inv : ℕ) (name category unit : String) (target : Decimal) (notes : Option String)
    → Steady
        (map_err Service.name_taken (Repository.create_item inv name category unit target notes))
unfolding Repository.create_item
insert-Steady inv name category unit target notes = search steady_rules depth 9

-- Where `CreateItem` succeeds in a well-formed database, the response bears the id of an item that was
-- not there before. The item is in the inventory that was asked for, under the name that was asked
-- for, not deleted, with the target that was asked for, and what is in stock of it is the initial
-- quantity, both rounded to thousandths.
pub create_item-stock :
    (id h : ℕ) (req : CreateItemRequest) (w : World) (r : ItemResponse)
    → WellFormed w.db
    → (Service.create_item id h req w).0 ≡ ok r
    → (row : ItemRow) × (find_by (item_is row.id) (Service.create_item id h req w).1.db.items
        ≡ some row)
      × (any_row (item_is row.id) w.db.items ≡ false)
      × (r.id ≡ w.env.uuid_string row.id)
      × Made id req.name req.target_quantity row
      × (in_stock row.id (Service.create_item id h req w).1.db.batches
          ≡ stored_numeric req.initial_quantity)
unfolding Service.create_item Service.require_name Repository.add_batch to_item to_item_response
create_item-stock id h req w r v e =
    let (_, s0, e0) = guard-eq-ok _ _ _ w r e in
    let (_, _, s1, e1) = bind-eq-ok (Service.assert_inventory_scope id h) _ w r e0 in
    let w1 = (Service.assert_inventory_scope id h w).1 in
    let insert =
      map_err Service.name_taken
        (Repository.create_item id req.name req.category req.unit req.target_quantity req.notes) in
    let (item, got, s2, e2) = bind-eq-ok insert _ w1 r e1 in
    let w2 = (insert w1).1 in
    let add =
      Queries.create_inventory_batch item.id req.initial_quantity req.initial_expires_at none in
    let (b, put, s3, e3) = bind-eq-ok (exec add) _ w2 r e2 in
    let w3 = (exec add w2).1 in
    let (made, put_db) = exec-eq-ok _ w2 b put in
    let (row, found, inside, same) = created id _ _ _ _ _ w1 item got in
    let named : row.id ≡ item.id = ap (λ (a : InventoryItem). a.id) same in
    let (free, kept) = fresh_item id _ _ _ _ _ w1 item got in
    let batch =
      Queries.create_inventory_batch item.id req.initial_quantity req.initial_expires_at none
        (moment w2) w2.db in
    let final : (Service.create_item id h req w).1.db ≡ batch.1 =
      ap (λ (x : Result ItemResponse × World). x.1.db) (s0 ∙ s1 ∙ s2)
      ∙ bind_reads _ _ w2 (λ _. respond-db to_item_response item)
      ∙ put_db in
    let none_before : Queries.stock item.id w2.db.batches ≡ pos 0 =
      ap (Queries.stock item.id) kept
      ∙ no_stock item.id w1.db (subst WellFormed (sym (inventory_scope-db id h w)) v) free in
    (
      row,
      ap (λ (d : Db). find_by (item_is row.id) d.items) final
          ∙ ap (find_by (item_is row.id)) (create_batch-items item.id _ _ _ (moment w2) w2.db)
          ∙ ap (λ k. find_by (item_is k) w2.db.items) named
          ∙ found,
      subst (λ (k : ℕ). any_row (item_is k) w.db.items ≡ false) (sym named)
          (subst (λ (d : Db). any_row (item_is item.id) d.items ≡ false) (inventory_scope-db id h w)
            free),
      ap (λ (a : ItemResponse). a.id) (respond-ok to_item_response item w3 r e3)
          ∙ ap (λ (v : Env). v.uuid_string item.id)
              ((Steady-exec add).at w2
                ∙ (insert-Steady id _ _ _ _ _).at w1
                ∙ (inventory_scope-Steady id h).at w)
          ∙ ap w.env.uuid_string (sym named),
      inside,
      sym (stock-in_stock row.id (Service.create_item id h req w).1.db.batches)
          ∙ ap (λ (d : Db). Queries.stock row.id d.batches) final
          ∙ ap (λ k. Queries.stock k batch.1.batches) named
          ∙ create_batch-stock item.id _ _ _ (moment w2) w2.db b item.id made
          ∙ counted item.id _ _
          ∙ ap (λ s. s +ℤ stored_numeric req.initial_quantity) none_before
          ∙ zero_+ℤ (stored_numeric req.initial_quantity),
    )
