-- ===== src/Inventory/Created.antt =====
-- `CreateItem` of baskety/internal/inventory/repository_pg.go.
use mathlib.Core.Path.{subst₂}
use baskety.Base.{ℕ, ◌≡◌, sym, ap, ◌∙◌, String, Option, none, some, arith, ==_refl}
use baskety.Base.Decimal.{Decimal, stored_numeric}
use baskety.Schema.{ItemRow, Db}
use baskety.Table.{find_by}
use baskety.Table.Laws.{find_by-append_new, any_row-imp, AllRows-all}
use baskety.World.{World, Result, ok, Moment, pure, map_err, moment}
use baskety.World.Laws.{bind-eq-ok, pure-eq-ok, exec-eq-ok, map_err-eq-ok}
use baskety.Integrity.{inserted-eq-ok}
use baskety.Inventory.Queries
use baskety.Inventory.Queries.Rows.{item_is}
use baskety.Inventory.Repository
use baskety.Inventory.Repository.{InventoryItem, to_item}
use baskety.Inventory.Service

-- The row is what was asked for: an item that is not deleted, with the target in thousandths.
abbrev pub Made : ℕ → String → Decimal → ItemRow → Type 0
Made inv name target row =
    (row.inventory_id ≡ inv)
    × (row.name ≡ name)
    × (row.target_quantity ≡ stored_numeric target)
    × (row.deleted_at ≡ none)

pub created_row :
    (inv : ℕ) (name : String) (category unit : Option String) (target : Decimal)
    (notes : Option String) (m : Moment) (d : Db) (row : ItemRow)
    → (Queries.create_inventory_item inv name category unit target notes m d).0 ≡ ok row
    → (find_by
          (item_is row.id)
          (Queries.create_inventory_item inv name category unit target notes m d).1.items
        ≡ some row)
      × Made inv name target row
unfolding Queries.create_inventory_item
created_row inv name category unit target notes m d row h =
    let (same, clash, _, _, made) = inserted-eq-ok _ _ _ _ d _ row h in
    (
      rw made (
          rw (← same) (
            find_by-append_new (item_is m.fresh) d.items _
              (any_row-imp _ _ d.items (AllRows-all _ d.items (λ x. ground arith)) clash)
              (==_refl m.fresh))),
      (
        sym (ap (λ (r : ItemRow). r.inventory_id) same),
        sym (ap (λ (r : ItemRow). r.name) same),
        sym (ap (λ (r : ItemRow). r.target_quantity) same),
        sym (ap (λ (r : ItemRow). r.deleted_at) same),
      ),
    )

module _ (inv : ℕ) (name category unit : String) (target : Decimal) (notes : Option String) where
  -- The item that `CreateItem` of the repository returns is in the table.
  repository_created :
      (w : World) (item : InventoryItem)
      → (Repository.create_item inv name category unit target notes w).0 ≡ ok item
      → (row : ItemRow) × (find_by
            (item_is item.id)
            (Repository.create_item inv name category unit target notes w).1.db.items
          ≡ some row)
        × Made inv name target row
        × (to_item row ≡ item)
  unfolding Repository.create_item to_item pure
  repository_created w item h =
      let (row, got, step, rest) = bind-eq-ok _ _ w item h in
      let (made, db) = exec-eq-ok _ w row got in
      let same : to_item row ≡ item = pure-eq-ok (to_item row) item w rest in
      let (found, inside) = created_row inv name _ _ target notes (moment w) w.db row made in
      (
        row,
        subst₂ (λ (k : ℕ) (d : Db). find_by (item_is k) d.items ≡ some row)
            (ap (λ (a : InventoryItem). a.id) same)
            (sym (ap (λ (r : Result InventoryItem × World). r.1.db) step ∙ db)) found,
        inside,
        same,
      )

  pub created :
      (w : World) (item : InventoryItem)
      → (map_err Service.name_taken
          (Repository.create_item inv name category unit target notes)
          w).0
        ≡ ok item
      → (row : ItemRow) × (find_by
            (item_is item.id)
            (map_err Service.name_taken
              (Repository.create_item inv name category unit target notes)
              w).1.db.items
          ≡ some row)
        × Made inv name target row
        × (to_item row ≡ item)
  unfolding map_err
  created w item h =
      repository_created w item
        (map_err-eq-ok Service.name_taken (Repository.create_item _ _ _ _ _ _) w item h)
