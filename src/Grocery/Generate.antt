-- ===== src/Grocery/Generate.antt =====
-- `AutoGenerate` of baskety/internal/grocery/service.go: the lines that a list needs, described apart
-- from the code, and the addition of one line.
pub mod Keeps
pub mod Loop
pub mod Generated
use mathlib.Core.Path.{subst, subst₂}
use baskety.Base.{
  ℕ, ◌≡◌, refl, sym, ap, ◌∙◌, String, Bool, true, false, Option, some, none, List, [], ◌∷◌, ◌++◌,
  map, arith, ◌==◌, ==_refl, Bool-cases, inl, inr, ptr_str, str_to_ptr,
}
use baskety.Base.Int.{ℤ, pos, leb_ℤ, ◌-ℤ◌, ◌+ℤ◌}
use baskety.Schema.{ItemRow, BatchRow, ListItemRow, Db}
use baskety.Table.{select}
use baskety.Table.Laws.{select-append_new}
use baskety.World.{World, Env, Result, M, ok, exec, moment, Moment, ◌>>=◌, pure, map_err, env}
use baskety.World.Laws.{bind-eq-ok, exec-eq-ok, bind_reads, pure-eq-ok, map_err-eq-ok}
use baskety.World.Steady.{Steady, steady_rules, Steady-bind}
use baskety.Integrity.{inserted-eq-ok}
use baskety.Inventory.Queries as InventoryQueries
use baskety.Inventory.Dto.{ItemResponse as InventoryItemResponse}
use baskety.Inventory.Effective.{shown, effective-db, effective-ok, effective-Steady}
use baskety.Inventory.Service as InventoryService
use baskety.Grocery.Queries
use baskety.Grocery.Queries.Rows.{list_item_of}
use baskety.Grocery.Repository
use baskety.Grocery.Repository.{GroceryListItem}
use baskety.Grocery.Service

-- What a line says, without its id and its times.
pub record Line : Type 0 where
  pub inventory_item_id : Option ℕ
  pub name : String
  pub quantity : ℤ
  pub unit : Option String
  pub notes : Option String
  pub status : String
  pub sort_order : ℤ

unfoldable pub line_of : ListItemRow → Line
line_of r = record {
  inventory_item_id = r.inventory_item_id;
  name = r.name;
  quantity = r.quantity;
  unit = r.unit;
  notes = r.notes;
  status = r.status;
  sort_order = r.sort_order;
}

-- A pending line for what is missing of an item.
unfoldable pub missing : ItemRow → ℤ → ℤ → Line
missing r stock position = record {
  inventory_item_id = some r.id;
  name = r.name;
  quantity = r.target_quantity -ℤ stock;
  unit = str_to_ptr (ptr_str r.unit);
  notes = none;
  status = "pending";
  sort_order = Repository.to_int32 position;
}

-- The lines that a list needs: one for each item with less in stock than its target.
unfoldable pub shortfalls : List BatchRow → List ItemRow → ℤ → List Line
shortfalls bs [] position = []
shortfalls bs (r ∷ rs) position =
    let stock = InventoryQueries.stock r.id bs in
    elim (leb_ℤ r.target_quantity stock) [
      | true ↦ shortfalls bs rs position
      | false ↦ missing r stock position ∷ shortfalls bs rs (position +ℤ pos 1)
    ]

-- The lines of a list in the order of the table.
unfoldable pub lines : ℕ → Db → List Line
lines list d = map line_of (select (list_item_of list) d.list_items)

map-append {ℓ κ} :
    {A : Type ℓ} {B : Type κ} (f : A → B) (xs : List A) (y : A)
    → map f (xs ++ y ∷ []) ≡ map f xs ++ f y ∷ []
map-append f [] y = refl
map-append f (x ∷ xs) y = ap (λ ys. f x ∷ ys) (map-append f xs y)

pub append_assoc {ℓ} :
    {A : Type ℓ} (xs : List A) (y : A) (zs : List A) → (xs ++ y ∷ []) ++ zs ≡ xs ++ y ∷ zs
append_assoc [] y zs = refl
append_assoc (x ∷ xs) y zs = ap (λ ys. x ∷ ys) (append_assoc xs y zs)

pub append_nil {ℓ} : {A : Type ℓ} (xs : List A) → xs ++ [] ≡ xs
append_nil [] = refl
append_nil (x ∷ xs) = ap (λ ys. x ∷ ys) (append_nil xs)

-- A line that is added comes last, and the stock is left alone.
added :
    (list : ℕ) (link : Option ℕ) (name : String) (quantity : ℤ) (unit notes : Option String)
    (position : ℤ) (m : Moment) (d : Db) (row : ListItemRow)
    → (Queries.add_grocery_list_item list link name quantity unit notes position m d).0 ≡ ok row
    → (lines list (Queries.add_grocery_list_item list link name quantity unit notes position m d).1
        ≡ lines list d
          ++ record {
            inventory_item_id = link;
            name = name;
            quantity = quantity;
            unit = unit;
            notes = notes;
            status = "pending";
            sort_order = position;
          }
            ∷ [])
      × ((Queries.add_grocery_list_item list link name quantity unit notes position m d).1.batches
          ≡ d.batches)
unfolding Queries.add_grocery_list_item lines line_of
added list link name quantity unit notes position m d row h =
    let (_, _, _, _, made) = inserted-eq-ok _ _ _ _ d _ row h in
    (
      rw made (
          ap (map line_of) (select-append_new (list_item_of list) d.list_items _ (==_refl list))
          ∙ map-append line_of (select (list_item_of list) d.list_items) _),
      rw made refl,
    )

-- The same for the repository.
pub add_item-ok :
    (list : ℕ) (r : ItemRow) (stock position : ℤ) (w : World) (it : GroceryListItem)
    → (Repository.add_item list
        (some r.id)
        r.name
        (r.target_quantity -ℤ stock)
        (ptr_str r.unit)
        none
        position
        w).0
      ≡ ok it
    → (lines list
          (Repository.add_item list
            (some r.id)
            r.name
            (r.target_quantity -ℤ stock)
            (ptr_str r.unit)
            none
            position
            w).1.db
        ≡ lines list w.db ++ missing r stock position ∷ [])
      × ((Repository.add_item list
            (some r.id)
            r.name
            (r.target_quantity -ℤ stock)
            (ptr_str r.unit)
            none
            position
            w).1.db.batches
          ≡ w.db.batches)
unfolding Repository.add_item missing pure
add_item-ok list r stock position w it e =
    let (row, got, step, _) = bind-eq-ok _ _ w it e in
    let (made, db) = exec-eq-ok _ w row got in
    let (last, kept) = added list _ _ _ _ _ _ (moment w) w.db row made in
    let same = ap (λ (x : Result GroceryListItem × World). x.1.db) step ∙ db in
    (ap (lines list) same ∙ last, ap (λ (d : Db). d.batches) same ∙ kept)
