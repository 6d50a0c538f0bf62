-- ===== src/Grocery/Isolation/Generation.antt =====
-- `AutoGenerate` and the lists of other households.
use Prim.Native.String.{◌++◌ as str_append}
use mathlib.Core.Path.{subst}
use baskety.Base.{ℕ, ◌≡◌, ◌≢◌, refl, sym, ap, ◌∙◌, String, Option, List, ==_refl}
use baskety.Base.Int.{ℤ, pos}
use baskety.Schema.{ListRow, Db}
use baskety.Table.Laws.{find_by-append_new}
use baskety.World.{World, Moment, ok, exec, pure, map_err, moment, host_clock, env}
use baskety.World.Laws.{Keeps, bind_after_read, bind_db, bind_reads, exec_keeps, exec-eq-ok}
use baskety.Integrity.{WellFormed, inserted_keeps, inserted-eq-ok}
use baskety.Inventory.Service as InventoryService
use baskety.Inventory.Dto.{ItemResponse as InventoryItemResponse}
use baskety.Inventory.Effective.{respond-db}
use baskety.Grocery.Queries
use baskety.Grocery.Queries.Rows.{list_is}
use baskety.Grocery.Repository
use baskety.Grocery.Service
use baskety.Grocery.Dto.{AutoGenerateRequest, to_list_response}
use baskety.Grocery.Generate.Generated.{rest_of, stocked-db}
use baskety.Grocery.Generate.Keeps.{lines-Keeps}
use baskety.Grocery.Integrity.{create_list-WellFormed}
use baskety.Grocery.Integrity.Requests.{add_line-Keeps}
use baskety.Grocery.Isolation.{Spared, Spared-refl, Spared-trans, Away, create_list-Spared}
use baskety.Grocery.Isolation.Writes.{Clear, after_inventory, wrote, line-Spared}

-- The new list is there, and belongs to its inventory.
new_list-Away :
    (i inv u : ℕ) (name : String) (m : Moment) (d : Db) (row : ListRow)
    → inv ≢ i
    → (Queries.create_grocery_list inv name u m d).0 ≡ ok row
    → Away i row.id (Queries.create_grocery_list inv name u m d).1
unfolding Queries.create_grocery_list
new_list-Away i inv u name m d row ne h =
    let (same, clash, _, _, made) = inserted-eq-ok _ _ _ _ d _ row h in
    record {
      row = row;
      found =
          rw made
            (rw (← same) (find_by-append_new (list_is m.fresh) d.lists _ clash (==_refl m.fresh)));
      ne = λ bad. ne (ap (λ (l : ListRow). l.inventory_id) same ∙ bad);
    }

line-Away :
    (i list : ℕ) (link : Option ℕ) (name : String) (quantity : ℤ) (unit : String)
    (notes : Option String) (position : ℤ) (w : World)
    → Away i list w.db
    → Away i list (Repository.add_item list link name quantity unit notes position w).1.db
unfolding Repository.add_item Queries.add_grocery_list_item pure
line-Away i list link name quantity unit notes position w o =
    subst (Away i list) (sym (bind_reads _ _ w (λ a x. refl))) (
      exec_keeps (Away i list) _ w o (
        inserted_keeps (Away i list) _ _ _ _ w.db _ o
          λ _ _. record { row = o.row; found = o.found; ne = o.ne }))

module _ (h i inv u : ℕ) (name : String) (ne : inv ≢ i) where
  -- What the loop keeps: the new list stays where it is, and nothing else is touched.
  abbrev Kept : Db → ℕ → Db → Type 0
  Kept d list d' = Spared i d d' × WellFormed d' × Away i list d'

  add-Kept :
      (d : Db) (list : ℕ) (link : Option ℕ) (name : String) (quantity : ℤ) (unit : String)
      (notes : Option String) (position : ℤ)
      → Keeps (Kept d list) (Repository.add_item list link name quantity unit notes position)
  add-Kept d list link name quantity unit notes position = record {
    at = λ w (s, v, o). (
      Spared-trans s (line-Spared h i list link name quantity unit notes position w v o),
      (add_line-Keeps list link name quantity unit notes position).at w v,
      line-Away i list link name quantity unit notes position w o,
    );
  }

  rest-Spared :
      (items : List InventoryItemResponse) (w : World)
      → WellFormed w.db
      → Spared i w.db (rest_of inv h u name items w).1.db
  unfolding Repository.create_list
  rest-Spared items w v =
      let create = exec (Queries.create_grocery_list inv name u) in
      let spared = wrote h i _ w (create_list-Spared i w.db v inv name u (moment w) ne) in
      bind_db (Spared i w.db) create _ w spared λ list e.
        let w' = (create w).1 in
        let (made, created) = exec-eq-ok _ w list e in
        let sound =
          exec_keeps WellFormed _ w v (create_list-WellFormed inv name u (moment w) w.db v) in
        let o : Away i list.id w'.db =
          subst (Away i list.id) (sym created)
            (new_list-Away i inv u name (moment w) w.db list ne made) in
        subst (Spared i w.db) (sym (bind_reads _ _ w' (λ _. respond-db to_list_response list)))
          ((lines-Keeps (Kept w.db list.id) list.id h (add-Kept w.db list.id) items (pos 0)).at w'
            (spared, sound, o)).0

pub auto_generate-Clear :
    (h i inv u : ℕ) (req : AutoGenerateRequest) → Clear h i (Service.auto_generate inv h u req)
unfolding Service.auto_generate host_clock env
auto_generate-Clear h i inv u req = after_inventory h i inv _ λ w v ne.
    let stocked = map_err Service.map_inventory_err (InventoryService.list_items inv h) in
    bind_after_read (Spared i w.db) stocked _ w (stocked-db inv h w) (Spared-refl i w.db) λ items _.
      let w2 = (stocked w).1 in
      let same : w2.db ≡ w.db = stocked-db inv h w in
      let start = subst (Spared i w.db) (sym same) (Spared-refl i w.db) in
      bind_db (Spared i w.db) host_clock _ w2 start λ now _.
        bind_db (Spared i w.db) env _ w2 start λ e _.
          let name = str_append "Auto-generated " (e.day_text now) in
          subst (λ d. Spared i d (rest_of inv h u name items w2).1.db) same
            (rest-Spared h i inv u name ne items w2 (subst WellFormed (sym same) v))
