-- ===== src/Grocery/Generate/Generated.antt =====
-- The whole of `AutoGenerate`: the reading of the shelf, the new list, and the loop.
use Prim.Native.String.{◌++◌ as str_append}
use mathlib.Core.Path.{subst}
use baskety.Base.{
  ℕ, ◌≡◌, refl, sym, ap, ◌∙◌, String, true, false, some, List, [], ◌∷◌, ◌++◌, map, Bool-cases, inl,
  inr, ◌&&◌, ==_iff,
}
use baskety.Base.Int.{pos}
use baskety.Schema.{ItemRow, ListRow, ListItemRow, Db}
use baskety.Inventory.Queries.Rows.{item_in, live}
use baskety.Table.{order_by, select, any_row}
use baskety.Table.Laws.{AllRows}
use baskety.World.{
  World, Env, Result, M, ok, exec, Moment, moment, ◌>>=◌, ◌>>◌, map_err, env, host_clock,
}
use baskety.World.Laws.{bind-eq-ok, exec-eq-ok, map_err-eq-ok}
use baskety.World.Steady.{Steady, Steady-exec, Steady-map_err, steady_rules}
use baskety.Integrity.{WellFormed, inserted-eq-ok, has_list}
use baskety.Inventory.Dto.{ItemResponse as InventoryItemResponse, respond}
use baskety.Inventory.Effective.{
  shelf, shown, list_items-ok, list_items-Steady, list_items-db, get_inventory-Steady, respond-ok,
}
use baskety.Inventory.Effective.{respond-db}
use baskety.Inventory.Service as InventoryService
use baskety.Grocery.Queries
use baskety.Grocery.Queries.Rows.{list_is, list_item_of}
use baskety.Grocery.Repository
use baskety.Grocery.Dto.{AutoGenerateRequest, ListResponse, to_list_response}
use baskety.Grocery.Service
use baskety.Grocery.Scope.{scope-db}
use baskety.Grocery.Generate.{lines, shortfalls}
use baskety.Grocery.Generate.Loop.{lines-ok, lines_Steady}

-- A list that is not there has no lines.
no_lines :
    (k : ℕ) (d : Db) (rows : List ListItemRow)
    → any_row (list_is k) d.lists ≡ false
    → AllRows (λ r. has_list d r.grocery_list_id ≡ true) rows
    → select (list_item_of k) rows ≡ []
unfolding select
no_lines k d [] free refs = refl
no_lines k d (r ∷ rows) free refs = elim (Bool-cases (list_item_of k r)) [
  | inl mine ↦ absurd (cc (refs.0, free, ap (has_list d) ((==_iff r.grocery_list_id k).0 mine)))
  | inr other ↦ rw other (no_lines k d rows free refs.1)
]

new_list :
    (inv u : ℕ) (name : String) (m : Moment) (d : Db) (row : ListRow)
    → WellFormed d
    → (Queries.create_grocery_list inv name u m d).0 ≡ ok row
    → (row.inventory_id ≡ inv)
      × (row.status ≡ "active")
      × (lines row.id (Queries.create_grocery_list inv name u m d).1 ≡ [])
      × ((Queries.create_grocery_list inv name u m d).1.batches ≡ d.batches)
unfolding Queries.create_grocery_list lines
new_list inv u name m d row v h =
    let (same, clash, _, _, made) = inserted-eq-ok _ _ _ _ d _ row h in
    (
      sym (ap (λ (l : ListRow). l.inventory_id) same),
      sym (ap (λ (l : ListRow). l.status) same),
      rw made (rw (← same) (ap (map _) (no_lines m.fresh d d.list_items clash v.list_item_refs))),
      rw made refl,
    )

scope-Steady : (inv h : ℕ) → Steady (Service.assert_inventory_scope inv h)
unfolding Service.assert_inventory_scope
scope-Steady inv h = search (steady_rules, get_inventory-Steady)

pub stocked-db :
    (inv h : ℕ) (w : World)
    → (map_err Service.map_inventory_err (InventoryService.list_items inv h) w).1.db ≡ w.db
unfolding map_err
stocked-db inv h w = list_items-db inv h w

-- The part of the method after the items are read and the list is named.
abbrev pub rest_of : ℕ → ℕ → ℕ → String → List InventoryItemResponse → M ListResponse
rest_of inv h u name items = do
  list ← Repository.create_list inv name u
  Service.generate_lines list.id h items (pos 0)
  respond to_list_response list

module _ (inv h u : ℕ) (name : String) (w1 : World)
    (readable : (k : ℕ) → w1.env.uuid_parse (w1.env.uuid_string k) ≡ some k) where
  rest-ok :
      (rows : List ItemRow) (w : World) (r : ListResponse)
      → w.env ≡ w1.env
      → WellFormed w.db
      → (rest_of inv h u name (map (shown w1) rows) w).0 ≡ ok r
      → (list : ListRow) × (r ≡ to_list_response w1.env.uuid_string list)
        × (list.inventory_id ≡ inv)
        × (list.status ≡ "active")
        × (lines list.id (rest_of inv h u name (map (shown w1) rows) w).1.db
            ≡ shortfalls w.db.batches rows (pos 0))
  unfolding Repository.create_list
  rest-ok rows w r same v e =
      let (list, got, s1, e1) =
        bind-eq-ok (exec (Queries.create_grocery_list inv name u)) _ w r e in
      let (made, created) = exec-eq-ok _ w list got in
      let (inside, active, empty, kept) = new_list inv u name (moment w) w.db list v made in
      let w' = (exec (Queries.create_grocery_list inv name u) w).1 in
      let (u', got2, s2, e2) =
        bind-eq-ok (Service.generate_lines list.id h (map (shown w1) rows) (pos 0)) _ w' r e1 in
      let same' = (Steady-exec (Queries.create_grocery_list inv name u)).at w ∙ same in
      let (all, _) = lines-ok list.id h w1 readable rows (pos 0) w' same' got2 in
      let w'' = (Service.generate_lines list.id h (map (shown w1) rows) (pos 0) w').1 in
      let final =
        ap (λ (x : Result ListResponse × World). x.1.db) (s1 ∙ s2)
        ∙ respond-db to_list_response list w'' in
      (
        list,
        respond-ok to_list_response list w'' r e2
            ∙ ap (λ (v : Env). to_list_response v.uuid_string list)
                ((lines_Steady list.id h (map (shown w1) rows) (pos 0)).at w' ∙ same'),
        inside,
        active,
        ap (lines list.id) final
            ∙ all
            ∙ ap (λ ls. ls ++ shortfalls w'.db.batches rows (pos 0))
                (ap (lines list.id) created ∙ empty)
            ∙ ap (λ bs. shortfalls bs rows (pos 0)) (ap (λ (d : Db). d.batches) created ∙ kept),
      )

-- The text of the date in the name of a generated list.
abbrev named : World → String
named w = str_append "Auto-generated " (w.env.day_text (w.env.host_now w.ticks))

after_reading :
    (inv h u : ℕ) (items : List InventoryItemResponse) (w : World)
    → (do
      now ← host_clock
      e ← env
      rest_of inv h u (str_append "Auto-generated " (e.day_text now)) items)
        w
      ≡ rest_of inv h u (named w) items w
unfolding host_clock env ◌>>=◌
after_reading inv h u items w = refl

shelf_same : (inv : ℕ) (w w' : World) → w.env ≡ w'.env → w.db ≡ w'.db → shelf w inv ≡ shelf w' inv
shelf_same inv w w' same kept =
    ap
      (λ (e : Env).
        order_by (λ a b. e.name_le a.name b.name)
          (select (λ r. item_in inv r && live r) w.db.items))
      same
    ∙ ap
        (λ (d : Db).
          order_by (λ a b. w'.env.name_le a.name b.name)
            (select (λ r. item_in inv r && live r) d.items))
        kept

-- In a well-formed database whose uuids are read back as they were written: where `AutoGenerate`
-- succeeds, it returns an active list of the inventory, and the lines of that list are those that the
-- shelf needs, one pending line for each item, in the order of names, whose stock is below its
-- target, for what is missing, numbered from 0.
pub auto_generate-lines :
    (inv h u : ℕ) (req : AutoGenerateRequest) (w : World) (r : ListResponse)
    → WellFormed w.db
    → ((k : ℕ) → w.env.uuid_parse (w.env.uuid_string k) ≡ some k)
    → (Service.auto_generate inv h u req w).0 ≡ ok r
    → (list : ListRow) × (r ≡ to_list_response w.env.uuid_string list)
      × (list.inventory_id ≡ inv)
      × (list.status ≡ "active")
      × (lines list.id (Service.auto_generate inv h u req w).1.db
          ≡ shortfalls w.db.batches (shelf w inv) (pos 0))
unfolding Service.auto_generate
auto_generate-lines inv h u req w r v readable e =
    let (_, _, s1, e1) = bind-eq-ok (Service.assert_inventory_scope inv h) _ w r e in
    let w1 = (Service.assert_inventory_scope inv h w).1 in
    let stocked = map_err Service.map_inventory_err (InventoryService.list_items inv h) in
    let (items, got, s2, e2) = bind-eq-ok stocked _ w1 r e1 in
    let w2 = (stocked w1).1 in
    let what : items ≡ map (shown w1) (shelf w1 inv) =
      list_items-ok inv h w1 items (
        map_err-eq-ok Service.map_inventory_err (InventoryService.list_items inv h) w1 items got) in
    let named_rest = after_reading inv h u items w2 in
    let env1 : w1.env ≡ w.env = (scope-Steady inv h).at w in
    let env2 : w2.env ≡ w1.env = (Steady-map_err _ _ (list_items-Steady inv h)).at w1 in
    let db1 : w1.db ≡ w.db = scope-db inv h w in
    let db2 : w2.db ≡ w1.db = stocked-db inv h w1 in
    let run = ap (λ its. rest_of inv h u (named w2) its w2) what in
    let (list, reply, inside, active, all) =
      rest-ok inv h u (named w2) w1
        (λ k. ap (λ (x : Env). x.uuid_parse (x.uuid_string k)) env1 ∙ readable k) (shelf w1 inv) w2
        r env2 (subst WellFormed (sym (db2 ∙ db1)) v)
        (sym (ap (λ x. x.0) (named_rest ∙ run)) ∙ e2) in
    (
      list,
      reply ∙ ap (λ (x : Env). to_list_response x.uuid_string list) env1,
      inside,
      active,
      ap (λ (x : Result ListResponse × World). lines list.id x.1.db) (s1 ∙ s2 ∙ named_rest ∙ run)
          ∙ all
          ∙ ap (λ (d : Db). shortfalls d.batches (shelf w1 inv) (pos 0)) (db2 ∙ db1)
          ∙ ap (λ rows. shortfalls w.db.batches rows (pos 0)) (shelf_same inv w1 w env1 db1),
    )
