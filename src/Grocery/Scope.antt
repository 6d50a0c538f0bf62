-- ===== src/Grocery/Scope.antt =====
-- The scope checks of the grocery service (assertInventoryScope, assertListScope, assertItemScope).
use mathlib.Core.Path.{subst, subst₂}
use baskety.Base.{ℕ, ◌≡◌, refl, ap, ◌∙◌, some, arith, ==_iff}
use baskety.Schema.{InventoryRow, ListRow, ListItemRow, Db}
use baskety.Table.{find_by}
use baskety.World.{World, ok, exec, ◌>>=◌, pure, guard, map_err}
use baskety.World.Laws.{bind-eq-ok, guard-eq-ok, pure-eq-ok, map_err-eq-ok, bind_reads}
use baskety.Inventory.Queries.Rows.{inventory_is}
use baskety.Inventory.Service as InventoryService
use baskety.Inventory.Scope.{inventory_scope-db, inventory_scope-ok}
use baskety.Inventory.Effective.{respond-db}
use baskety.Grocery.Queries
use baskety.Grocery.Queries.Rows.{list_is, list_item_is}
use baskety.Grocery.Repository
use baskety.Grocery.Repository.{GroceryListItem}
use baskety.Grocery.Service

pub scope-db : (inv h : ℕ) (w : World) → (Service.assert_inventory_scope inv h w).1.db ≡ w.db
unfolding Service.assert_inventory_scope InventoryService.get_inventory map_err pure
scope-db inv h w =
    bind_reads _ _ w (λ a v. refl) ∙ bind_reads _ _ w (respond-db _) ∙ inventory_scope-db inv h w

-- The inventory is one of the household `h`.
pub record Mine (h : ℕ) (d : Db) (inv : ℕ) : Type 0 where
  pub owner : InventoryRow
  pub found : find_by (inventory_is inv) d.inventories ≡ some owner
  pub mine : owner.household_id ≡ h

pub scope-ok :
    (inv h : ℕ) (w : World) → (Service.assert_inventory_scope inv h w).0 ≡ ok tt → Mine h w.db inv
unfolding Service.assert_inventory_scope InventoryService.get_inventory
scope-ok inv h w e =
    let (r, got, _, _) =
      bind-eq-ok (map_err Service.map_inventory_err (InventoryService.get_inventory inv h)) _ w tt
        e in
    let (owner, scope, _, _) =
      bind-eq-ok (InventoryService.assert_inventory_scope inv h) _ w r
        (map_err-eq-ok Service.map_inventory_err _ w r got) in
    let (found, mine) = inventory_scope-ok inv h w owner scope in
    record { owner = owner; found = found; mine = mine }

get_list-db : (id : ℕ) (w : World) → (Repository.get_list id w).1.db ≡ w.db
unfolding Repository.get_list Queries.get_grocery_list_by_id exec map_err
get_list-db id w = ground arith

get_list-ok :
    (id : ℕ) (w : World) (r : ListRow)
    → (Repository.get_list id w).0 ≡ ok r
    → find_by (list_is id) w.db.lists ≡ some r
unfolding Repository.get_list Queries.get_grocery_list_by_id exec map_err
get_list-ok id w r e = ground arith

pub list_scope-db : (id h : ℕ) (w : World) → (Service.assert_list_scope id h w).1.db ≡ w.db
unfolding Service.assert_list_scope pure
list_scope-db id h w =
    bind_reads _ _ w (λ r v. bind_reads _ _ v (λ _ x. refl) ∙ scope-db r.inventory_id h v)
    ∙ get_list-db id w

pub list_scope-ok :
    (id h : ℕ) (w : World) (r : ListRow)
    → (Service.assert_list_scope id h w).0 ≡ ok r
    → (find_by (list_is id) w.db.lists ≡ some r) × Mine h w.db r.inventory_id
unfolding Service.assert_list_scope
list_scope-ok id h w r e =
    let (l, got, _, e1) = bind-eq-ok (Repository.get_list id) _ w r e in
    let (_, scope, _, e2) = bind-eq-ok (Service.assert_inventory_scope l.inventory_id h) _ _ r e1 in
    let same : l ≡ r = pure-eq-ok l r _ e2 in
    (
      get_list-ok id w l got ∙ ap some same,
      subst₂ (λ (d : Db) (x : ListRow). Mine h d x.inventory_id) (get_list-db id w) same
          (scope-ok l.inventory_id h _ scope),
    )

get_item-db : (id : ℕ) (w : World) → (Repository.get_item id w).1.db ≡ w.db
unfolding Repository.get_item Queries.get_grocery_list_item_by_id exec ◌>>=◌ pure map_err
    Repository.to_item
get_item-db id w = ground arith

item_row-ok :
    (id : ℕ) (w : World) (row : ListItemRow)
    → (map_err Repository.or_not_found (exec (Queries.get_grocery_list_item_by_id id)) w).0 ≡ ok row
    → find_by (list_item_is id) w.db.list_items ≡ some row
unfolding Queries.get_grocery_list_item_by_id exec map_err
item_row-ok id w row e = ground arith

pub item_scope-db :
    (id list h : ℕ) (w : World) → (Service.assert_item_scope id list h w).1.db ≡ w.db
unfolding Service.assert_item_scope ◌>>=◌ guard pure
item_scope-db id list h w = grind (arith, get_item-db, list_scope-db)

-- The line belongs to the list, and the list to an inventory of the household `h`.
pub record ListOwned (h : ℕ) (d : Db) (list : ℕ) : Type 0 where
  pub row : ListRow
  pub found : find_by (list_is list) d.lists ≡ some row
  pub owner : Mine h d row.inventory_id

pub item_scope-ok :
    (id list h : ℕ) (w : World) (it : GroceryListItem)
    → (Service.assert_item_scope id list h w).0 ≡ ok it
    → (row : ListItemRow) × (find_by (list_item_is id) w.db.list_items ≡ some row)
      × (row.grocery_list_id ≡ list)
      × ListOwned h w.db list
unfolding Service.assert_item_scope Repository.get_item Repository.to_item
item_scope-ok id list h w it e =
    let (a, got, _, e1) = bind-eq-ok (Repository.get_item id) _ w it e in
    let (same, _, e2) = guard-eq-ok _ _ _ _ it e1 in
    let (l, scope, _, e3) = bind-eq-ok (Service.assert_list_scope list h) _ _ it e2 in
    let (found, mine) = list_scope-ok list h _ l scope in
    let (row, got_row, _, e4) =
      bind-eq-ok (map_err Repository.or_not_found (exec (Queries.get_grocery_list_item_by_id id))) _
        w a got in
    let eq : Repository.to_item row ≡ a = pure-eq-ok (Repository.to_item row) a _ e4 in
    (
      row,
      item_row-ok id w row got_row,
      ap (λ (x : GroceryListItem). x.grocery_list_id) eq ∙ (==_iff a.grocery_list_id list).0 same,
      subst (λ (d : Db). ListOwned h d list) (get_item-db id w)
          (record { row = l; found = found; owner = mine }),
    )
