-- ===== src/Inventory/Scope.antt =====
-- The scope checks of the inventory service (assertInventoryScope, assertItemScope,
-- assertBatchScope).
use mathlib.Core.Path.{subst₂}
use baskety.Base.{ℕ, ◌≡◌, ◌≢◌, sym, ap, ◌∙◌, some, none, arith}
use baskety.Schema.{InventoryRow, ItemRow, BatchRow, Db}
use baskety.Table.{find_by}
use baskety.World.{World, ok, exec, ◌>>=◌, pure, guard, map_err}
use baskety.World.Laws.{bind-eq-ok, guard-eq-ok, pure-eq-ok}
use baskety.Inventory.Queries
use baskety.Inventory.Queries.Rows.{inventory_is, item_is, batch_is}
use baskety.Inventory.Repository
use baskety.Inventory.Repository.{InventoryItem, to_item}
use baskety.Inventory.Service

-- `i` is an inventory, and its household is another one than `h`.
pub record Foreign (h i : ℕ) (d : Db) : Type 0 where
  pub owner : InventoryRow
  pub found : find_by (inventory_is i) d.inventories ≡ some owner
  pub other : owner.household_id ≢ h

-- The reads of the repository.
pub get_inventory-db : (id : ℕ) (w : World) → (Repository.get_inventory id w).1.db ≡ w.db
unfolding Repository.get_inventory Queries.get_inventory_by_id exec map_err
get_inventory-db id w = ground arith

pub get_item-db : (id : ℕ) (w : World) → (Repository.get_item id w).1.db ≡ w.db
unfolding Repository.get_item Queries.get_inventory_item_by_id exec ◌>>=◌ pure map_err to_item
get_item-db id w = ground arith

item_row-ok :
    (id : ℕ) (w : World) (row : ItemRow)
    → (map_err Repository.or_not_found (exec (Queries.get_inventory_item_by_id id)) w).0 ≡ ok row
    → find_by (item_is id) w.db.items ≡ some row
unfolding Queries.get_inventory_item_by_id exec map_err
item_row-ok id w row e = ground arith

pub get_item-ok :
    (id : ℕ) (w : World) (it : InventoryItem)
    → (Repository.get_item id w).0 ≡ ok it
    → (row : ItemRow) × (find_by (item_is id) w.db.items ≡ some row) × (to_item row ≡ it)
unfolding Repository.get_item
get_item-ok id w it e =
    let (row, got, _, rest) = bind-eq-ok _ _ w it e in
    (row, item_row-ok id w row got, pure-eq-ok _ it _ rest)

pub get_batch-db : (id : ℕ) (w : World) → (Repository.get_batch id w).1.db ≡ w.db
unfolding Repository.get_batch Queries.get_inventory_batch_by_id exec map_err
get_batch-db id w = ground arith

pub get_batch-ok :
    (id : ℕ) (w : World) (b : BatchRow)
    → (Repository.get_batch id w).0 ≡ ok b
    → find_by (batch_is id) w.db.batches ≡ some b
unfolding Repository.get_batch Queries.get_inventory_batch_by_id exec map_err
get_batch-ok id w b e = ground arith

-- The item is there and not deleted, and its inventory belongs to the household `h`.
pub record Owned (h : ℕ) (d : Db) (item_id : ℕ) : Type 0 where
  pub row : ItemRow
  pub found : find_by (item_is item_id) d.items ≡ some row
  pub alive : row.deleted_at ≡ none
  pub owner : InventoryRow
  pub owner_found : find_by (inventory_is row.inventory_id) d.inventories ≡ some owner
  pub mine : owner.household_id ≡ h

pub inventory_scope-db :
    (id h : ℕ) (w : World) → (Service.assert_inventory_scope id h w).1.db ≡ w.db
unfolding Service.assert_inventory_scope Repository.get_inventory Queries.get_inventory_by_id exec
    ◌>>=◌ pure guard map_err
inventory_scope-db id h w = ground arith

pub inventory_scope-ok :
    (id h : ℕ) (w : World) (r : InventoryRow)
    → (Service.assert_inventory_scope id h w).0 ≡ ok r
    → (find_by (inventory_is id) w.db.inventories ≡ some r) × (r.household_id ≡ h)
unfolding Service.assert_inventory_scope Repository.get_inventory Queries.get_inventory_by_id exec
    ◌>>=◌ pure guard map_err
inventory_scope-ok id h w r e = ground arith

pub item_scope-db : (id h : ℕ) (w : World) → (Service.assert_item_scope id h w).1.db ≡ w.db
unfolding Service.assert_item_scope ◌>>=◌ guard pure
item_scope-db id h w = grind (arith, get_item-db, inventory_scope-db)

pub item_scope-ok :
    (id h : ℕ) (w : World) (it : InventoryItem)
    → (Service.assert_item_scope id h w).0 ≡ ok it
    → (o : Owned h w.db id) × (to_item o.row ≡ it)
unfolding Service.assert_item_scope to_item
item_scope-ok id h w it e =
    let (a, got, _, e1) = bind-eq-ok (Repository.get_item id) _ w it e in
    let (alive, _, e2) = guard-eq-ok _ _ _ _ it e1 in
    let (r, scope, _, e3) =
      bind-eq-ok (Service.assert_inventory_scope a.inventory_id h) _ _ it e2 in
    let same : a ≡ it = pure-eq-ok _ it _ e3 in
    let (row, found, eq) = get_item-ok id w a got in
    let (owner, mine) = inventory_scope-ok _ h _ r scope in
    (
      record {
        row = row;
        found = found;
        alive = ground (arith, ap (λ (i : InventoryItem). i.deleted_at) eq);
        owner = r;
        owner_found =
            subst₂ (λ (d : Db) (k : ℕ). find_by (inventory_is k) d.inventories ≡ some r)
              (get_item-db id w) (ap (λ (i : InventoryItem). i.inventory_id) (sym eq)) owner;
        mine = mine;
      },
      eq ∙ same,
    )

pub batch_scope-db : (id h : ℕ) (w : World) → (Service.assert_batch_scope id h w).1.db ≡ w.db
unfolding Service.assert_batch_scope ◌>>=◌ pure
batch_scope-db id h w = grind (arith, get_batch-db, item_scope-db)

pub batch_scope-ok :
    (id h : ℕ) (w : World) (b : BatchRow)
    → (Service.assert_batch_scope id h w).0 ≡ ok b
    → (find_by (batch_is id) w.db.batches ≡ some b) × Owned h w.db b.item_id
unfolding Service.assert_batch_scope
batch_scope-ok id h w b e =
    let (a, got, _, e1) = bind-eq-ok (Repository.get_batch id) _ w b e in
    let (it, scope, _, e2) = bind-eq-ok (Service.assert_item_scope a.item_id h) _ _ b e1 in
    let same : a ≡ b = pure-eq-ok _ b _ e2 in
    let (owned, _) = item_scope-ok _ h _ it scope in
    (
      get_batch-ok id w a got ∙ ap some same,
      subst₂ (λ (d : Db) (k : BatchRow). Owned h d k.item_id) (get_batch-db id w) same owned,
    )

-- An inventory of the household `h` is no foreign one.
pub owner-ne :
    {h i id : ℕ} {d : Db} {r : InventoryRow}
    → find_by (inventory_is id) d.inventories ≡ some r
    → r.household_id ≡ h
    → Foreign h i d
    → id ≢ i
owner-ne {h} {i} {id} {d} {r} found mine f e =
    f.other (cc (found, mine, f.found, ap (λ k. find_by (inventory_is k) d.inventories) e))

pub Owned-ne : {h i id : ℕ} {d : Db} → (o : Owned h d id) → Foreign h i d → o.row.inventory_id ≢ i
Owned-ne o = owner-ne o.owner_found o.mine

pub inventory_scope-ne :
    (id h i : ℕ) (w : World) (r : InventoryRow)
    → (Service.assert_inventory_scope id h w).0 ≡ ok r
    → Foreign h i w.db
    → id ≢ i
inventory_scope-ne id h i w r e =
    let (found, mine) = inventory_scope-ok id h w r e in owner-ne found mine
