-- ===== src/Inventory/Integrity/Requests.antt =====
-- The methods of the inventory service (service.go) and the integrity of the tables.
use baskety.Base.{ℕ, String}
use baskety.World.{World, exec}
use baskety.World.Laws.{Keeps, Keeps-exec, keeps_rules}
use baskety.Integrity.{WellFormed}
use baskety.Inventory.Queries
use baskety.Inventory.Repository
use baskety.Inventory.Dto.{respond}
use baskety.Inventory.Service
use baskety.Inventory.Integrity.{
  create_inventory-WellFormed, update_inventory-WellFormed, delete_inventory-WellFormed,
  create_item-WellFormed, update_item-WellFormed, soft_delete-WellFormed, create_batch-WellFormed,
  mark_batch-WellFormed, delete_batch-WellFormed, patch_batch-WellFormed,
}
use baskety.Inventory.Request.{
  Request, serve, create_inventory, get_inventory, delete_inventory, list_items, list_inventories,
  update_inventory, create_item, get_item, delete_item, list_active_batches, get_effective_quantity,
  update_item, add_batch, mark_batch_emptied, delete_batch, patch_batch,
}

ruleset statements = (
  Keeps-exec, create_inventory-WellFormed, update_inventory-WellFormed, delete_inventory-WellFormed,
  create_item-WellFormed, update_item-WellFormed, soft_delete-WellFormed, create_batch-WellFormed,
  mark_batch-WellFormed, delete_batch-WellFormed, patch_batch-WellFormed,
)

pub respond-WellFormed {ℓ} :
    {A B : Type ℓ} (f : (ℕ → String) → A → B) (a : A) → Keeps WellFormed (respond f a)
unfolding respond
respond-WellFormed f a = search keeps_rules

-- The reads.
pub read_inventory-WellFormed : (id : ℕ) → Keeps WellFormed (exec (Queries.get_inventory_by_id id))
unfolding Queries.get_inventory_by_id
read_inventory-WellFormed id = Keeps-exec _ (λ w h. h)

pub read_inventories-WellFormed :
    (id : ℕ) → Keeps WellFormed (exec (Queries.list_inventories_by_household id))
unfolding Queries.list_inventories_by_household
read_inventories-WellFormed id = Keeps-exec _ (λ w h. h)

pub read_item-WellFormed : (id : ℕ) → Keeps WellFormed (exec (Queries.get_inventory_item_by_id id))
unfolding Queries.get_inventory_item_by_id
read_item-WellFormed id = Keeps-exec _ (λ w h. h)

pub read_items-WellFormed : (id : ℕ) → Keeps WellFormed (exec (Queries.list_inventory_items id))
unfolding Queries.list_inventory_items
read_items-WellFormed id = Keeps-exec _ (λ w h. h)

pub read_quantity-WellFormed :
    (id : ℕ) → Keeps WellFormed (exec (Queries.get_inventory_item_quantity id))
unfolding Queries.get_inventory_item_quantity
read_quantity-WellFormed id = Keeps-exec _ (λ w h. h)

pub read_batch-WellFormed :
    (id : ℕ) → Keeps WellFormed (exec (Queries.get_inventory_batch_by_id id))
unfolding Queries.get_inventory_batch_by_id
read_batch-WellFormed id = Keeps-exec _ (λ w h. h)

pub read_batches-WellFormed :
    (id : ℕ) → Keeps WellFormed (exec (Queries.list_active_batches_by_item id))
unfolding Queries.list_active_batches_by_item
read_batches-WellFormed id = Keeps-exec _ (λ w h. h)

pub ruleset reads = (
  respond-WellFormed, read_inventory-WellFormed, read_inventories-WellFormed, read_item-WellFormed,
  read_items-WellFormed, read_quantity-WellFormed, read_batch-WellFormed, read_batches-WellFormed,
)

pub inventory_scope-WellFormed : (id h : ℕ) → Keeps WellFormed (Service.assert_inventory_scope id h)
unfolding Service.assert_inventory_scope Repository.get_inventory
inventory_scope-WellFormed id h = search (keeps_rules, reads)

pub item_scope-WellFormed : (id h : ℕ) → Keeps WellFormed (Service.assert_item_scope id h)
unfolding Service.assert_item_scope Repository.get_item
item_scope-WellFormed id h = search (keeps_rules, reads, inventory_scope-WellFormed)

pub batch_scope-WellFormed : (id h : ℕ) → Keeps WellFormed (Service.assert_batch_scope id h)
unfolding Service.assert_batch_scope Repository.get_batch
batch_scope-WellFormed id h = search (keeps_rules, reads, item_scope-WellFormed)

pub ruleset scopes = (inventory_scope-WellFormed, item_scope-WellFormed, batch_scope-WellFormed)

ruleset chains = (keeps_rules, statements, reads, scopes)

serve-Keeps : (h : ℕ) (req : Request) → Keeps WellFormed (serve h req)
unfolding serve Service.require_name Service.create_inventory Service.get_inventory
    Service.list_inventories Service.update_inventory Service.delete_inventory Service.create_item
    Service.get_item Service.list_items Service.update_item Service.delete_item Service.add_batch
    Service.list_active_batches Service.mark_batch_emptied Service.delete_batch
    Service.get_effective_quantity Service.patch_batch Repository.add_batch
    Repository.create_inventory Repository.create_item Repository.delete_batch
    Repository.delete_inventory Repository.get_item_quantity Repository.list_active_batches
    Repository.list_inventories Repository.list_items Repository.mark_batch_emptied
    Repository.patch_batch Repository.soft_delete_item Repository.update_inventory
    Repository.update_item
serve-Keeps h (create_inventory req) = search chains depth 9
serve-Keeps h (get_inventory id) = search chains depth 9
serve-Keeps h list_inventories = search chains depth 9
serve-Keeps h (update_inventory id req) = search chains depth 9
serve-Keeps h (delete_inventory id) = search chains depth 9
serve-Keeps h (create_item id req) = search chains depth 9
serve-Keeps h (get_item id) = search chains depth 9
serve-Keeps h (list_items id) = search chains depth 9
serve-Keeps h (update_item id req) = search chains depth 9
serve-Keeps h (delete_item id) = search chains depth 9
serve-Keeps h (add_batch id req) = search chains depth 9
serve-Keeps h (list_active_batches id) = search chains depth 9
serve-Keeps h (mark_batch_emptied id) = search chains depth 9
serve-Keeps h (delete_batch id) = search chains depth 9
serve-Keeps h (get_effective_quantity id) = search chains depth 9
serve-Keeps h (patch_batch id item_id req) = search chains depth 9

-- Whatever the caller asks for, whatever fails on the way, a request on a well-formed database
-- leaves a well-formed one: ids stay unique and no reference is left dangling, by the cascades of a
-- deletion too.
pub serve-WellFormed :
    (h : ℕ) (req : Request) (w : World) → WellFormed w.db → WellFormed (serve h req w).1.db
serve-WellFormed h req w = (serve-Keeps h req).at w
