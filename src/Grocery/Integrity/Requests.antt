-- ===== src/Grocery/Integrity/Requests.antt =====
-- The methods of the grocery service (service.go) and the integrity of the tables.
use baskety.Base.{ℕ, String, Option, none, some, List, Bool-cases, inl, inr, is_empty}
use baskety.Base.Int.{ℤ}
use baskety.World.{World, raise, exec}
use baskety.World.Laws.{Keeps, Keeps-exec, Keeps-bind, Keeps-env, Keeps-pure, keeps_rules}
use baskety.Integrity.{WellFormed}
use baskety.Inventory.Dto.{ItemResponse as InventoryItemResponse}
use baskety.Inventory.Integrity.Requests.{reads, scopes}
use baskety.Inventory.Service as InventoryService
use baskety.Inventory.Repository as InventoryRepository
use baskety.Grocery.Queries
use baskety.Grocery.Repository
use baskety.Grocery.Service
use baskety.Grocery.Generate.Keeps.{lines-Keeps}
use baskety.Grocery.Service.{parsed}
use baskety.Grocery.Integrity.{
  create_list-WellFormed, update_list_status-WellFormed, rename_list-WellFormed,
  archive_list-WellFormed, delete_list-WellFormed, add_item-WellFormed,
  update_item_status-WellFormed, reorder_item-WellFormed, delete_item-WellFormed,
}
use baskety.Grocery.Request.{
  Request, serve, create_list, get_list, list_by_inventory, complete_list, archive_list,
  delete_list, rename_list, add_item, get_item, delete_item, list_items, update_item_status,
  reorder_item, auto_generate,
}

ruleset statements = (
  Keeps-exec, create_list-WellFormed, update_list_status-WellFormed, rename_list-WellFormed,
  archive_list-WellFormed, delete_list-WellFormed, add_item-WellFormed,
  update_item_status-WellFormed, reorder_item-WellFormed, delete_item-WellFormed,
)

read_list-WellFormed : (id : ℕ) → Keeps WellFormed (exec (Queries.get_grocery_list_by_id id))
unfolding Queries.get_grocery_list_by_id
read_list-WellFormed id = Keeps-exec _ (λ w h. h)

read_lists-WellFormed :
    (id : ℕ) → Keeps WellFormed (exec (Queries.list_grocery_lists_by_inventory id))
unfolding Queries.list_grocery_lists_by_inventory
read_lists-WellFormed id = Keeps-exec _ (λ w h. h)

read_list_item-WellFormed :
    (id : ℕ) → Keeps WellFormed (exec (Queries.get_grocery_list_item_by_id id))
unfolding Queries.get_grocery_list_item_by_id
read_list_item-WellFormed id = Keeps-exec _ (λ w h. h)

read_list_items-WellFormed : (id : ℕ) → Keeps WellFormed (exec (Queries.list_grocery_list_items id))
unfolding Queries.list_grocery_list_items
read_list_items-WellFormed id = Keeps-exec _ (λ w h. h)

ruleset list_reads = (
  read_list-WellFormed, read_lists-WellFormed, read_list_item-WellFormed,
  read_list_items-WellFormed,
)

inventory_scope-Keeps : (id h : ℕ) → Keeps WellFormed (Service.assert_inventory_scope id h)
unfolding Service.assert_inventory_scope InventoryService.get_inventory
inventory_scope-Keeps id h = search (keeps_rules, reads, scopes)

list_scope-Keeps : (id h : ℕ) → Keeps WellFormed (Service.assert_list_scope id h)
unfolding Service.assert_list_scope Repository.get_list
list_scope-Keeps id h = search (keeps_rules, list_reads, inventory_scope-Keeps)

item_scope-Keeps : (id list h : ℕ) → Keeps WellFormed (Service.assert_item_scope id list h)
unfolding Service.assert_item_scope Repository.get_item
item_scope-Keeps id list h = search (keeps_rules, list_reads, list_scope-Keeps)

Keeps-raise {ℓ} : {A : Type ℓ} (e : _) → Keeps {A = A} WellFormed (raise e)
unfolding raise
Keeps-raise e = record { at = λ w h. h }

parsed-Keeps : (o : Option ℕ) → Keeps WellFormed (parsed o)
parsed-Keeps none = Keeps-raise _
parsed-Keeps (some id) = Keeps-pure _

parse_link-Keeps : (link : Option String) → Keeps WellFormed (Service.parse_link link)
unfolding Service.parse_link
parse_link-Keeps none = Keeps-pure _
parse_link-Keeps (some s) = Keeps-bind _ _ Keeps-env λ e. elim (Bool-cases (is_empty s)) [
  | inl bad ↦ rw bad (Keeps-pure _)
  | inr good ↦ rw good (parsed-Keeps _)
]

pub add_line-Keeps :
    (list : ℕ) (link : Option ℕ) (name : String) (quantity : ℤ) (unit : String)
    (notes : Option String) (sort_order : ℤ)
    → Keeps WellFormed (Repository.add_item list link name quantity unit notes sort_order)
unfolding Repository.add_item
add_line-Keeps list link name quantity unit notes sort_order =
    search (keeps_rules, statements) depth 9

ruleset list_scopes =
    (inventory_scope-Keeps, list_scope-Keeps, item_scope-Keeps, parse_link-Keeps, add_line-Keeps)

stocked-Keeps : (id h : ℕ) → Keeps WellFormed (InventoryService.list_items id h)
unfolding InventoryService.list_items InventoryRepository.list_items
stocked-Keeps id h = search (keeps_rules, reads, scopes) depth 9

loop-Keeps :
    (list h : ℕ) (its : List InventoryItemResponse) (n : ℤ)
    → Keeps WellFormed (Service.generate_lines list h its n)
loop-Keeps list h its n = lines-Keeps WellFormed list h (add_line-Keeps list) its n

ruleset generation = (stocked-Keeps, loop-Keeps)

ruleset chains = (keeps_rules, statements, list_reads, list_scopes, reads, generation)

serve-Keeps : (h u : ℕ) (req : Request) → Keeps WellFormed (serve h u req)
unfolding serve Service.create_list Service.get_list Service.list_by_inventory Service.complete_list
    Service.archive_list Service.delete_list Service.rename_list Service.add_item Service.get_item
    Service.delete_item Service.list_items Service.update_item_status Service.reorder_item
    Service.auto_generate Repository.create_list Repository.list_by_inventory
    Repository.update_list_status Repository.archive_list Repository.rename_list
    Repository.delete_list Repository.list_items Repository.update_item_status
    Repository.reorder_item Repository.delete_item
serve-Keeps h u (create_list id req) = search chains depth 9
serve-Keeps h u (get_list id) = search chains depth 9
serve-Keeps h u (list_by_inventory id) = search chains depth 9
serve-Keeps h u (complete_list id) = search chains depth 9
serve-Keeps h u (archive_list id) = search chains depth 9
serve-Keeps h u (delete_list id) = search chains depth 9
serve-Keeps h u (rename_list id name) = search chains depth 9
serve-Keeps h u (add_item id req) = search chains depth 9
serve-Keeps h u (get_item id list_id) = search chains depth 9
serve-Keeps h u (delete_item id list_id) = search chains depth 9
serve-Keeps h u (list_items id) = search chains depth 9
serve-Keeps h u (update_item_status id list_id req) = search chains depth 9
serve-Keeps h u (reorder_item id list_id req) = search chains depth 9
serve-Keeps h u (auto_generate id req) = search chains depth 12

-- Whatever the caller asks for, whatever fails on the way, a request on a well-formed database
-- leaves a well-formed one: ids stay unique, and no line of a list and no link to an item is left
-- dangling.
pub grocery_serve-WellFormed :
    (h u : ℕ) (req : Request) (w : World) → WellFormed w.db → WellFormed (serve h u req w).1.db
grocery_serve-WellFormed h u req w = (serve-Keeps h u req).at w
