-- ===== src/Grocery/Isolation/Requests.antt =====
-- The methods of the grocery service (service.go) and the lists of other households.
use baskety.Base.{ℕ, ◌≡◌, refl, ◌∙◌, arith}
use baskety.World.{World, M, exec, ◌>>=◌, pure}
use baskety.World.Laws.{bind_reads}
use baskety.Integrity.{WellFormed}
use baskety.Inventory.Scope.{Foreign}
use baskety.Inventory.Request.{void}
use baskety.Inventory.Effective.{respond-db}
use baskety.Inventory.Isolation.Chains.{Spares-read, Spares-reply}
use baskety.Grocery.Queries
use baskety.Grocery.Repository
use baskety.Grocery.Service
use baskety.Grocery.Scope.{scope-db, list_scope-db, item_scope-db}
use baskety.Grocery.Isolation.{Spared, Spared-refl}
use baskety.Grocery.Isolation.Writes.{
  Clear, create_list-Clear, archive_list-Clear, delete_list-Clear, rename_list-Clear,
  complete_list-Clear, add_item-Clear, update_item_status-Clear, reorder_item-Clear,
  delete_item-Clear,
}
use baskety.Grocery.Isolation.Generation.{auto_generate-Clear}
use baskety.Grocery.Request.{
  Request, serve, create_list, get_list, list_by_inventory, complete_list, archive_list,
  delete_list, rename_list, add_item, get_item, delete_item, list_items, update_item_status,
  reorder_item, auto_generate,
}

read_lists-db : (inv : ℕ) (w : World) → (Repository.list_by_inventory inv w).1.db ≡ w.db
unfolding Repository.list_by_inventory Queries.list_grocery_lists_by_inventory exec
read_lists-db inv w = ground arith

read_items-db : (list : ℕ) (w : World) → (Repository.list_items list w).1.db ≡ w.db
unfolding Repository.list_items Queries.list_grocery_list_items exec ◌>>=◌ pure
read_items-db list w = ground arith

module _ (h i : ℕ) where
  reads {ℓ} : {A : Type ℓ} (m : M A) → ((w : World) → (m w).1.db ≡ w.db) → Clear h i m
  reads m same = Spares-read (Spared i) (Spared-refl i) h i m same

  get_list-Clear : (id : ℕ) → Clear h i (Service.get_list id h)
  unfolding Service.get_list
  get_list-Clear id = reads _ λ w. bind_reads _ _ w (respond-db _) ∙ list_scope-db id h w

  list_by_inventory-Clear : (inv : ℕ) → Clear h i (Service.list_by_inventory inv h)
  unfolding Service.list_by_inventory
  list_by_inventory-Clear inv = reads _ λ w.
      bind_reads _ _ w (λ _ v. bind_reads _ _ v (respond-db _) ∙ read_lists-db inv v)
      ∙ scope-db inv h w

  get_item-Clear : (id list : ℕ) → Clear h i (Service.get_item id list h)
  unfolding Service.get_item
  get_item-Clear id list = reads _ λ w. bind_reads _ _ w (respond-db _) ∙ item_scope-db id list h w

  list_items-Clear : (list : ℕ) → Clear h i (Service.list_items list h)
  unfolding Service.list_items
  list_items-Clear list = reads _ λ w.
      bind_reads _ _ w (λ _ v. bind_reads _ _ v (respond-db _) ∙ read_items-db list v)
      ∙ list_scope-db list h w

  void-Clear {ℓ} : {A : Type ℓ} (m : M A) → Clear h i m → Clear h i (void m)
  unfolding pure
  void-Clear m c = Spares-reply (Spared i) (Spared-refl i) h i m _ (λ a w. refl) c

  serve-Clear : (u : ℕ) (req : Request) → Clear h i (serve h u req)
  unfolding serve
  serve-Clear u (create_list id req) = void-Clear _ (create_list-Clear h i id u req)
  serve-Clear u (get_list id) = void-Clear _ (get_list-Clear id)
  serve-Clear u (list_by_inventory id) = void-Clear _ (list_by_inventory-Clear id)
  serve-Clear u (complete_list id) = void-Clear _ (complete_list-Clear h i id)
  serve-Clear u (archive_list id) = void-Clear _ (archive_list-Clear h i id)
  serve-Clear u (delete_list id) = void-Clear _ (delete_list-Clear h i id)
  serve-Clear u (rename_list id name) = void-Clear _ (rename_list-Clear h i id name)
  serve-Clear u (add_item id req) = void-Clear _ (add_item-Clear h i id req)
  serve-Clear u (get_item id list) = void-Clear _ (get_item-Clear id list)
  serve-Clear u (delete_item id list) = void-Clear _ (delete_item-Clear h i id list)
  serve-Clear u (list_items id) = void-Clear _ (list_items-Clear id)
  serve-Clear u (update_item_status id list req) =
      void-Clear _ (update_item_status-Clear h i id list req)
  serve-Clear u (reorder_item id list req) = void-Clear _ (reorder_item-Clear h i id list req)
  serve-Clear u (auto_generate id req) = void-Clear _ (auto_generate-Clear h i id u req)

-- Whatever a user of the household `h` asks of the grocery API and whatever fails on the way, in a
-- well-formed database all inventories and all stock stay as they were, and so do the lists of an
-- inventory of another household and the lines of each of them.
pub serve-Spared :
    (h i u : ℕ) (req : Request) (w : World)
    → WellFormed w.db
    → Foreign h i w.db
    → Spared i w.db (serve h u req w).1.db
serve-Spared h i u req w = (serve-Clear h i u req).at w
