-- ===== src/Inventory/Isolation/Requests.antt =====
-- The methods of the inventory service (service.go) and the inventories of other households.
use baskety.Base.{ℕ, ◌≡◌, ◌≢◌, refl, sym, ◌∙◌, map, arith}
use baskety.Table.Laws.{any_row-find_by}
use baskety.World.{World, M, ok, exec, pure, map_err, moment}
use mathlib.Core.Path.{subst}
use baskety.World.Laws.{bind_reads, bind_db, exec_keeps}
use baskety.Integrity.{WellFormed}
use baskety.Inventory.Integrity.{create_item-WellFormed}
use baskety.Inventory.Queries
use baskety.Inventory.Repository
use baskety.Inventory.Repository.{InventoryItem, to_item}
use baskety.Inventory.Dto.{
  InventoryRequest, CreateItemRequest, UpdateItemRequest, BatchRequest, to_item_response,
  to_inventory_response, to_batch_response,
}
use baskety.Inventory.Service
use baskety.Inventory.Request.{
  Request, serve, void, create_inventory, get_inventory, delete_inventory, list_items,
  list_inventories, update_inventory, create_item, get_item, delete_item, list_active_batches,
  get_effective_quantity, update_item, add_batch, mark_batch_emptied, delete_batch, patch_batch,
}
use baskety.Inventory.Scope.{Foreign, inventory_scope-db, item_scope-db}
use baskety.Inventory.Created.{created}
use baskety.Inventory.Isolation.{Untouched, Untouched-refl, Untouched-trans, Elsewhere}
use baskety.Inventory.Isolation.Statements.{
  create_inventory-Untouched, update_inventory-Untouched, delete_inventory-Untouched,
  create_item-Untouched, update_item-Untouched, soft_delete-Untouched, create_batch-Untouched,
  mark_batch-Untouched, delete_batch-Untouched, patch_batch-Untouched,
}
use baskety.Inventory.Effective.{listed-db, get_quantity-db, respond-db}
use baskety.Inventory.Isolation.Chains.{Spares-guard, Spares-read, Spares-reply}
use baskety.Inventory.Isolation.Rules.{
  Leaves, after_inventory, after_item, after_batch, replied, wrote, item_written,
}

module _ (h i : ℕ) where
  create_inventory-Leaves : (req : InventoryRequest) → Leaves h i (Service.create_inventory h req)
  unfolding Service.create_inventory Service.require_name Repository.create_inventory
  create_inventory-Leaves req = Spares-guard (Untouched i) (Untouched-refl i) h i _ _ _ (record {
    at = λ w v f. replied i w _ _ (
        wrote i w _ (
          create_inventory-Untouched i w.db v h req.name req.description (moment w)
            (any_row-find_by _ w.db.inventories f.owner f.found)));
  })

  update_inventory-Leaves :
      (id : ℕ) (req : InventoryRequest) → Leaves h i (Service.update_inventory id h req)
  unfolding Service.update_inventory Service.require_name Repository.update_inventory map_err
  update_inventory-Leaves id req = Spares-guard (Untouched i) (Untouched-refl i) h i _ _ _ (
      after_inventory h i id _ λ r w v ne. replied i w _ _ (
        wrote i w _
          (update_inventory-Untouched i w.db v id req.name req.description (moment w) ne)))

  delete_inventory-Leaves : (id : ℕ) → Leaves h i (Service.delete_inventory id h)
  unfolding Service.delete_inventory Repository.delete_inventory
  delete_inventory-Leaves id =
      after_inventory h i id _
        λ r w v ne. wrote i w _ (delete_inventory-Untouched i w.db v id (moment w) ne)

  update_item-Leaves :
      (id : ℕ) (req : UpdateItemRequest) → Leaves h i (Service.update_item id h req)
  unfolding Service.update_item Service.require_name Repository.update_item map_err
  update_item-Leaves id req = Spares-guard (Untouched i) (Untouched-refl i) h i _ _ _ (
      after_item h i id _ λ a w v o. replied i w _ _ (
        item_written i w _ _
          (wrote i w _ (update_item-Untouched i w.db v id _ _ _ _ _ (moment w) o))))

  delete_item-Leaves : (id : ℕ) → Leaves h i (Service.delete_item id h)
  unfolding Service.delete_item Repository.soft_delete_item
  delete_item-Leaves id =
      after_item h i id _ λ a w v o. wrote i w _ (soft_delete-Untouched i w.db v id (moment w) o)

  add_batch-Leaves : (id : ℕ) (req : BatchRequest) → Leaves h i (Service.add_batch id h req)
  unfolding Service.add_batch Repository.add_batch
  add_batch-Leaves id req = Spares-guard (Untouched i) (Untouched-refl i) h i _ _ _ (
      after_item h i id _ λ a w v o.
        replied i w _ _ (wrote i w _ (create_batch-Untouched i w.db v id _ _ _ (moment w) o)))

  patch_batch-Leaves :
      (id item : ℕ) (req : BatchRequest) → Leaves h i (Service.patch_batch id item h req)
  unfolding Service.patch_batch Repository.patch_batch map_err
  patch_batch-Leaves id item req = Spares-guard (Untouched i) (Untouched-refl i) h i _ _ _ (
      after_item h i item _ λ a w v o.
        replied i w _ _ (wrote i w _ (patch_batch-Untouched i w.db v id item _ _ _ (moment w) o)))

  mark_batch-Leaves : (id : ℕ) → Leaves h i (Service.mark_batch_emptied id h)
  unfolding Service.mark_batch_emptied Repository.mark_batch_emptied
  mark_batch-Leaves id =
      after_batch h i id _
        λ b w v found o. wrote i w _ (mark_batch-Untouched i w.db v id b (moment w) found o)

  delete_batch-Leaves : (id : ℕ) → Leaves h i (Service.delete_batch id h)
  unfolding Service.delete_batch Repository.delete_batch
  delete_batch-Leaves id =
      after_batch h i id _
        λ b w v found o. wrote i w _ (delete_batch-Untouched i w.db v id b (moment w) found o)

  module _ (id : ℕ) (req : CreateItemRequest) (w : World) (v : WellFormed w.db) where
    abbrev insert : M InventoryItem
    insert =
        map_err Service.name_taken
          (Repository.create_item id req.name req.category req.unit req.target_quantity req.notes)

    inserted_item : id ≢ i → Untouched i w.db (insert w).1.db
    unfolding Repository.create_item map_err
    inserted_item ne =
        item_written i w _ _
          (wrote i w _ (create_item-Untouched i w.db v id _ _ _ _ _ (moment w) ne))

    inserted_item-WellFormed : WellFormed (insert w).1.db
    unfolding Repository.create_item map_err pure
    inserted_item-WellFormed =
        subst WellFormed (sym (bind_reads _ (λ a. pure (to_item a)) w (λ a x. refl)))
          (exec_keeps WellFormed _ w v (create_item-WellFormed id _ _ _ _ _ (moment w) w.db v))

    first_batch :
        id ≢ i
        → (item : InventoryItem) → (insert w).0 ≡ ok item
        → Elsewhere i item.id (insert w).1.db
    first_batch ne item e =
        let (row, found, inside, _) = created id _ _ _ _ _ w item e in
        record { row = row; found = found; ne = λ bad. ne (sym inside.0 ∙ bad) }

  create_item-Leaves :
      (id : ℕ) (req : CreateItemRequest) → Leaves h i (Service.create_item id h req)
  unfolding Service.create_item Service.require_name Repository.add_batch
  create_item-Leaves id req = Spares-guard (Untouched i) (Untouched-refl i) h i _ _ _ (
      after_inventory h i id _ λ r w v ne.
        bind_db (Untouched i w.db) (insert id req w v) _ w (inserted_item id req w v ne) λ item e.
          let w' = (insert id req w v w).1 in
          Untouched-trans (inserted_item id req w v ne) (
            subst (Untouched i w'.db)
              (sym (bind_reads _ _ w' (λ a. respond-db to_item_response item)))
              (wrote i w' _ (
                create_batch-Untouched i w'.db (inserted_item-WellFormed id req w v) item.id _ _ _
                  (moment w') (first_batch id req w v ne item e)))))

  -- The reads.
  get_inventory-Leaves : (id : ℕ) → Leaves h i (Service.get_inventory id h)
  unfolding Service.get_inventory
  get_inventory-Leaves id =
      Spares-read (Untouched i) (Untouched-refl i) h i _
        λ w. bind_reads _ _ w (respond-db to_inventory_response) ∙ inventory_scope-db id h w

  list_inventories-Leaves : Leaves h i (Service.list_inventories h)
  unfolding Service.list_inventories Repository.list_inventories
      Queries.list_inventories_by_household exec
  list_inventories-Leaves =
      Spares-read (Untouched i) (Untouched-refl i) h i _
        λ w. bind_reads _ _ w (respond-db (λ show. map (to_inventory_response show))) ∙ ground arith

  get_item-Leaves : (id : ℕ) → Leaves h i (Service.get_item id h)
  unfolding Service.get_item
  get_item-Leaves id =
      Spares-read (Untouched i) (Untouched-refl i) h i _
        λ w. bind_reads _ _ w (respond-db to_item_response) ∙ item_scope-db id h w

  list_items-Leaves : (id : ℕ) → Leaves h i (Service.list_items id h)
  unfolding Service.list_items
  list_items-Leaves id = Spares-read (Untouched i) (Untouched-refl i) h i _ λ w.
      bind_reads _ _ w (λ a v.
        bind_reads _ _ v (respond-db (λ show. map (to_item_response show))) ∙ listed-db id v)
      ∙ inventory_scope-db id h w

  list_batches-db : (id : ℕ) (w : World) → (Repository.list_active_batches id w).1.db ≡ w.db
  unfolding Repository.list_active_batches Queries.list_active_batches_by_item exec
  list_batches-db id w = ground arith

  list_batches-Leaves : (id : ℕ) → Leaves h i (Service.list_active_batches id h)
  unfolding Service.list_active_batches
  list_batches-Leaves id = Spares-read (Untouched i) (Untouched-refl i) h i _ λ w.
      bind_reads _ _ w (λ a v.
        bind_reads _ _ v (respond-db (λ show. map (to_batch_response show))) ∙ list_batches-db id v)
      ∙ item_scope-db id h w

  get_effective_quantity-Leaves : (id : ℕ) → Leaves h i (Service.get_effective_quantity id h)
  unfolding Service.get_effective_quantity
  get_effective_quantity-Leaves id =
      Spares-read (Untouched i) (Untouched-refl i) h i _
        λ w. bind_reads _ _ w (λ a v. get_quantity-db id v) ∙ item_scope-db id h w

  void-Leaves {ℓ} : {A : Type ℓ} (m : M A) → Leaves h i m → Leaves h i (void m)
  unfolding pure
  void-Leaves m l = Spares-reply (Untouched i) (Untouched-refl i) h i m _ (λ a w. refl) l

serve-Leaves : (h i : ℕ) (req : Request) → Leaves h i (serve h req)
unfolding serve
serve-Leaves h i (create_inventory req) = void-Leaves h i _ (create_inventory-Leaves h i req)
serve-Leaves h i (get_inventory id) = void-Leaves h i _ (get_inventory-Leaves h i id)
serve-Leaves h i (delete_inventory id) = void-Leaves h i _ (delete_inventory-Leaves h i id)
serve-Leaves h i (list_items id) = void-Leaves h i _ (list_items-Leaves h i id)
serve-Leaves h i list_inventories = void-Leaves h i _ (list_inventories-Leaves h i)
serve-Leaves h i (update_inventory id req) = void-Leaves h i _ (update_inventory-Leaves h i id req)
serve-Leaves h i (create_item id req) = void-Leaves h i _ (create_item-Leaves h i id req)
serve-Leaves h i (get_item id) = void-Leaves h i _ (get_item-Leaves h i id)
serve-Leaves h i (delete_item id) = void-Leaves h i _ (delete_item-Leaves h i id)
serve-Leaves h i (list_active_batches id) = void-Leaves h i _ (list_batches-Leaves h i id)
serve-Leaves h i (get_effective_quantity id) =
    void-Leaves h i _ (get_effective_quantity-Leaves h i id)
serve-Leaves h i (update_item id req) = void-Leaves h i _ (update_item-Leaves h i id req)
serve-Leaves h i (add_batch id req) = void-Leaves h i _ (add_batch-Leaves h i id req)
serve-Leaves h i (mark_batch_emptied id) = void-Leaves h i _ (mark_batch-Leaves h i id)
serve-Leaves h i (delete_batch id) = void-Leaves h i _ (delete_batch-Leaves h i id)
serve-Leaves h i (patch_batch id item_id req) =
    void-Leaves h i _ (patch_batch-Leaves h i id item_id req)

-- Whatever a caller of the household `h` asks for and whatever fails on the way, in a well-formed
-- database an inventory of another household reads the same afterwards: its row, its items, the
-- batches of each of them, and its grocery lists.
pub serve-Untouched :
    (h i : ℕ) (req : Request) (w : World)
    → WellFormed w.db
    → Foreign h i w.db
    → Untouched i w.db (serve h req w).1.db
serve-Untouched h i req w = (serve-Leaves h i req).at w
