-- ===== src/Inventory/Isolation/Rules.antt =====
-- Rules for the methods of the inventory service: after a scope check, a write and its reply.
use mathlib.Core.Path.{subst}
use baskety.Base.{ℕ, ◌≡◌, ◌≢◌, refl, sym, String, some}
use baskety.Schema.{Db}
use baskety.Table.{find_by}
use baskety.World.{World, M, exec, ◌>>=◌, pure, moment, Stmt}
use baskety.World.Laws.{bind_reads, exec_keeps}
use baskety.Integrity.{WellFormed}
use baskety.Inventory.Queries.Rows.{inventory_is, batch_is}
use baskety.Inventory.Repository.{InventoryItem, InventoryBatch, Inventory}
use baskety.Inventory.Dto.{respond}
use baskety.Inventory.Service
use baskety.Inventory.Effective.{respond-db}
use baskety.Inventory.Isolation.Chains.{Spares, Spares-after}
use baskety.Inventory.Scope.{
  Foreign, Owned, Owned-ne, inventory_scope-db, inventory_scope-ok, owner-ne, item_scope-db,
  item_scope-ok, batch_scope-db, batch_scope-ok,
}
use baskety.Inventory.Isolation.{Untouched, Untouched-refl, Elsewhere}

-- The inventory `i` of another household reads the same after `m`.
abbrev pub Leaves {ℓ} : ℕ → ℕ → {A : Type ℓ} → M A → Type ℓ
Leaves h i m = Spares (Untouched i) h i m

module _ (h i : ℕ) where
  -- After each scope check.
  pub after_inventory {ℓ} :
      {B : Type ℓ} (id : ℕ) (k : Inventory → M B)
      → ((r : Inventory) (w : World) → WellFormed w.db → id ≢ i → Untouched i w.db (k r w).1.db)
      → Leaves h i (Service.assert_inventory_scope id h >>= k)
  after_inventory id k rest =
      Spares-after (Untouched i) (Untouched-refl i) h i _ k
        (λ r d. (find_by (inventory_is id) d.inventories ≡ some r) × (r.household_id ≡ h))
        (inventory_scope-db id h) (inventory_scope-ok id h)
        λ r w v f fact. rest r w v (owner-ne fact.0 fact.1 f)

  elsewhere : {id : ℕ} {d : Db} → Owned h d id → Foreign h i d → Elsewhere i id d
  elsewhere o f = record { row = o.row; found = o.found; ne = Owned-ne o f }

  pub after_item {ℓ} :
      {B : Type ℓ} (id : ℕ) (k : InventoryItem → M B)
      → ((a : InventoryItem) (w : World)
          → WellFormed w.db
          → Elsewhere i id w.db
          → Untouched i w.db (k a w).1.db)
      → Leaves h i (Service.assert_item_scope id h >>= k)
  after_item id k rest =
      Spares-after (Untouched i) (Untouched-refl i) h i _ k (λ _ d. Owned h d id)
        (item_scope-db id h) (λ w a e. (item_scope-ok id h w a e).0)
        λ a w v f fact. rest a w v (elsewhere fact f)

  pub after_batch {ℓ} :
      {B : Type ℓ} (id : ℕ) (k : InventoryBatch → M B)
      → ((b : InventoryBatch) (w : World)
          → WellFormed w.db
          → find_by (batch_is id) w.db.batches ≡ some b
          → Elsewhere i b.item_id w.db
          → Untouched i w.db (k b w).1.db)
      → Leaves h i (Service.assert_batch_scope id h >>= k)
  after_batch id k rest =
      Spares-after (Untouched i) (Untouched-refl i) h i _ k
        (λ b d. (find_by (batch_is id) d.batches ≡ some b) × Owned h d b.item_id)
        (batch_scope-db id h) (batch_scope-ok id h)
        λ b w v f fact. rest b w v fact.0 (elsewhere fact.1 f)

module _ (i : ℕ) (w : World) where
  -- A write and its reply.
  pub replied {ℓ} :
      {A B : Type ℓ} (m : M A) (f : (ℕ → String) → A → B)
      → Untouched i w.db (m w).1.db
      → Untouched i w.db ((m >>= respond f) w).1.db
  replied m f u = subst (Untouched i w.db) (sym (bind_reads m (respond f) w (respond-db f))) u

  pub wrote {ℓ} :
      {A : Type ℓ} (s : Stmt A)
      → Untouched i w.db (s (moment w) w.db).1
      → Untouched i w.db (exec s w).1.db
  wrote s u = exec_keeps (Untouched i w.db) s w (Untouched-refl i w.db) u

  pub item_written {ℓ} :
      {A B : Type ℓ} (m : M A) (f : A → B)
      → Untouched i w.db (m w).1.db
      → Untouched i w.db ((m >>= λ a. pure (f a)) w).1.db
  unfolding pure
  item_written m f u =
      subst (Untouched i w.db) (sym (bind_reads m (λ a. pure (f a)) w (λ a v. refl))) u
