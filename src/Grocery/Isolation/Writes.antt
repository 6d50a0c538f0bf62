-- ===== src/Grocery/Isolation/Writes.antt =====
-- The methods of the grocery service that write, and the lists of other households.
use mathlib.Core.Path.{subst}
use baskety.Base.{
  ℕ, ◌≡◌, ◌≢◌, refl, sym, String, Option, some, none, Bool, Bool-cases, inl, inr, is_empty,
}
use baskety.Base.Int.{ℤ}
use baskety.Schema.{Db}
use baskety.Table.{find_by}
use baskety.World.{
  Error, World, M, Stmt, guard, host_clock, env, raise, exec, ◌>>=◌, ◌>>◌, pure, map_err, moment,
}
use baskety.World.Laws.{bind_after_read, bind_db, bind_reads, exec_keeps}
use baskety.Integrity.{WellFormed}
use baskety.Inventory.Scope.{Foreign, owner-ne}
use baskety.Inventory.Effective.{respond-db}
use baskety.Inventory.Isolation.Chains.{Spares, Spares-after, Spares-guard}
use baskety.Grocery.Queries.Rows.{list_item_is}
use baskety.Grocery.Repository
use baskety.Grocery.Repository.{GroceryListItem}
use baskety.Grocery.Service
use baskety.Grocery.Service.{parsed}
use baskety.Grocery.Dto.{ListRequest, AddItemRequest, UpdateItemStatusRequest, ReorderItemRequest}
use baskety.Grocery.Scope.{
  Mine, ListOwned, scope-db, scope-ok, list_scope-db, list_scope-ok, item_scope-db, item_scope-ok,
}
use baskety.Grocery.Isolation.{
  Spared, Spared-refl, Away, create_list-Spared, update_list_status-Spared, rename_list-Spared,
  archive_list-Spared, delete_list-Spared, add_item-Spared, update_item_status-Spared,
  reorder_item-Spared, delete_item-Spared,
}

Mine-ne : {h i inv : ℕ} {d : Db} → Mine h d inv → Foreign h i d → inv ≢ i
Mine-ne m f = owner-ne m.found m.mine f

away : {h i id : ℕ} {d : Db} → ListOwned h d id → Foreign h i d → Away i id d
away o f = record { row = o.row; found = o.found; ne = Mine-ne o.owner f }

module _ (h i : ℕ) where
  abbrev pub Clear {ℓ} : {A : Type ℓ} → M A → Type ℓ
  Clear m = Spares (Spared i) h i m

  pub Clear-guard {ℓ} :
      {A : Type ℓ} (b : Bool) (e : Error) (m : M A) → Clear m → Clear (guard b e >> m)
  Clear-guard b e m c = Spares-guard (Spared i) (Spared-refl i) h i b e m c

  pub after_inventory {ℓ} :
      {B : Type ℓ} (inv : ℕ) (k : M B)
      → ((w : World) → WellFormed w.db → inv ≢ i → Spared i w.db (k w).1.db)
      → Clear (Service.assert_inventory_scope inv h >> k)
  after_inventory inv k rest =
      Spares-after (Spared i) (Spared-refl i) h i _ (λ _. k) (λ _ d. Mine h d inv) (scope-db inv h)
        (λ w _ e. scope-ok inv h w e) λ _ w v f mine. rest w v (Mine-ne mine f)

  pub after_list {ℓ} :
      {B : Type ℓ} (id : ℕ) (k : M B)
      → ((w : World) → WellFormed w.db → Away i id w.db → Spared i w.db (k w).1.db)
      → Clear (Service.assert_list_scope id h >> k)
  after_list id k rest =
      Spares-after (Spared i) (Spared-refl i) h i _ (λ _. k) (λ _ d. ListOwned h d id)
        (list_scope-db id h)
        (λ w r e. record {
          row = r;
          found = (list_scope-ok id h w r e).0;
          owner = (list_scope-ok id h w r e).1;
        })
        λ _ w v f mine. rest w v (away mine f)

  pub after_item {ℓ} :
      {B : Type ℓ} (id list : ℕ) (k : M B)
      → ((w : World)
          → WellFormed w.db
          → (row : _) → find_by (list_item_is id) w.db.list_items ≡ some row
          → row.grocery_list_id ≡ list
          → Away i list w.db
          → Spared i w.db (k w).1.db)
      → Clear (Service.assert_item_scope id list h >> k)
  after_item id list k rest =
      Spares-after (Spared i) (Spared-refl i) h i _ (λ _. k)
        (λ _ d.
          (row : _) × (find_by (list_item_is id) d.list_items ≡ some row)
          × (row.grocery_list_id ≡ list)
          × ListOwned h d list)
        (item_scope-db id list h) (λ w it e. item_scope-ok id list h w it e)
        λ _ w v f (row, found, inside, mine). rest w v row found inside (away mine f)

  -- A write, and a write with its reply.
  pub wrote {ℓ} :
      {A : Type ℓ} (s : Stmt A) (w : World)
      → Spared i w.db (s (moment w) w.db).1
      → Spared i w.db (exec s w).1.db
  wrote s w u = exec_keeps (Spared i w.db) s w (Spared-refl i w.db) u

  pub replied {ℓ κ} :
      {A : Type ℓ} {B : Type κ} (m : M A) (k : A → M B) (w : World)
      → ((a : A) (v : World) → (k a v).1.db ≡ v.db)
      → Spared i w.db (m w).1.db
      → Spared i w.db ((m >>= k) w).1.db
  replied m k w same u = subst (Spared i w.db) (sym (bind_reads m k w same)) u

  replied_from {ℓ κ} :
      {A : Type ℓ} {B : Type κ} (w w' : World)
      → w'.db ≡ w.db
      → (m : M A) (k : A → M B) → ((a : A) (v : World) → (k a v).1.db ≡ v.db)
      → Spared i w'.db (m w').1.db
      → Spared i w.db ((m >>= k) w').1.db
  replied_from w w' same m k after u =
      subst (λ d. Spared i d ((m >>= k) w').1.db) same (replied m k w' after u)

  pub create_list-Clear : (inv u : ℕ) (req : ListRequest) → Clear (Service.create_list inv h u req)
  unfolding Service.create_list Repository.create_list
  create_list-Clear inv u req = Clear-guard _ _ _ (
      after_inventory inv _ λ w v ne.
        replied _ _ w (respond-db _)
          (wrote _ w (create_list-Spared i w.db v inv _ u (moment w) ne)))

  pub archive_list-Clear : (id : ℕ) → Clear (Service.archive_list id h)
  unfolding Service.archive_list Repository.archive_list
  archive_list-Clear id =
      after_list id _ λ w v o. wrote _ w (archive_list-Spared i w.db v id (moment w) o)

  pub delete_list-Clear : (id : ℕ) → Clear (Service.delete_list id h)
  unfolding Service.delete_list Repository.delete_list
  delete_list-Clear id =
      after_list id _ λ w v o. wrote _ w (delete_list-Spared i w.db v id (moment w) o)

  pub rename_list-Clear : (id : ℕ) (name : String) → Clear (Service.rename_list id h name)
  unfolding Service.rename_list Repository.rename_list map_err
  rename_list-Clear id name = Clear-guard _ _ _ (
      after_list id _ λ w v o.
        replied _ _ w (respond-db _) (wrote _ w (rename_list-Spared i w.db v id name (moment w) o)))

  pub complete_list-Clear : (id : ℕ) → Clear (Service.complete_list id h)
  unfolding Service.complete_list Repository.update_list_status map_err host_clock
  complete_list-Clear id = after_list id _ λ w v o.
      bind_db (Spared i w.db) host_clock _ w (Spared-refl i w.db) λ now _.
        replied _ _ w (respond-db _)
          (wrote _ w (update_list_status-Spared i w.db v id "completed" (some now) (moment w) o))

  parsed-db : (o : Option ℕ) (w : World) → (parsed o w).1.db ≡ w.db
  unfolding raise pure
  parsed-db none w = refl
  parsed-db (some k) w = refl

  parse_link-db : (link : Option String) (w : World) → (Service.parse_link link w).1.db ≡ w.db
  unfolding Service.parse_link pure env ◌>>=◌
  parse_link-db none w = refl
  parse_link-db (some s) w = elim (Bool-cases (is_empty s)) [
    | inl bad ↦ rw bad refl
    | inr good ↦ rw good (parsed-db (w.env.uuid_parse s) w)
  ]

  -- The addition of a line to a list that belongs elsewhere.
  pub line-Spared :
      (list : ℕ) (link : Option ℕ) (name : String) (quantity : ℤ) (unit : String)
      (notes : Option String) (position : ℤ) (w : World)
      → WellFormed w.db
      → Away i list w.db
      → Spared i w.db (Repository.add_item list link name quantity unit notes position w).1.db
  unfolding Repository.add_item pure
  line-Spared list link name quantity unit notes position w v o =
      replied _ _ w (λ a x. refl)
        (wrote _ w (add_item-Spared i w.db v list link name quantity _ notes _ (moment w) o))

  pub add_item-Clear : (id : ℕ) (req : AddItemRequest) → Clear (Service.add_item id h req)
  unfolding Service.add_item
  add_item-Clear id req = Clear-guard _ _ _ (
      after_list id _ λ w v o.
        bind_after_read (Spared i w.db) (Service.parse_link req.inventory_item_id) _ w
          (parse_link-db req.inventory_item_id w) (Spared-refl i w.db)
          λ link _.
            let w' = (Service.parse_link req.inventory_item_id w).1 in
            let same : w'.db ≡ w.db = parse_link-db req.inventory_item_id w in
            replied_from w w' same _ _ (respond-db _) (
              line-Spared id link req.name _ req.unit req.notes req.sort_order w'
                (subst WellFormed (sym same) v) (subst (Away i id) (sym same) o)))

  pub update_item_status-Clear :
      (id list : ℕ) (req : UpdateItemStatusRequest)
      → Clear (Service.update_item_status id list h req)
  unfolding Service.update_item_status Repository.update_item_status map_err pure
  update_item_status-Clear id list req = Clear-guard _ _ _ (
      after_item id list _ λ w v row found inside o. replied _ _ w (respond-db _) (
        replied _ _ w (λ a x. refl)
          (wrote _ w
            (update_item_status-Spared i w.db v id list row found inside o req.status (moment w)))))

  pub reorder_item-Clear :
      (id list : ℕ) (req : ReorderItemRequest) → Clear (Service.reorder_item id list h req)
  unfolding Service.reorder_item Repository.reorder_item
  reorder_item-Clear id list req = after_item id list _ λ w v row found inside o.
      wrote _ w (reorder_item-Spared i w.db v id list row found inside o _ (moment w))

  pub delete_item-Clear : (id list : ℕ) → Clear (Service.delete_item id list h)
  unfolding Service.delete_item Repository.delete_item
  delete_item-Clear id list = after_item id list _ λ w v row found inside o.
      wrote _ w (delete_item-Spared i w.db v id list row found inside o (moment w))
