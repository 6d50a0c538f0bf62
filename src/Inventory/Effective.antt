-- ===== src/Inventory/Effective.antt =====
-- The reads of the inventory service that the generation of a list is built on: `ListItems` and
-- `GetEffectiveQuantity`.
use mathlib.Core.Path.{subst₂}
use baskety.Base.{ℕ, String, ◌≡◌, refl, sym, ap, ◌∙◌, arith, List, [], ◌∷◌, map, ◌&&◌}
use baskety.Base.Int.{ℤ}
use baskety.Schema.{Db, ItemRow}
use baskety.Table.{order_by, select}
use baskety.World.{Env, World, ok, exec, ◌>>=◌, pure}
use baskety.World.Laws.{bind-eq-ok, exec-eq-ok, bind_reads, pure-eq-ok}
use baskety.World.Steady.{Steady, steady_rules}
use baskety.Inventory.Queries
use baskety.Inventory.Queries.Rows.{item_in, live}
use baskety.Inventory.Repository
use baskety.Inventory.Repository.{InventoryItem}
use baskety.Inventory.Dto.{ItemResponse, to_item_response, respond}
use baskety.Inventory.Service
use baskety.Inventory.Scope.{item_scope-db, inventory_scope-db}

quantity-ok :
    (id : ℕ) (w : World) (q : ℤ)
    → (Repository.get_item_quantity id w).0 ≡ ok q
    → q ≡ Queries.stock id w.db.batches
unfolding Repository.get_item_quantity Queries.get_inventory_item_quantity exec
quantity-ok id w q e = ground arith

pub get_quantity-db : (id : ℕ) (w : World) → (Repository.get_item_quantity id w).1.db ≡ w.db
unfolding Repository.get_item_quantity Queries.get_inventory_item_quantity exec
get_quantity-db id w = ground arith

pub effective-db : (id h : ℕ) (w : World) → (Service.get_effective_quantity id h w).1.db ≡ w.db
unfolding Service.get_effective_quantity
effective-db id h w = bind_reads _ _ w (λ a v. get_quantity-db id v) ∙ item_scope-db id h w

pub effective-ok :
    (id h : ℕ) (w : World) (q : ℤ)
    → (Service.get_effective_quantity id h w).0 ≡ ok q
    → q ≡ Queries.stock id w.db.batches
unfolding Service.get_effective_quantity
effective-ok id h w q e =
    let (it, scope, _, e1) = bind-eq-ok (Service.assert_item_scope id h) _ w q e in
    quantity-ok id _ q e1 ∙ ap (λ (d : Db). Queries.stock id d.batches) (item_scope-db id h w)

pub scope-Steady : (id h : ℕ) → Steady (Service.assert_item_scope id h)
unfolding Service.assert_item_scope Service.assert_inventory_scope Repository.get_item
    Repository.get_inventory
scope-Steady id h = search steady_rules depth 9

pub effective-Steady : (id h : ℕ) → Steady (Service.get_effective_quantity id h)
unfolding Service.get_effective_quantity Repository.get_item_quantity
effective-Steady id h = search (steady_rules, scope-Steady) depth 9

pub inventory_scope-Steady : (id h : ℕ) → Steady (Service.assert_inventory_scope id h)
unfolding Service.assert_inventory_scope Repository.get_inventory
inventory_scope-Steady id h = search steady_rules depth 9

pub get_inventory-Steady : (id h : ℕ) → Steady (Service.get_inventory id h)
unfolding Service.get_inventory respond
get_inventory-Steady id h = search (steady_rules, inventory_scope-Steady) depth 9

pub list_items-Steady : (id h : ℕ) → Steady (Service.list_items id h)
unfolding Service.list_items Repository.list_items respond
list_items-Steady id h = search (steady_rules, inventory_scope-Steady) depth 9

-- The items of an inventory that are not deleted, by name.
abbrev pub shelf : World → ℕ → List ItemRow
shelf w inventory_id =
    order_by (λ a b. w.env.name_le a.name b.name)
      (select (λ r. item_in inventory_id r && live r) w.db.items)

-- The answer for one of them, with what is in stock.
unfoldable pub shown : World → ItemRow → ItemResponse
unfolding to_item_response Repository.to_item_from_list_row Repository.to_item Queries.with_stock
shown w r =
    to_item_response w.env.uuid_string
      (Repository.to_item_from_list_row (Queries.with_stock w.db.batches r))

map-map {ℓ κ μ} :
    {A : Type ℓ} {B : Type κ} {C : Type μ} (f : B → C) (g : A → B) (xs : List A)
    → map f (map g xs) ≡ map (λ x. f (g x)) xs
map-map f g [] = refl
map-map f g (x ∷ xs) = ap (λ ys. f (g x) ∷ ys) (map-map f g xs)

listed-ok :
    (id : ℕ) (w : World) (rs : List InventoryItem)
    → (Repository.list_items id w).0 ≡ ok rs
    → rs
      ≡ map (λ r. Repository.to_item_from_list_row (Queries.with_stock w.db.batches r)) (shelf w id)
unfolding Repository.list_items Queries.list_inventory_items
listed-ok id w rs e =
    let (rows, got, _, rest) = bind-eq-ok (exec (Queries.list_inventory_items id)) _ w rs e in
    let (made, _) = exec-eq-ok _ w rows got in
    sym (pure-eq-ok _ rs _ rest)
    ∙ ap (map Repository.to_item_from_list_row) (sym (ok_inj made))
    ∙ map-map _ _ (shelf w id)
  where
    ok_inj : {A : Type 0} {a b : A} → ok a ≡ ok b → a ≡ b
    ok_inj h = cc

pub respond-ok {ℓ} :
    {A B : Type ℓ} (f : (ℕ → String) → A → B) (a : A) (w : World) (b : B)
    → (respond f a w).0 ≡ ok b
    → b ≡ f w.env.uuid_string a
unfolding respond
respond-ok f a w b e = cc

repository-Steady : (id : ℕ) → Steady (Repository.list_items id)
unfolding Repository.list_items
repository-Steady id = search steady_rules depth 9

-- Where `ListItems` succeeds, it answers with the shelf.
pub list_items-ok :
    (id h : ℕ) (w : World) (rs : List ItemResponse)
    → (Service.list_items id h w).0 ≡ ok rs
    → rs ≡ map (shown w) (shelf w id)
unfolding Service.list_items shown
list_items-ok id h w rs e =
    let (r, scope, _, e1) = bind-eq-ok (Service.assert_inventory_scope id h) _ w rs e in
    let w' = (Service.assert_inventory_scope id h w).1 in
    let (its, got, _, e2) = bind-eq-ok (Repository.list_items id) _ w' rs e1 in
    let same : (Repository.list_items id w').1.env ≡ w'.env = (repository-Steady id).at w' in
    subst₂
      (λ (e : Env) (d : Db).
        rs
        ≡ map
            (λ r.
              to_item_response e.uuid_string
                (Repository.to_item_from_list_row (Queries.with_stock d.batches r)))
            (order_by (λ a b. e.name_le a.name b.name)
              (select (λ r. item_in id r && live r) d.items)))
      ((inventory_scope-Steady id h).at w) (inventory_scope-db id h w)
      (respond-ok _ its _ rs e2
        ∙ ap (λ (e : Env). map (to_item_response e.uuid_string) its) same
        ∙ ap (map (to_item_response w'.env.uuid_string)) (listed-ok id w' its got)
        ∙ map-map _ _ (shelf w' id))

pub listed-db : (id : ℕ) (w : World) → (Repository.list_items id w).1.db ≡ w.db
unfolding Repository.list_items Queries.list_inventory_items exec ◌>>=◌ pure
listed-db id w = ground arith

pub respond-db {ℓ} :
    {A B : Type ℓ} (f : (ℕ → String) → A → B) (a : A) (w : World) → (respond f a w).1.db ≡ w.db
unfolding respond
respond-db f a w = refl

pub list_items-db : (id h : ℕ) (w : World) → (Service.list_items id h w).1.db ≡ w.db
unfolding Service.list_items
list_items-db id h w =
    bind_reads _ _ w (λ a v. bind_reads _ _ v (λ b x. respond-db _ b x) ∙ listed-db id v)
    ∙ inventory_scope-db id h w
