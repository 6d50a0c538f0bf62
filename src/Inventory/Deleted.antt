-- ===== src/Inventory/Deleted.antt =====
-- `DeleteItem` and `GetItem` of baskety/internal/inventory/service.go.
use mathlib.Core.Path.{subst}
use baskety.Base.{
  ℕ, ◌≡◌, refl, sym, ap, ◌∙◌, inl, inr, Option, none, some, List, [], ◌∷◌, Bool, Bool-cases, false,
  arith,
}
use baskety.Schema.{ItemRow, Db}
use baskety.Table.{find_by, update_where}
use baskety.World.{World, Env, Result, ok, err, not_found, inventory, moment, Moment}
use baskety.World.Laws.{bind-eq-ok, exec-eq-ok}
use baskety.World.Steady.{Steady, Steady-exec, Steady-bind}
use baskety.Inventory.Queries
use baskety.Inventory.Queries.Rows.{item_is}
use baskety.Inventory.Repository
use baskety.Inventory.Service
use baskety.Inventory.Effective.{scope-Steady}
use baskety.Inventory.Decision.{get_item_decides}

-- A row that is found by the test of an update was updated.
find_by-updated {ℓ} :
    {A : Type ℓ} (p : A → Bool) (f : A → A) (xs : List A) (r : A)
    → ((x : A) → p (f x) ≡ p x)
    → find_by p (update_where p f xs) ≡ some r
    → (x : A) × (f x ≡ r)
unfolding find_by update_where
find_by-updated p f [] r same h = absurd (ground arith)
find_by-updated p f (x ∷ xs) r same h = elim (Bool-cases (p x)) [
  | inl hit ↦ (x, ground (arith, same x, hit, h))
  | inr miss ↦ find_by-updated p f xs r same (ground (arith, miss, h))
]

deleted_row :
    (id : ℕ) (m : Moment) (d : Db) (row : ItemRow)
    → find_by (item_is id) (Queries.soft_delete_inventory_item id m d).1.items ≡ some row
    → row.deleted_at ≡ some m.now
unfolding Queries.soft_delete_inventory_item
deleted_row id m d row h =
    let (x, e) = find_by-updated (item_is id) _ d.items row (λ y. refl) h in
    sym (ap (λ (r : ItemRow). r.deleted_at) e)

delete_Steady : (id h : ℕ) → Steady (Service.delete_item id h)
unfolding Service.delete_item Repository.soft_delete_item
delete_Steady id h = Steady-bind _ _ (scope-Steady id h) λ _. Steady-exec _

-- Where no statement fails: once `DeleteItem` has succeeded, `GetItem` answers `ErrNotFound` for the
-- item, whoever asks.
pub get_item-delete_item :
    (id h h' : ℕ) (w : World)
    → ((k : ℕ) → w.env.fault k ≡ false)
    → (Service.delete_item id h w).0 ≡ ok tt
    → (Service.get_item id h' (Service.delete_item id h w).1).0 ≡ err (not_found inventory)
unfolding Service.delete_item Repository.soft_delete_item
get_item-delete_item id h h' w calm e =
    let w' = (Service.delete_item id h w).1 in
    let (it, _, step, e1) = bind-eq-ok (Service.assert_item_scope id h) _ w tt e in
    let w1 = (Service.assert_item_scope id h w).1 in
    let (_, gone) = exec-eq-ok (Queries.soft_delete_inventory_item id) w1 tt e1 in
    let final : w'.db ≡ (Queries.soft_delete_inventory_item id (moment w1) w1.db).1 =
      ap (λ (x : Result (Unit {0}) × World). x.1.db) step ∙ gone in
    let calm' = λ (k : ℕ). ap (λ (v : Env). v.fault k) ((delete_Steady id h).at w) ∙ calm k in
    elim (get_item_decides id h' w' calm') [
      | inl (o, _) ↦ absurd (
          clash _ o.alive (
            deleted_row id (moment w1) w1.db o.row
              (subst (λ (d : Db). find_by (item_is id) d.items ≡ some o.row) final o.found)))
      | inr (_, hidden) ↦ hidden
    ]
  where
    clash : {t : ℕ} (x : Option ℕ) → x ≡ none → x ≡ some t → ⊥
    clash x p q = ground arith
