-- ===== src/Inventory/Decision.antt =====
-- `GetItem` of baskety/internal/inventory/service.go, case by case.
use baskety.Base.{
  ℕ, ◌+◌, ◌≡◌, ap, ◌∙◌, ◌⊎◌, inl, inr, Option, none, some, Option-cases, Bool-cases, true, false,
  arith, ◌==◌, ==_iff, is_some, not,
}
use baskety.Schema.{InventoryRow, ItemRow, Db}
use baskety.Table.{find_by}
use baskety.World.{World, ok, err, not_found, inventory, exec, ◌>>=◌, pure, guard, map_err, env}
use baskety.Inventory.Queries
use baskety.Inventory.Queries.Rows.{inventory_is, item_is}
use baskety.Inventory.Repository
use baskety.Inventory.Dto.{to_item_response, respond}
use baskety.Inventory.Scope.{Owned}
use baskety.Inventory.Service

module _ (id h : ℕ) (w : World) (calm : (k : ℕ) → w.env.fault k ≡ false) where
  missing_item :
      find_by (item_is id) w.db.items ≡ none
      → (Service.get_item id h w).0 ≡ err (not_found inventory)
  unfolding Service.get_item Service.assert_item_scope Repository.get_item
      Queries.get_inventory_item_by_id exec ◌>>=◌ map_err
  missing_item found = ground (arith, calm w.ticks, found)

  deleted_item :
      (row : ItemRow)
      → find_by (item_is id) w.db.items ≡ some row
      → not (is_some row.deleted_at) ≡ false
      → (Service.get_item id h w).0 ≡ err (not_found inventory)
  unfolding Service.get_item Service.assert_item_scope Repository.get_item Repository.to_item
      Queries.get_inventory_item_by_id exec ◌>>=◌ map_err pure guard
  deleted_item row found gone = ground (arith, calm w.ticks, found, gone)

  module _ (row : ItemRow) (found : find_by (item_is id) w.db.items ≡ some row)
      (alive : not (is_some row.deleted_at) ≡ true) where
    missing_inventory :
        find_by (inventory_is row.inventory_id) w.db.inventories ≡ none
        → (Service.get_item id h w).0 ≡ err (not_found inventory)
    unfolding Service.get_item Service.assert_item_scope Service.assert_inventory_scope
        Repository.get_item Repository.get_inventory Repository.to_item
        Queries.get_inventory_item_by_id Queries.get_inventory_by_id exec ◌>>=◌ map_err pure guard
    missing_inventory gone = ground (arith, calm w.ticks, calm (w.ticks + 1), found, alive, gone)

    module _ (owner : InventoryRow)
        (owned : find_by (inventory_is row.inventory_id) w.db.inventories ≡ some owner) where
      foreign_inventory :
          (owner.household_id == h) ≡ false
          → (Service.get_item id h w).0 ≡ err (not_found inventory)
      unfolding Service.get_item Service.assert_item_scope Service.assert_inventory_scope
          Repository.get_item Repository.get_inventory Repository.to_item
          Queries.get_inventory_item_by_id Queries.get_inventory_by_id exec ◌>>=◌ map_err pure guard
      foreign_inventory other =
          ground (arith, calm w.ticks, calm (w.ticks + 1), found, alive, owned, other)

      shown_item :
          (owner.household_id == h) ≡ true
          → (Service.get_item id h w).0
            ≡ ok (to_item_response w.env.uuid_string (Repository.to_item row))
      unfolding Service.get_item Service.assert_item_scope Service.assert_inventory_scope
          Repository.get_item Repository.get_inventory Repository.to_item
          Queries.get_inventory_item_by_id Queries.get_inventory_by_id exec ◌>>=◌ map_err pure guard
          respond env to_item_response
      shown_item mine = ground (arith, calm w.ticks, calm (w.ticks + 1), found, alive, owned, mine)

same_some {ℓ} : {A : Type ℓ} {a b : A} (o : Option A) → o ≡ some a → o ≡ some b → a ≡ b
same_some o e f = cc

-- The inventory of an item that is owned is the one found.
same_owner :
    {h id : ℕ} {d : Db} (o : Owned h d id) (row : ItemRow)
    → find_by (item_is id) d.items ≡ some row
    → find_by (inventory_is row.inventory_id) d.inventories ≡ some o.owner
same_owner {h} {id} {d} o row found =
    ap (λ (x : ItemRow). find_by (inventory_is x.inventory_id) d.inventories)
      (same_some _ found o.found)
    ∙ o.owner_found

-- Where no statement fails, `GetItem` answers with the item where it is there, not deleted, and in an
-- inventory of the household of the caller, and with `ErrNotFound` in every other case, so that an
-- item of another household cannot be told from one that does not exist.
pub get_item_decides :
    (id h : ℕ) (w : World)
    → ((k : ℕ) → w.env.fault k ≡ false)
    → ((o : Owned h w.db id) × ((Service.get_item id h w).0
          ≡ ok (to_item_response w.env.uuid_string (Repository.to_item o.row))))
      ⊎ ((¬ Owned h w.db id) × ((Service.get_item id h w).0 ≡ err (not_found inventory)))
get_item_decides id h w calm = elim (Option-cases (find_by (item_is id) w.db.items)) [
  | inl missing ↦ inr (
    (λ (o : Owned h w.db id). absurd (ground (arith, o.found, missing))),
    missing_item id h w calm missing,
  )
  | inr (row, found) ↦ elim (Bool-cases (not (is_some row.deleted_at))) [
    | inr gone ↦ inr (
      (λ (o : Owned h w.db id). absurd (ground (arith, o.found, o.alive, found, gone))),
      deleted_item id h w calm row found gone,
    )
    | inl alive ↦ elim (Option-cases (find_by (inventory_is row.inventory_id) w.db.inventories)) [
      | inl missing ↦ inr (
        (λ (o : Owned h w.db id). absurd (ground (arith, same_owner o row found, missing))),
        missing_inventory id h w calm row found alive missing,
      )
      | inr (owner, owned) ↦ elim (Bool-cases (owner.household_id == h)) [
        | inr other ↦ inr (
          (λ (o : Owned h w.db id).
              absurd (ground (arith, same_owner o row found, owned, other, o.mine))),
          foreign_inventory id h w calm row found alive owner owned other,
        )
        | inl mine ↦ inl (
          record {
            row = row;
            found = found;
            alive = ground (arith, alive);
            owner = owner;
            owner_found = owned;
            mine = (==_iff owner.household_id h).0 mine;
          },
          shown_item id h w calm row found alive owner owned mine,
        )
      ]
    ]
  ]
]
