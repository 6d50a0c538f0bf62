-- ===== src/Receipt/Lookup.antt =====
-- baskety/cmd/baskety/inventory_lookup.go, the `InventoryLookup` that the receipt pipeline is wired to,
-- over the repository of the inventory package.
use baskety.Base.{ℕ, String, Option, none, some, List, [], ◌∷◌, ◌++◌, map}
use baskety.World.{Error, not_found, inventory, M, pure, raise, caught, ◌>>=◌}
use baskety.Inventory.Repository
use baskety.Inventory.Repository.{Inventory, InventoryItem}

pub record InventoryItemRef : Type 0 where
  pub id : ℕ
  pub name : String
  pub unit : String

abbrev to_ref : InventoryItem → InventoryItemRef
to_ref it = record { id = it.id; name = it.name; unit = it.unit }

unfoldable pub refs_of : List Inventory → M (List InventoryItemRef)
refs_of [] = pure []
refs_of (inv ∷ invs) = do
  items ← Repository.list_items inv.id
  refs ← refs_of invs
  pure (map to_ref items ++ refs)

unfoldable pub household_items : ℕ → M (List InventoryItemRef)
household_items household_id = do invs ← Repository.list_inventories household_id; refs_of invs

abbrev pub not_there : Error → M (Option String)
not_there (not_found inventory) = pure none
not_there e = raise e

-- The unit of an item, or nothing where there is no such item.
unfoldable pub item_unit : ℕ → M (Option String)
item_unit item_id = caught not_there do item ← Repository.get_item item_id; pure (some item.unit)
