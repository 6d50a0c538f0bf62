-- ===== src/Inventory/Dto.antt =====
-- dto.go of baskety/internal/inventory: requests and responses. A uuid leaves the server as text.
use baskety.Base.{ℕ, String, Option}
use baskety.Base.Int.{ℤ}
use baskety.Base.Decimal.{Decimal}
use baskety.World.{M, env, pure, ◌>>=◌}
use baskety.Inventory.Repository.{Inventory, InventoryItem, InventoryBatch}

pub record InventoryRequest : Type 0 where
  pub name : String
  pub description : Option String

pub record CreateItemRequest : Type 0 where
  pub name : String
  pub category : String
  pub unit : String
  pub target_quantity : Decimal
  pub notes : Option String
  pub initial_quantity : Decimal
  pub initial_expires_at : Option ℕ

pub record UpdateItemRequest : Type 0 where
  pub name : String
  pub category : String
  pub unit : String
  pub target_quantity : Decimal
  pub notes : Option String

-- `AddBatchRequest` and `PatchBatchRequest`
pub record BatchRequest : Type 0 where
  pub quantity : Decimal
  pub expires_at : Option ℕ
  pub notes : Option String

pub record InventoryResponse : Type 0 where
  pub id : String
  pub household_id : String
  pub name : String
  pub description : Option String
  pub created_at : ℕ
  pub updated_at : ℕ

pub record ItemResponse : Type 0 where
  pub id : String
  pub inventory_id : String
  pub name : String
  pub category : String
  pub unit : String
  pub target_quantity : ℤ
  pub notes : Option String
  pub created_at : ℕ
  pub updated_at : ℕ
  pub stored_quantity : ℤ
  pub batch_count : ℕ

pub record BatchResponse : Type 0 where
  pub id : String
  pub item_id : String
  pub quantity : ℤ
  pub expires_at : Option ℕ
  pub added_at : ℕ
  pub emptied_at : Option ℕ
  pub notes : Option String
  pub created_at : ℕ

unfoldable pub to_inventory_response : (ℕ → String) → Inventory → InventoryResponse
to_inventory_response show m = record {
  id = show m.id;
  household_id = show m.household_id;
  name = m.name;
  description = m.description;
  created_at = m.created_at;
  updated_at = m.updated_at;
}

unfoldable pub to_item_response : (ℕ → String) → InventoryItem → ItemResponse
to_item_response show m = record {
  id = show m.id;
  inventory_id = show m.inventory_id;
  name = m.name;
  category = m.category;
  unit = m.unit;
  target_quantity = m.target_quantity;
  notes = m.notes;
  created_at = m.created_at;
  updated_at = m.updated_at;
  stored_quantity = m.stored_quantity;
  batch_count = m.batch_count;
}

unfoldable pub to_batch_response : (ℕ → String) → InventoryBatch → BatchResponse
to_batch_response show m = record {
  id = show m.id;
  item_id = show m.item_id;
  quantity = m.quantity;
  expires_at = m.expires_at;
  added_at = m.added_at;
  emptied_at = m.emptied_at;
  notes = m.notes;
  created_at = m.created_at;
}

-- `return toResponse(m), nil`
unfoldable pub respond {ℓ} : {A B : Type ℓ} → ((ℕ → String) → A → B) → A → M B
unfolding env pure ◌>>=◌
respond to_response m = do e ← env; pure (to_response e.uuid_string m)
