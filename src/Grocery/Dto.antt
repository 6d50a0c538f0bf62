-- ===== src/Grocery/Dto.antt =====
-- dto.go of baskety/internal/grocery: requests and responses.
use baskety.Base.{ℕ, String, Option, none, some}
use baskety.Base.Int.{ℤ}
use baskety.Grocery.Repository.{GroceryList, GroceryListItem}

-- `CreateListRequest` and `RenameListRequest`
pub record ListRequest : Type 0 where
  pub name : String

pub record AddItemRequest : Type 0 where
  pub inventory_item_id : Option String
  pub name : String
  pub quantity : ℤ
  pub unit : String
  pub notes : Option String
  pub sort_order : ℤ

pub record UpdateItemStatusRequest : Type 0 where
  pub status : String

pub record ReorderItemRequest : Type 0 where
  pub sort_order : ℤ

pub record AutoGenerateRequest : Type 0 where
  pub expiry_threshold_days : ℤ

pub record ListResponse : Type 0 where
  pub id : String
  pub inventory_id : String
  pub name : String
  pub status : String
  pub created_by_user_id : String
  pub completed_at : Option ℕ
  pub pinned_at : Option ℕ
  pub expires_at : Option ℕ
  pub created_at : ℕ
  pub updated_at : ℕ

pub record ItemResponse : Type 0 where
  pub id : String
  pub grocery_list_id : String
  pub inventory_item_id : Option String
  pub name : String
  pub quantity : ℤ
  pub unit : String
  pub notes : Option String
  pub status : String
  pub sort_order : ℤ
  pub created_at : ℕ
  pub updated_at : ℕ

unfoldable pub to_list_response : (ℕ → String) → GroceryList → ListResponse
to_list_response show m = record {
  id = show m.id;
  inventory_id = show m.inventory_id;
  name = m.name;
  status = m.status;
  created_by_user_id = show m.created_by_user_id;
  completed_at = m.completed_at;
  pinned_at = m.pinned_at;
  expires_at = m.expires_at;
  created_at = m.created_at;
  updated_at = m.updated_at;
}

unfoldable pub to_item_response : (ℕ → String) → GroceryListItem → ItemResponse
to_item_response show m = record {
  id = show m.id;
  grocery_list_id = show m.grocery_list_id;
  inventory_item_id = elim m.inventory_item_id [ none ↦ none | some i ↦ some (show i) ];
  name = m.name;
  quantity = m.quantity;
  unit = m.unit;
  notes = m.notes;
  status = m.status;
  sort_order = m.sort_order;
  created_at = m.created_at;
  updated_at = m.updated_at;
}
