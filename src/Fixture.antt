-- ===== src/Fixture.antt =====
-- A small database for the tests: two households, with an inventory, an item, a batch and a grocery
-- list each.
use baskety.Base.{
  ◌≡◌, ap, ℕ, ◌+◌, suc, zero, String, Bool, true, false, Option, some, none, [], ◌∷◌, refl, arith,
}
use baskety.Base.Int.{pos}
use baskety.Schema.{
  HouseholdRow, MemberRow, UserRow, SessionRow, InventoryRow, ItemRow, BatchRow, ListRow,
  ListItemRow, ScanRow, ScanItemRow, Db,
}
use baskety.Outside.{ParsedLineItem}
use text.Mathlib.Text.{◌==◌ as str_eq}
use baskety.Table.{any_row, find_by}
use baskety.World.{Env, World}
use baskety.Integrity.{WellFormed}
use baskety.Inventory.Scope.{Foreign}

abbrev item_row : ℕ → ℕ → String → ItemRow
item_row id inventory_id name = record {
  id = id;
  inventory_id = inventory_id;
  name = name;
  category = none;
  unit = some "l";
  target_quantity = pos 2000;
  notes = none;
  deleted_at = none;
  created_at = 1;
  updated_at = 1;
}

abbrev batch_row : ℕ → ℕ → ℕ → Option ℕ → BatchRow
batch_row id item_id quantity expires_at = record {
  id = id;
  item_id = item_id;
  quantity = pos quantity;
  expires_at = expires_at;
  added_at = 1;
  emptied_at = none;
  notes = none;
  created_at = 1;
}

abbrev inventory_row : ℕ → ℕ → String → InventoryRow
inventory_row id household_id name = record {
  id = id;
  household_id = household_id;
  name = name;
  description = none;
  created_at = 1;
  updated_at = 1;
}

abbrev list_row : ℕ → ℕ → ListRow
list_row id inventory_id = record {
  id = id;
  inventory_id = inventory_id;
  name = "weekly";
  status = "active";
  created_by_user_id = 5;
  completed_at = none;
  pinned_at = none;
  expires_at = none;
  created_at = 1;
  updated_at = 1;
}

abbrev list_item_row : ℕ → ℕ → Option ℕ → ListItemRow
list_item_row id list_id item_id = record {
  id = id;
  grocery_list_id = list_id;
  inventory_item_id = item_id;
  name = "milk";
  quantity = pos 1000;
  unit = none;
  notes = none;
  status = "pending";
  sort_order = pos 0;
  created_at = 1;
  updated_at = 1;
}

abbrev scan_row : ℕ → ℕ → String → ScanRow
scan_row id household_id status = record {
  id = id;
  household_id = household_id;
  grocery_list_id = none;
  raw_image_path = "receipt.png";
  ocr_text = none;
  llm_raw_response = none;
  status = status;
  error_message = none;
  created_by_user_id = 5;
  created_at = 1;
  updated_at = 1;
}

abbrev scan_item_row : ℕ → ℕ → String → ScanItemRow
scan_item_row id scan_id status = record {
  id = id;
  receipt_scan_id = scan_id;
  raw_text = "WINE 8.99";
  parsed_name = some "wine";
  parsed_brand = none;
  parsed_quantity = some (pos 1000);
  parsed_unit = none;
  parsed_price_minor = some (pos 899);
  parsed_total_price_minor = none;
  parsed_currency = some "EUR";
  parsed_store_name = none;
  confidence_score = none;
  status = status;
  inventory_item_id = none;
  corrected_name = none;
  corrected_brand = none;
  corrected_quantity = some (pos 2000);
  corrected_price_minor = none;
  corrected_total_price_minor = none;
  corrected_currency = none;
  corrected_store_name = none;
  corrected_unit = none;
  created_at = 1;
  updated_at = 1;
}

abbrev user_row : ℕ → String → UserRow
user_row id email = record {
  id = id;
  email = email;
  name = email;
  password_hash = "secret";
  created_at = 1;
  updated_at = 1;
}

abbrev pub session_row : ℕ → ℕ → String → Option ℕ → SessionRow
session_row id user_id token_hash expires_at = record {
  id = id;
  user_id = user_id;
  token_hash = token_hash;
  expires_at = expires_at;
  revoked_at = none;
  created_at = 1;
}

abbrev household_row : ℕ → ℕ → HouseholdRow
household_row id owner = record {
  id = id;
  name = "home";
  created_by = owner;
  created_at = 1;
  updated_at = 1;
}

abbrev member_row : ℕ → ℕ → Option ℕ → MemberRow
member_row household_id user_id expires_at = record {
  household_id = household_id;
  user_id = user_id;
  role = "member";
  joined_at = 1;
  invited_by_user_id = none;
  expires_at = expires_at;
  revoked_at = none;
}

-- Household 1 has the inventory 10, household 2 the inventory 11.
abbrev pub homes : Db
homes = record {
  users = user_row 5 "ann" ∷ user_row 6 "bob" ∷ [];
  sessions = session_row 90 5 "old" (some 1500) ∷ session_row 91 6 "bobs" none ∷ [];
  households = household_row 1 5 ∷ household_row 2 6 ∷ [];
  members = member_row 1 5 none ∷ member_row 2 6 none ∷ member_row 2 5 (some 500) ∷ [];
  inventories = inventory_row 10 1 "pantry" ∷ inventory_row 11 2 "cellar" ∷ [];
  items = item_row 20 10 "milk" ∷ item_row 21 11 "wine" ∷ [];
  batches =
      batch_row 30 20 500 none ∷ batch_row 32 20 250 (some 9) ∷ batch_row 31 21 3000 none ∷ [];
  lists = list_row 40 10 ∷ list_row 41 11 ∷ [];
  list_items = list_item_row 60 40 (some 20) ∷ list_item_row 61 41 none ∷ [];
  scans = scan_row 70 1 "uploading" ∷ scan_row 71 2 "pending_review" ∷ [];
  scan_items = scan_item_row 80 71 "accepted" ∷ scan_item_row 81 71 "rejected" ∷ [];
  transactions = [];
  stores = [];
  catalog_entries = [];
}

abbrev unary : ℕ → String
unary zero = ""
unary (suc n) = String.◌∷◌ "x" (unary n)

abbrev count : String → ℕ
count String.[] = 0
count (String.◌∷◌ c s) = suc (count s)

-- What the language model of the tests reads off any receipt.
abbrev pub milk_line : ParsedLineItem
milk_line = record {
  raw_text = "MILK 1.99";
  parsed_name = some "milk";
  parsed_brand = none;
  parsed_quantity = some (pos 1000);
  parsed_unit = none;
  parsed_price_minor = some (pos 199);
  parsed_total_price_minor = none;
  parsed_currency = some "EUR";
  parsed_store_name = some "corner shop";
  confidence_score = none;
}

-- The ids that are generated are 100, 101, and so on; no statement from `calm` on fails.
abbrev pub weather : (ℕ → Bool) → Env
weather fault = record {
  now = λ k. 1000 + k;
  fresh = λ k. 100 + k;
  fault = fault;
  host_now = λ k. 2000 + k;
  day_text = λ k. "2026-01-02";
  lower = λ s. s;
  name_le = λ a b. true;
  uuid_string = unary;
  uuid_parse = λ s. some (count s);
  to_lower = λ s. s;
  equal_fold = str_eq;
  error_text = λ e. "error";
  cancelled = λ k. false;
  store_file = λ k name. some name;
  extract_text = λ k path. some "MILK 1.99";
  resolve_llm = λ k h. true;
  hash_password = λ k p. some p;
  password_matches = λ hash p. str_eq hash p;
  random_token = λ k. some "token";
  sha256_hex = λ s. s;
  parse_receipt = λ k text. some (milk_line ∷ [], "[]");
}

abbrev pub start : World
start = record { env = weather (λ k. false); ticks = 0; db = homes; queue = [] }

pub homes-WellFormed : WellFormed homes
unfolding any_row
homes-WellFormed = record {
  inventory_ids = (refl, (refl, tt));
  item_ids = (refl, (refl, tt));
  batch_ids = (refl, (refl, (refl, tt)));
  list_ids = (refl, (refl, tt));
  list_item_ids = (refl, (refl, tt));
  item_refs = (refl, (refl, tt));
  batch_refs = (refl, (refl, (refl, tt)));
  list_refs = (refl, (refl, tt));
  list_item_refs = (refl, (refl, tt));
  link_refs = (refl, (refl, tt));
}

-- The cellar is not the first household's.
pub cellar-Foreign : Foreign 1 11 homes
unfolding find_by
cellar-Foreign = record {
  owner = inventory_row 11 2 "cellar";
  found = refl;
  other = λ e. omega arith;
}

count-unary : (n : ℕ) → count (unary n) ≡ n
count-unary zero = refl
count-unary (suc n) = ap suc (count-unary n)

-- Ids are read back from their texts.
pub ids_readable : (k : ℕ) → start.env.uuid_parse (start.env.uuid_string k) ≡ some k
ids_readable k = ap some (count-unary k)
