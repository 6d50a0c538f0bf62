-- ===== src/Grocery/Status.antt =====
-- The statuses that the service lets pass and those that the table accepts.
use text.Mathlib.Text.{◌==◌ as str_eq}
use baskety.Base.{◌≡◌, String, Bool, true, ◌||◌, arith, if◌then◌else◌}
use baskety.Grocery.Queries.Rows.{item_status}
use baskety.Grocery.Service

or_if : (a b c : Bool) → (if a then true else if b then true else c) ≡ (a || b || c)
or_if a b c = ground arith

-- The service accepts a status of a line exactly where the CHECK of the table does.
pub valid_item_status-item_status : (s : String) → Service.valid_item_status s ≡ item_status s
unfolding Service.valid_item_status item_status
valid_item_status-item_status s =
    or_if (str_eq s "pending") (str_eq s "bought") (str_eq s "skipped")
