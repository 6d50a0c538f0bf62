-- ===== src/Household/Queries.antt =====
-- The statements of baskety/gen/sqlc/households.sql.go that the service runs, over the tables of
-- baskety/db/migrations/00002_households.sql.
use text.Mathlib.Text.{◌==◌ as str_eq}
use baskety.Base.{
  ℕ, String, Bool, true, not, ◌&&◌, ◌||◌, Option, none, some, List, [], ◌∷◌, ◌++◌, ◌==◌, ltb, leb,
  is_some,
}
use baskety.Schema.{UserRow, HouseholdRow, MemberRow}
use baskety.Table.{find_by, any_row, select, delete_where, order_by}
use baskety.World.{Stmt, ok}
use baskety.Sql.{inserted, one}

abbrev pub household_is : ℕ → HouseholdRow → Bool
household_is id r = r.id == id

abbrev pub user_is : ℕ → UserRow → Bool
user_is id r = r.id == id

abbrev pub member_is : ℕ → ℕ → MemberRow → Bool
member_is household_id user_id r = r.household_id == household_id && r.user_id == user_id

-- expires_at IS NULL OR expires_at > NOW()
abbrev pub lasts : ℕ → Option ℕ → Bool
lasts now none = true
lasts now (some t) = ltb now t

-- A member by the key, not revoked and not expired.
abbrev pub active_member : ℕ → ℕ → ℕ → MemberRow → Bool
active_member now household_id user_id r =
    member_is household_id user_id r && not (is_some r.revoked_at) && lasts now r.expires_at

unfoldable pub create_household : String → ℕ → Stmt HouseholdRow
create_household name created_by m d =
    let row : HouseholdRow = record {
      id = m.fresh;
      name = name;
      created_by = created_by;
      created_at = m.now;
      updated_at = m.now;
    } in
    inserted true (any_row (household_is m.fresh) d.households)
      (any_row (user_is created_by) d.users) row d
      (record d { households = d.households ++ row ∷ [] })

unfoldable pub get_household_by_id : ℕ → Stmt HouseholdRow
get_household_by_id id m d = (one (find_by (household_is id) d.households), d)

-- The join, where the key of household_members makes a membership unique.
unfoldable pub list_households_by_user : ℕ → Stmt (List HouseholdRow)
list_households_by_user user_id m d = (
  ok (
      order_by (λ a b. leb b.created_at a.created_at)
        (select (λ (h : HouseholdRow). any_row (active_member m.now h.id user_id) d.members)
          d.households)),
  d,
)

-- CHECK (role IN ('owner', 'member', 'guest'))
abbrev pub member_role : String → Bool
member_role s = str_eq s "owner" || str_eq s "member" || str_eq s "guest"

unfoldable pub add_household_member : ℕ → ℕ → String → ℕ → Stmt MemberRow
add_household_member household_id user_id role invited_by m d =
    let row : MemberRow = record {
      household_id = household_id;
      user_id = user_id;
      role = role;
      joined_at = m.now;
      invited_by_user_id = some invited_by;
      expires_at = none;
      revoked_at = none;
    } in
    inserted (member_role role) (any_row (member_is household_id user_id) d.members)
      (any_row (household_is household_id) d.households
        && any_row (user_is user_id) d.users
        && any_row (user_is invited_by) d.users)
      row d (record d { members = d.members ++ row ∷ [] })

unfoldable pub get_household_member : ℕ → ℕ → Stmt MemberRow
get_household_member household_id user_id m d =
    (one (find_by (active_member m.now household_id user_id) d.members), d)

unfoldable pub remove_household_member : ℕ → ℕ → Stmt (Unit {0})
remove_household_member household_id user_id m d =
    (ok tt, record d { members = delete_where (member_is household_id user_id) d.members })
