-- ===== src/Household/Repository.antt =====
-- repository_pg.go of baskety/internal/household, without the share links. Its `Household` and
-- `Member` have the fields of their rows.
use baskety.Base.{ℕ, String, List}
use baskety.Schema.{HouseholdRow, MemberRow}
use baskety.World.{Error, no_rows, not_found, household, M, exec, map_err}
use baskety.Household.Queries

abbrev pub Household : Type 0
Household = HouseholdRow

abbrev pub Member : Type 0
Member = MemberRow

abbrev pub or_not_found : Error → Error
or_not_found no_rows = not_found household
or_not_found e = e

unfoldable pub create_household : String → ℕ → M Household
create_household name created_by = exec (Queries.create_household name created_by)

unfoldable pub find_household_by_id : ℕ → M Household
find_household_by_id id = map_err or_not_found (exec (Queries.get_household_by_id id))

unfoldable pub list_households_for_user : ℕ → M (List Household)
list_households_for_user user_id = exec (Queries.list_households_by_user user_id)

unfoldable pub add_member : ℕ → ℕ → ℕ → String → M Member
add_member household_id user_id invited_by role =
    exec (Queries.add_household_member household_id user_id role invited_by)

unfoldable pub remove_member : ℕ → ℕ → M (Unit {0})
remove_member household_id user_id = exec (Queries.remove_household_member household_id user_id)

unfoldable pub find_member : ℕ → ℕ → M Member
find_member household_id user_id =
    map_err or_not_found (exec (Queries.get_household_member household_id user_id))
