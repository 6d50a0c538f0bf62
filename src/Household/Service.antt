-- ===== src/Household/Service.antt =====
-- service.go of baskety/internal/household, without the share links.
use baskety.Base.{ℕ, String, List, map}
use baskety.World.{not_found, invalid_input, household, M, env, map_err, ◌>>=◌}
use baskety.Inventory.Dto.{respond}
use baskety.Receipt.Service.{required}
use baskety.Household.Repository
use baskety.Household.Dto.{
  HouseholdResponse, MemberResponse, AddMemberRequest, to_household_response, to_member_response,
}

unfoldable pub create_household : String → ℕ → M HouseholdResponse
create_household name created_by = do
  h ← Repository.create_household name created_by
  owner ← Repository.add_member h.id created_by created_by "owner"
  respond to_household_response h

-- Whatever goes wrong with the membership, the household is not found.
unfoldable pub get_household : ℕ → ℕ → M HouseholdResponse
get_household id requesting_user_id = do
  h ← Repository.find_household_by_id id
  member ← map_err (λ e. not_found household) (Repository.find_member id requesting_user_id)
  respond to_household_response h

unfoldable pub list_households : ℕ → M (List HouseholdResponse)
list_households user_id = do
  households ← Repository.list_households_for_user user_id
  respond (λ show. map (to_household_response show)) households

unfoldable pub add_member : ℕ → ℕ → AddMemberRequest → M MemberResponse
add_member household_id invited_by req = do
  e ← env
  member_user_id ← required (invalid_input household) (e.uuid_parse req.user_id)
  m ← Repository.add_member household_id member_user_id invited_by req.role
  respond to_member_response m

unfoldable pub remove_member : ℕ → ℕ → M (Unit {0})
remove_member household_id user_id = Repository.remove_member household_id user_id
