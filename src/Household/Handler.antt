-- ===== src/Household/Handler.antt =====
-- handler.go of baskety/internal/household, without the share links.
use baskety.Base.{ℕ, List}
use baskety.World.{Error, not_found, invalid_input, household}
use baskety.Http.{
  HttpRequest, data_of, error_text, error_of, Handler, ◌>>=◌, write_json, no_content, given,
  parse_param, decode_body,
}
use baskety.Auth.Handler.{attempt, internal}
use baskety.Household.Dto.{
  CreateHouseholdRequest, AddMemberRequest, HouseholdResponse, MemberResponse,
}
use baskety.Household.Service

-- `auth.GetUserID`
abbrev pub user_of {ℓ κ} : {A : Type κ} {B : Type ℓ} → HttpRequest B → (ℕ → Handler A) → Handler A
user_of r = given (write_json 401 (error_text "unauthorized")) r.user

unfoldable pub handle_list_households : HttpRequest (Unit {0}) → Handler (List HouseholdResponse)
handle_list_households r = do
  uid ← user_of r
  resp ← attempt (λ e. internal) (Service.list_households uid)
  write_json 200 (data_of resp)

unfoldable pub handle_create_household :
    HttpRequest CreateHouseholdRequest → Handler HouseholdResponse
handle_create_household r = do
  uid ← user_of r
  req ← decode_body r
  resp ← attempt (λ e. internal) (Service.create_household req.name uid)
  write_json 201 (data_of resp)

abbrev pub get_refused {ℓ} : {A : Type ℓ} → Error → Handler A
get_refused (not_found household) = write_json 404 (error_text "not found")
get_refused e = internal

unfoldable pub handle_get_household : HttpRequest (Unit {0}) → Handler HouseholdResponse
handle_get_household r = do
  uid ← user_of r
  id ← parse_param r "householdID" "invalid household ID"
  resp ← attempt get_refused (Service.get_household id uid)
  write_json 200 (data_of resp)

abbrev pub add_refused {ℓ} : {A : Type ℓ} → Error → Handler A
add_refused (invalid_input household) = write_json 400 (error_of (invalid_input household))
add_refused e = internal

unfoldable pub handle_add_member : HttpRequest AddMemberRequest → Handler MemberResponse
handle_add_member r = do
  uid ← user_of r
  id ← parse_param r "householdID" "invalid household ID"
  req ← decode_body r
  resp ← attempt add_refused (Service.add_member id uid req)
  write_json 201 (data_of resp)

unfoldable pub handle_remove_member : HttpRequest (Unit {0}) → Handler (Unit {0})
handle_remove_member r = do
  id ← parse_param r "householdID" "invalid household ID"
  uid ← parse_param r "userID" "invalid user ID"
  done ← attempt (λ e. internal) (Service.remove_member id uid)
  no_content
