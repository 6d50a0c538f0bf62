-- ===== src/Household/Dto.antt =====
-- dto.go of baskety/internal/household, without the share links.
use baskety.Base.{ℕ, String}
use baskety.Household.Repository.{Household, Member}

pub record CreateHouseholdRequest : Type 0 where
  pub name : String

pub record HouseholdResponse : Type 0 where
  pub id : String
  pub name : String
  pub created_at : ℕ

pub record MemberResponse : Type 0 where
  pub user_id : String
  pub role : String
  pub joined_at : ℕ

pub record AddMemberRequest : Type 0 where
  pub user_id : String
  pub role : String

-- The literals at the ends of the methods of the service.
abbrev pub to_household_response : (ℕ → String) → Household → HouseholdResponse
to_household_response show h = record { id = show h.id; name = h.name; created_at = h.created_at }

abbrev pub to_member_response : (ℕ → String) → Member → MemberResponse
to_member_response show m = record {
  user_id = show m.user_id;
  role = m.role;
  joined_at = m.joined_at;
}
