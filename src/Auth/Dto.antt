-- ===== src/Auth/Dto.antt =====
-- dto.go of baskety/internal/auth.
use baskety.Base.{ℕ, String, Option}
use baskety.Auth.Repository.{User}

pub record RegisterRequest : Type 0 where
  pub email : String
  pub name : String
  pub password : String

pub record LoginRequest : Type 0 where
  pub email : String
  pub password : String

pub record AuthResponse : Type 0 where
  pub token : String
  pub expires_at : Option ℕ

pub record UserResponse : Type 0 where
  pub id : String
  pub email : String
  pub name : String
  pub created_at : ℕ

-- The literal at the end of `Register`.
abbrev pub to_user_response : (ℕ → String) → User → UserResponse
to_user_response show user = record {
  id = show user.id;
  email = user.email;
  name = user.name;
  created_at = user.created_at;
}
