-- ===== src/Auth/Service.antt =====
-- service.go of baskety/internal/auth. The hash of a password, the random token and the digest of a
-- token are functions of the environment.
use baskety.Base.{ℕ, ◌+◌, ◌*◌, String, some}
use baskety.World.{
  Error, duplicate, email_taken, invalid_credentials, not_found, auth, M, env, host_clock, outside,
  map_err, guard, pure, ◌>>=◌, ◌>>◌,
}
use baskety.Inventory.Dto.{respond}
use baskety.Auth.Repository
use baskety.Auth.Dto.{RegisterRequest, LoginRequest, AuthResponse, UserResponse, to_user_response}

-- 30 days, in microseconds.
abbrev pub session_duration : ℕ
session_duration = 30 * 24 * 3600 * 1000000

-- `errors.Is(err, ErrDuplicate)`
abbrev pub or_taken : Error → Error
or_taken duplicate = email_taken
or_taken e = e

unfoldable pub register : RegisterRequest → M UserResponse
register req = do
  hash ← outside (λ v k. v.hash_password k req.password)
  user ← map_err or_taken (Repository.create_user req.email req.name hash)
  respond to_user_response user

-- `errors.Is(err, ErrNotFound)`
abbrev pub or_invalid : Error → Error
or_invalid (not_found auth) = invalid_credentials
or_invalid e = e

abbrev pub auth_response : String → ℕ → AuthResponse
auth_response token expires_at = record { token = token; expires_at = some expires_at }

unfoldable pub login : LoginRequest → M AuthResponse
login req = do
  user ← map_err or_invalid (Repository.find_user_by_email req.email)
  v ← env
  guard (v.password_matches user.password_hash req.password) invalid_credentials
  token ← outside (λ e k. e.random_token k)
  now ← host_clock
  session ← Repository.create_session user.id (v.sha256_hex token) (some (now + session_duration))
  pure (auth_response token (now + session_duration))

unfoldable pub logout : ℕ → M (Unit {0})
logout session_id = Repository.revoke_session session_id
