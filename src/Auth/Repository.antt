-- ===== src/Auth/Repository.antt =====
-- repository_pg.go of baskety/internal/auth. Its `User` and `Session` have the fields of their rows.
use baskety.Base.{ℕ, String, Option}
use baskety.Schema.{UserRow, SessionRow}
use baskety.World.{Error, no_rows, unique_violation, duplicate, not_found, auth, M, exec, map_err}
use baskety.Auth.Queries

abbrev pub User : Type 0
User = UserRow

abbrev pub Session : Type 0
Session = SessionRow

abbrev pub or_not_found : Error → Error
or_not_found no_rows = not_found auth
or_not_found e = e

-- `if isDuplicateError(err)`
abbrev pub or_duplicate : Error → Error
or_duplicate unique_violation = duplicate
or_duplicate e = e

unfoldable pub create_user : String → String → String → M User
create_user email name password_hash =
    map_err or_duplicate (exec (Queries.create_user email name password_hash))

unfoldable pub find_user_by_email : String → M User
find_user_by_email email = map_err or_not_found (exec (Queries.get_user_by_email email))

unfoldable pub create_session : ℕ → String → Option ℕ → M Session
create_session user_id token_hash expires_at =
    exec (Queries.create_session user_id token_hash expires_at)

unfoldable pub find_session_by_token_hash : String → M Session
find_session_by_token_hash token_hash =
    map_err or_not_found (exec (Queries.get_session_by_token_hash token_hash))

unfoldable pub revoke_session : ℕ → M (Unit {0})
revoke_session session_id = exec (Queries.revoke_session session_id)
