-- ===== src/Auth/Queries.antt =====
-- The statements of baskety/gen/sqlc/users.sql.go and sessions.sql.go that the service runs, over the
-- tables of baskety/db/migrations/00001_users_sessions.sql.
use text.Mathlib.Text.{◌==◌ as str_eq}
use baskety.Base.{ℕ, String, Bool, true, ◌||◌, Option, none, some, [], ◌∷◌, ◌++◌, ◌==◌}
use baskety.Schema.{UserRow, SessionRow}
use baskety.Table.{find_by, any_row, update_where}
use baskety.World.{Stmt, Moment, ok}
use baskety.Sql.{inserted, one}

abbrev pub user_is : ℕ → UserRow → Bool
user_is id r = r.id == id

abbrev pub email_is : String → UserRow → Bool
email_is email r = str_eq r.email email

abbrev pub session_is : ℕ → SessionRow → Bool
session_is id r = r.id == id

abbrev pub token_is : String → SessionRow → Bool
token_is token_hash r = str_eq r.token_hash token_hash

unfoldable pub create_user : String → String → String → Stmt UserRow
create_user email name password_hash m d =
    let row : UserRow = record {
      id = m.fresh;
      email = email;
      name = name;
      password_hash = password_hash;
      created_at = m.now;
      updated_at = m.now;
    } in
    inserted true (any_row (λ r. user_is m.fresh r || email_is email r) d.users) true row d
      (record d { users = d.users ++ row ∷ [] })

unfoldable pub get_user_by_email : String → Stmt UserRow
get_user_by_email email m d = (one (find_by (email_is email) d.users), d)

unfoldable pub create_session : ℕ → String → Option ℕ → Stmt SessionRow
create_session user_id token_hash expires_at m d =
    let row : SessionRow = record {
      id = m.fresh;
      user_id = user_id;
      token_hash = token_hash;
      expires_at = expires_at;
      revoked_at = none;
      created_at = m.now;
    } in
    inserted true (any_row (λ r. session_is m.fresh r || token_is token_hash r) d.sessions)
      (any_row (user_is user_id) d.users) row d (record d { sessions = d.sessions ++ row ∷ [] })

unfoldable pub get_session_by_token_hash : String → Stmt SessionRow
get_session_by_token_hash token_hash m d = (one (find_by (token_is token_hash) d.sessions), d)

abbrev pub revoked : Moment → SessionRow → SessionRow
revoked m r = record r { revoked_at = some m.now }

unfoldable pub revoke_session : ℕ → Stmt (Unit {0})
revoke_session id m d =
    (ok tt, record d { sessions = update_where (session_is id) (revoked m) d.sessions })
