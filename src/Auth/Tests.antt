-- ===== src/Auth/Tests.antt =====
-- Runs of the sessions of `Fixture` through the middleware.
use baskety.Base.{arith, ℕ, ◌≡◌, ◌⊎◌, refl, true, some, none, cut_prefix}
use baskety.Schema.{UserRow, SessionRow}
use baskety.Table.{find_by, any_row}
use baskety.World.{exec, map_err, guard, pure, env, host_clock, outside, ◌>>=◌}
use baskety.Sql.{inserted}
use baskety.Http.{Handler, write_json, data_of}
use baskety.Fixture.{start, session_row}
use baskety.Auth.Queries
use baskety.Auth.Repository
use baskety.Auth.Dto.{LoginRequest}
use baskety.Auth.Service
use baskety.Auth.Middleware.{Context, middleware}
use baskety.Auth.Admission.{asked_once, context_of, Refused, Live, middleware-decides}
use baskety.Auth.Sessions.{login-middleware, logout-middleware}

abbrev who : Context → Handler ℕ
who c = write_json 200 (data_of c.user_id)

abbrev ann : LoginRequest
ann = record { email = "ann"; password = "secret" }

-- A session that has expired, and one that lasts.
old_session : (middleware "Bearer old" who start).0.status ≡ 401
unfolding middleware cut_prefix Repository.find_session_by_token_hash
    Queries.get_session_by_token_hash map_err exec find_by write_json
old_session = refl

bobs_session : (middleware "Bearer bobs" who start).0 ≡ (write_json 200 (data_of 6) start).0
unfolding middleware cut_prefix Repository.find_session_by_token_hash
    Queries.get_session_by_token_hash map_err exec find_by write_json
bobs_session = refl

middleware-decides_example :
    Refused start (middleware "Bearer bobs" who start)
    ⊎ ((s : SessionRow) × Live "Bearer bobs" start s
        × (middleware "Bearer bobs" who start ≡ who (context_of s) (asked_once start)))
middleware-decides_example = middleware-decides "Bearer bobs" who start

login-middleware_example :
    let w' = (Service.login ann start).1 in
    (user : UserRow) × (s : SessionRow) × (find_by (Queries.email_is "ann") start.db.users
      ≡ some user)
    × (start.env.password_matches user.password_hash "secret" ≡ true)
    × (s.user_id ≡ user.id)
    × (middleware "Bearer token" who w' ≡ who (context_of s) (asked_once w'))
unfolding Service.login Repository.find_user_by_email Repository.create_session
    Queries.get_user_by_email Queries.create_session cut_prefix map_err exec guard env host_clock
    outside pure inserted find_by any_row ◌>>=◌
login-middleware_example =
    login-middleware ann "Bearer token" who start _ refl refl refl (omega arith)

logout-middleware_example :
    Refused (Service.logout 91 start).1 (middleware "Bearer bobs" who (Service.logout 91 start).1)
unfolding Service.logout Repository.revoke_session Queries.revoke_session cut_prefix exec find_by
logout-middleware_example =
    logout-middleware (session_row 91 6 "bobs" none) "Bearer bobs" "bobs" who start refl refl refl
