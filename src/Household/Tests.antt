-- ===== src/Household/Tests.antt =====
-- Runs of the household service and its middleware on the database of `Fixture`.
use baskety.Base.{ℕ, ◌≡◌, ◌≢◌, ◌⊎◌, refl, some, is_empty}
use baskety.Table.{find_by, any_row}
use baskety.World.{exec, map_err, pure, env, ◌>>=◌}
use baskety.Sql.{inserted}
use baskety.Http.{Handler, write_json, data_of}
use baskety.Inventory.Dto.{respond}
use baskety.Fixture.{start}
use baskety.Auth.Admission.{asked_once}
use baskety.Household.Queries
use baskety.Household.Repository
use baskety.Household.Dto.{AddMemberRequest}
use baskety.Household.Service
use baskety.Household.Middleware.{scope_middleware}
use baskety.Household.Scope.{Stopped, Scoped, scope_middleware-decides}
use baskety.Household.Membership.{remove_member-scope, add_member-scope}

abbrev where_to : ℕ → Handler ℕ
where_to h = write_json 200 (data_of h)

scope_middleware-decides_example :
    Stopped start (scope_middleware "xx" (some 6) where_to start)
    ⊎ ((u : ℕ) × (some 6 ≡ some u)
        × Scoped start u where_to (scope_middleware "xx" (some 6) where_to start))
scope_middleware-decides_example = scope_middleware-decides "xx" (some 6) where_to start

-- A membership that has expired is none.
expired_member : (scope_middleware "xx" (some 5) where_to start).0.status ≡ 403
unfolding scope_middleware is_empty Repository.find_member Queries.get_household_member map_err exec
    find_by write_json
expired_member = refl

remove_member-scope_example :
    let w' = (Service.remove_member 1 5 start).1 in
    Stopped w' (scope_middleware "x" (some 5) where_to w')
    ⊎ ((h' : ℕ) × (h' ≢ 1)
        × (scope_middleware "x" (some 5) where_to w' ≡ where_to h' (asked_once w')))
unfolding Service.remove_member Repository.remove_member Queries.remove_household_member exec
remove_member-scope_example = remove_member-scope 1 5 "x" where_to start refl

-- The user of the id 6 invites itself.
abbrev self : AddMemberRequest
self = record { user_id = "xxxxxx"; role = "owner" }

add_member-scope_example :
    let w' = (Service.add_member 1 6 self start).1 in
    scope_middleware "x" (some 6) where_to w' ≡ where_to 1 (asked_once w')
unfolding Service.add_member Repository.add_member Queries.add_household_member respond is_empty
    exec inserted any_row env pure ◌>>=◌
add_member-scope_example = add_member-scope 1 6 6 self "x" where_to start _ refl refl refl refl refl
