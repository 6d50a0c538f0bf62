-- ===== src/Household/Middleware.antt =====
-- middleware.go of baskety/internal/household: a request is made for a household of its user.
use baskety.Base.{ℕ, String, Option, List, [], ◌∷◌, is_empty, if◌then◌else◌}
use baskety.World.{Error, not_found, household, Result, ok, err}
use baskety.Http.{Handler, write_json, error_text, given}
use baskety.Household.Repository
use baskety.Household.Repository.{Household, Member}

-- `ErrNotFound` is 403 here, any other error 500.
abbrev pub not_a_member {ℓ} : {A : Type ℓ} → Error → Handler A
not_a_member (not_found household) = write_json 403 (error_text "forbidden")
not_a_member e = write_json 500 (error_text "internal error")

abbrev pub as_member {ℓ} : {A : Type ℓ} → ℕ → Result Member → (ℕ → Handler A) → Handler A
as_member id (ok m) next = next id
as_member id (err e) next = not_a_member e

abbrev pub named {ℓ} : {A : Type ℓ} → ℕ → (ℕ → Handler A) → ℕ → Handler A
named user_id next id w =
    as_member id (Repository.find_member id user_id w).0 next
      (Repository.find_member id user_id w).1

abbrev pub none_available {ℓ} : {A : Type ℓ} → Handler A
none_available = write_json 403 (error_text "no household available")

-- `households[0].ID`
abbrev pub first_of {ℓ} : {A : Type ℓ} → Result (List Household) → (ℕ → Handler A) → Handler A
first_of (err e) next = none_available
first_of (ok []) next = none_available
first_of (ok (h ∷ hs)) next = next h.id

abbrev pub default_one {ℓ} : {A : Type ℓ} → ℕ → (ℕ → Handler A) → Handler A
default_one user_id next w =
    first_of (Repository.list_households_for_user user_id w).0 next
      (Repository.list_households_for_user user_id w).1

abbrev pub parsed {ℓ} : {A : Type ℓ} → String → (ℕ → Handler A) → Handler A
parsed header next w =
    given (write_json 400 (error_text "invalid X-Household-ID")) (w.env.uuid_parse header) next w

abbrev pub for_user {ℓ} : {A : Type ℓ} → String → (ℕ → Handler A) → ℕ → Handler A
for_user header next user_id =
    if is_empty header then default_one user_id next else parsed header (named user_id next)

-- `header` is the header "X-Household-ID", empty where there is none, and `user_id` what the
-- middleware of the package auth put into the context.
unfoldable pub scope_middleware {ℓ} : {A : Type ℓ} → String → Option ℕ → (ℕ → Handler A) → Handler A
scope_middleware header user_id next =
    given (write_json 401 (error_text "unauthorized")) user_id (for_user header next)
