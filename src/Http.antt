-- ===== src/Http.antt =====
-- What the HTTP handlers share: a request as the router and the middleware hand it over, a reply,
-- and the checks that a handler makes first. The four helpers stand in handler.go of
-- baskety/internal/inventory and, with the same bodies, in those of the other packages.
pub mod Asked
pub mod Steps
pub mod Sent
use baskety.Base.{ℕ, String, Bool, true, false, Option, none, some, if◌then◌else◌}
use baskety.World.{
  World, M, Package, Error, Result, ok, err, inventory, grocery, receipt, catalog, auth, household,
  no_rows, duplicate, email_taken, invalid_credentials, unique_violation, db_error, parse_error,
  external, not_found, invalid_input, forbidden,
}

-- The household and the user are what the middleware put into the context. `body` is what
-- `Decode(&req)` leaves in `req`, and `decoded` whether it reported no error.
pub record HttpRequest {ℓ} (B : Type ℓ) : Type ℓ where
  pub url_param : String → String
  pub household : Option ℕ
  pub user : Option ℕ
  pub body : B
  pub decoded : Bool

-- What is written after the status: nothing, `{"data": …}`, or `{"error": …}` with a fixed text or
-- with that of an error.
pub data Body {ℓ} (A : Type ℓ) : Type ℓ where
  empty : Body A
  data_of : A → Body A
  error_text : String → Body A
  error_of : Error → Body A

pub record Reply {ℓ} (A : Type ℓ) : Type ℓ where
  pub status : ℕ
  pub body : Body A

-- What a handler does once the checks before have passed; a check is given the rest as `k`.
abbrev pub Handler {ℓ} : Type ℓ → Type ℓ
Handler A = World → Reply A × World

infixl 5 ◌>>=◌ ◌>>◌
abbrev pub ◌>>=◌ {ℓ κ} :
    {A : Type ℓ} {B : Type κ} → ((A → Handler B) → Handler B) → (A → Handler B) → Handler B
check >>= k = check k

abbrev pub ◌>>◌ {ℓ κ} :
    {A : Type ℓ} {B : Type κ} → ((A → Handler B) → Handler B) → Handler B → Handler B
check >> k = check (λ _. k)

unfoldable pub write_json {ℓ} : {A : Type ℓ} → ℕ → Body A → Handler A
write_json status body w = (record { status = status; body = body }, w)

-- `w.WriteHeader(http.StatusNoContent)`
abbrev pub no_content {ℓ} : {A : Type ℓ} → Handler A
no_content = write_json 204 empty

abbrev pub same_package : Package → Package → Bool
same_package inventory inventory = true
same_package grocery grocery = true
same_package receipt receipt = true
same_package catalog catalog = true
same_package auth auth = true
same_package household household = true
same_package p q = false

-- The sentinels that `writeErr` of a package knows are those of that package.
unfoldable pub write_err {ℓ} : {A : Type ℓ} → Package → Error → Handler A
write_err p (not_found q) =
    if same_package p q
    then write_json 404 (error_text "not found")
    else write_json 500 (error_text "internal error")
write_err p (forbidden q) =
    if same_package p q
    then write_json 403 (error_text "forbidden")
    else write_json 500 (error_text "internal error")
write_err p (invalid_input q) =
    if same_package p q
    then write_json 400 (error_of (invalid_input q))
    else write_json 500 (error_text "internal error")
write_err p no_rows = write_json 500 (error_text "internal error")
write_err p unique_violation = write_json 500 (error_text "internal error")
write_err p db_error = write_json 500 (error_text "internal error")
write_err p parse_error = write_json 500 (error_text "internal error")
write_err p duplicate = write_json 500 (error_text "internal error")
write_err p email_taken = write_json 500 (error_text "internal error")
write_err p invalid_credentials = write_json 500 (error_text "internal error")
write_err p external = write_json 500 (error_text "internal error")

-- `if !ok { return }`
abbrev pub given {ℓ κ} :
    {A : Type ℓ} {B : Type κ} → Handler B → Option A → (A → Handler B) → Handler B
given refusal none k = refusal
given refusal (some a) k = k a

unfoldable pub household_from_ctx {ℓ κ} :
    {A : Type κ} {B : Type ℓ} → HttpRequest B → (ℕ → Handler A) → Handler A
household_from_ctx r = given (write_json 403 (error_text "no household available")) r.household

unfoldable pub user_from_ctx {ℓ κ} :
    {A : Type κ} {B : Type ℓ} → HttpRequest B → (ℕ → Handler A) → Handler A
user_from_ctx r = given (write_json 401 (error_text "unauthenticated")) r.user

unfoldable pub parse_param {ℓ κ} :
    {A : Type κ} {B : Type ℓ} → HttpRequest B → String → String → (ℕ → Handler A) → Handler A
parse_param r name refusal k w =
    given (write_json 400 (error_text refusal)) (w.env.uuid_parse (r.url_param name)) k w

-- `if err := json.NewDecoder(r.Body).Decode(&req); err != nil { … }`
unfoldable pub decode_body {ℓ κ} :
    {A : Type κ} {B : Type ℓ} → HttpRequest B → (B → Handler A) → Handler A
decode_body r k = if r.decoded then k r.body else write_json 400 (error_text "invalid request body")

abbrev pub replied {ℓ κ} :
    {A : Type ℓ} {B : Type κ} → Package → Result A → (A → Handler B) → Handler B
replied p (ok a) k = k a
replied p (err e) k = write_err p e

-- The call of the service, and `if err != nil { writeErr(w, err); return }`.
unfoldable pub call {ℓ κ} : {A : Type ℓ} {B : Type κ} → Package → M A → (A → Handler B) → Handler B
call p m k w = replied p (m w).0 k (m w).1
