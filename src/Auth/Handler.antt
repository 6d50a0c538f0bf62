-- ===== src/Auth/Handler.antt =====
-- handler.go and routes.go of baskety/internal/auth.
use baskety.Base.{ℕ, String, Option, ◌||◌, is_empty, if◌then◌else◌}
use baskety.World.{Error, email_taken, invalid_credentials, Result, ok, err, M}
use baskety.Http.{
  HttpRequest, data_of, error_text, Handler, ◌>>=◌, write_json, no_content, given, decode_body,
}
use baskety.Auth.Dto.{RegisterRequest, LoginRequest, AuthResponse, UserResponse}
use baskety.Auth.Service
use baskety.Auth.Middleware.{unauthorized, middleware}

-- `if err != nil { … }`: the status of an error is up to the handler.
abbrev pub or_reply {ℓ κ} :
    {A : Type ℓ} {B : Type κ} → (Error → Handler B) → Result A → (A → Handler B) → Handler B
or_reply refusal (ok a) k = k a
or_reply refusal (err e) k = refusal e

abbrev pub attempt {ℓ κ} :
    {A : Type ℓ} {B : Type κ} → (Error → Handler B) → M A → (A → Handler B) → Handler B
attempt refusal m k w = or_reply refusal (m w).0 k (m w).1

abbrev pub internal {ℓ} : {A : Type ℓ} → Handler A
internal = write_json 500 (error_text "internal error")

abbrev pub register_refused : Error → Handler UserResponse
register_refused email_taken = write_json 409 (error_text "email already taken")
register_refused e = internal

abbrev pub register_given : RegisterRequest → Handler UserResponse
register_given req =
    if is_empty req.email || is_empty req.name || is_empty req.password
    then write_json 400 (error_text "email, name, and password are required")
    else attempt register_refused (Service.register req) (λ resp. write_json 201 (data_of resp))

unfoldable pub handle_register : HttpRequest RegisterRequest → Handler UserResponse
handle_register r = decode_body r register_given

abbrev pub login_refused : Error → Handler AuthResponse
login_refused invalid_credentials = write_json 401 (error_text "invalid credentials")
login_refused e = internal

unfoldable pub handle_login : HttpRequest LoginRequest → Handler AuthResponse
handle_login r = do
  req ← decode_body r
  resp ← attempt login_refused (Service.login req)
  write_json 200 (data_of resp)

-- `session_id` is what `GetSessionID` finds in the context.
unfoldable pub handle_logout : Option ℕ → Handler (Unit {0})
handle_logout session_id = do
  id ← given unauthorized session_id
  done ← attempt (λ e. internal) (Service.logout id)
  no_content

-- `r.Delete("/session", h.HandleLogout)` behind the middleware.
unfoldable pub delete_session : String → Handler (Unit {0})
delete_session header = middleware header (λ c. handle_logout (Option.some c.session_id))
