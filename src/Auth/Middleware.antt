-- ===== src/Auth/Middleware.antt =====
-- middleware.go of baskety/internal/auth: the token of a request becomes a user and a session.
use baskety.Base.{
  ℕ, String, Bool, false, Option, none, some, ltb, ◌||◌, is_some, cut_prefix, if◌then◌else◌,
}
use baskety.World.{Result, ok, err}
use baskety.Http.{Handler, write_json, error_text, given}
use baskety.Auth.Repository
use baskety.Auth.Repository.{Session}

-- What is put into the context.
pub record Context : Type 0 where
  pub user_id : ℕ
  pub session_id : ℕ

abbrev pub unauthorized {ℓ} : {A : Type ℓ} → Handler A
unauthorized = write_json 401 (error_text "unauthorized")

-- `strings.HasPrefix(authHeader, "Bearer ")` and `strings.TrimPrefix(authHeader, "Bearer ")`
abbrev pub bearer : String → Option String
bearer header = cut_prefix "Bearer " header

-- `session.ExpiresAt.Before(time.Now().UTC())`
abbrev pub expired : ℕ → Option ℕ → Bool
expired now none = false
expired now (some t) = ltb t now

abbrev pub admit {ℓ} : {A : Type ℓ} → Result Session → (Context → Handler A) → Handler A
admit (err e) next w = unauthorized w
admit (ok session) next w =
    if expired (w.env.host_now w.ticks) session.expires_at || is_some session.revoked_at
    then unauthorized w
    else next (record { user_id = session.user_id; session_id = session.id }) w

abbrev pub look_up {ℓ} : {A : Type ℓ} → (Context → Handler A) → String → Handler A
look_up next raw_token w =
    let (found, w') = Repository.find_session_by_token_hash (w.env.sha256_hex raw_token) w in
    admit found next w'

-- `header` is the header "Authorization", empty where there is none.
unfoldable pub middleware {ℓ} : {A : Type ℓ} → String → (Context → Handler A) → Handler A
middleware header next = given unauthorized (bearer header) (look_up next)
