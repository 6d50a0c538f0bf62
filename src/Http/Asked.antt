-- ===== src/Http/Asked.antt =====
-- How a request is read off the context, the path and the body, in one `Option`.
use baskety.Base.{ℕ, String, Option, none, some, if◌then◌else◌}
use baskety.World.{Env}
use baskety.Http.{HttpRequest}

infixl 5 ◌>>=◌
abbrev pub ◌>>=◌ : {A B : Type 0} → Option A → (A → Option B) → Option B
none >>= k = none
some a >>= k = k a

-- An id of the path.
abbrev pub param : {B : Type 0} → Env → HttpRequest B → String → Option ℕ
param e r name = e.uuid_parse (r.url_param name)

abbrev pub decoded_body : {B : Type 0} → HttpRequest B → Option B
decoded_body r = if r.decoded then some r.body else none
