-- ===== src/World.antt =====
-- The world in which the handlers of the server run: the error values of the Go packages, the
-- environment (clock, generated identifiers, failing statements), and the monad of the code that
-- talks to the database. A statement that fails changes nothing.
pub mod Laws
pub mod Steady
use baskety.Base.{
  ℕ, ◌+◌, ◌≡◌, String, Bool, false, List, [], ◌∷◌, ◌++◌, Option, none, some, if◌then◌else◌,
}
use baskety.Schema.{Db}
use baskety.Outside.{ParsedLineItem, Job}

-- The package that declares a sentinel: each has an `ErrNotFound` and an `ErrInvalidInput` of its
-- own, and `errors.Is` tells them apart.
pub data Package : Type 0 where
  inventory grocery receipt catalog auth household : Package

-- An error, by the innermost error of its `%w` chain, which is all that `errors.Is` and `errors.As`
-- can tell of it. `no_rows` is `pgx.ErrNoRows`, `unique_violation` a `PgError` of code 23505, and
-- `db_error` any other failure of a statement. The next three are sentinels of the package auth.
pub data Error : Type 0 where
  no_rows unique_violation db_error parse_error external : Error
  duplicate email_taken invalid_credentials : Error
  not_found invalid_input forbidden : Package → Error

pub data Result {ℓ} (A : Type ℓ) : Type ℓ where
  ok : A → Result A
  err : Error → Result A

-- What PostgreSQL and its host choose: the time and the generated uuid at the k-th statement, which
-- statements fail, `lower`, the order of names, and the texts of uuids (`uuid.UUID.String`,
-- `uuid.Parse`).
pub record Env : Type 0 where
  pub now : ℕ → ℕ
  pub fresh : ℕ → ℕ
  pub fault : ℕ → Bool
  pub host_now : ℕ → ℕ  -- `time.Now()` of the server
  pub day_text : ℕ → String  -- `Format("2006-01-02")`
  pub lower : String → String
  pub name_le : String → String → Bool
  pub uuid_string : ℕ → String
  pub uuid_parse : String → Option ℕ
  pub to_lower : String → String  -- `strings.ToLower`
  pub equal_fold : String → String → Bool  -- `strings.EqualFold`
  pub error_text : Error → String
  pub cancelled : ℕ → Bool  -- the context of the k-th call is done
  pub store_file : ℕ → String → Option String  -- `FileStore.Store`
  pub extract_text : ℕ → String → Option String  -- `OCRProvider.ExtractText`
  pub resolve_llm : ℕ → ℕ → Bool  -- `LLMProviderResolver`
  pub hash_password : ℕ → String → Option String  -- `bcrypt.GenerateFromPassword`
  pub password_matches : String → String → Bool  -- `bcrypt.CompareHashAndPassword`
  pub random_token : ℕ → Option String  -- 32 bytes of `rand.Read` in base64
  pub sha256_hex : String → String  -- `sha256.Sum256`, in hexadecimal digits
  pub parse_receipt : ℕ → String → Option (List ParsedLineItem × String)  -- `ParseReceipt`

pub record World : Type 0 where
  pub env : Env
  pub ticks : ℕ  -- the statements and other calls sent so far
  pub db : Db
  pub queue : List Job  -- the jobs that no worker has taken

abbrev pub M {ℓ} : Type ℓ → Type ℓ
M A = World → Result A × World

-- What a statement reads besides the tables.
pub record Moment : Type 0 where
  pub now : ℕ
  pub fresh : ℕ
  pub lower : String → String
  pub name_le : String → String → Bool

abbrev pub Stmt {ℓ} : Type ℓ → Type ℓ
Stmt A = Moment → Db → Result A × Db

abbrev pub moment : World → Moment
moment w = record {
  now = w.env.now w.ticks;
  fresh = w.env.fresh w.ticks;
  lower = w.env.lower;
  name_le = w.env.name_le;
}

abbrev pub answered {ℓ} : {A : Type ℓ} → Result A × Db → World → Result A × World
answered r w = (r.0, record w { ticks = w.ticks + 1; db = r.1 })

-- One round trip to the database.
unfoldable pub exec {ℓ} : {A : Type ℓ} → Stmt A → M A
exec s w =
    if w.env.fault w.ticks
    then (err db_error, record w { ticks = w.ticks + 1 })
    else answered (s (moment w) w.db) w

abbrev pub continue {ℓ κ} : {A : Type ℓ} {B : Type κ} → Result A → (A → M B) → M B
continue (ok a) f w = f a w
continue (err e) f w = (err e, w)

infixl 5 ◌>>=◌ ◌>>◌
unfoldable pub ◌>>=◌ {ℓ κ} : {A : Type ℓ} {B : Type κ} → M A → (A → M B) → M B
◌>>=◌ m f w = continue (m w).0 f (m w).1

abbrev pub ◌>>◌ {ℓ κ} : {A : Type ℓ} {B : Type κ} → M A → M B → M B
m >> k = m >>= λ _. k

unfoldable pub pure {ℓ} : {A : Type ℓ} → A → M A
pure a w = (ok a, w)

unfoldable pub raise {ℓ} : {A : Type ℓ} → Error → M A
raise e w = (err e, w)

unfoldable pub guard : Bool → Error → M (Unit {0})
guard b e w = if b then (ok tt, w) else (err e, w)

unfoldable pub env : M Env
env w = (ok w.env, w)

-- `time.Now().UTC()`
unfoldable pub host_clock : M ℕ
host_clock w = (ok (w.env.host_now w.ticks), w)

abbrev pub recovered {ℓ} : {A : Type ℓ} → (Error → Error) → Result A → Result A
recovered f (ok a) = ok a
recovered f (err e) = err (f e)

abbrev come_back {ℓ} : {A : Type ℓ} → Option A → Result A
come_back none = err external
come_back (some a) = ok a

abbrev pub handled {ℓ} : {A : Type ℓ} → (Error → M A) → Result A → M A
handled f (ok a) w = (ok a, w)
handled f (err e) w = f e w

-- A call that leaves the process: `none` is an error.
unfoldable pub outside {ℓ} : {A : Type ℓ} → (Env → ℕ → Option A) → M A
outside f w = (come_back (f w.env w.ticks), record w { ticks = w.ticks + 1 })

-- `queue.Enqueue`, which waits for room in the channel; it fails where the context is done first.
unfoldable pub enqueue : Job → M (Unit {0})
enqueue job w =
    if w.env.cancelled w.ticks
    then (err external, record w { ticks = w.ticks + 1 })
    else (ok tt, record w { ticks = w.ticks + 1; queue = w.queue ++ job ∷ [] })

-- An error that is logged and dropped.
unfoldable pub ignoring : M (Unit {0}) → M (Unit {0})
ignoring m w = (ok tt, (m w).1)

-- `if err != nil { return fail(err) }`
unfoldable pub caught {ℓ} : {A : Type ℓ} → (Error → M A) → M A → M A
caught f m w = handled f (m w).0 (m w).1

-- `if err != nil { return …, f(err) }`
unfoldable pub map_err {ℓ} : {A : Type ℓ} → (Error → Error) → M A → M A
map_err f m w = (recovered f (m w).0, (m w).1)
