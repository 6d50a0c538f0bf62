-- ===== src/Http/Steps.antt =====
-- The checks of a handler of handler.go, one after the other, against the request that is read off
-- the context, the path and the body.
use baskety.Base.{ℕ, ◌≡◌, ◌⊎◌, inl, inr, refl, String, Bool, true, false, Option, none, some}
use baskety.World.{World, M, Package}
use baskety.Http.{
  HttpRequest, Body, Handler, household_from_ctx, user_from_ctx, parse_param, decode_body, given,
  write_json, call,
}
use baskety.Http.Sent.{sent, outcome, sent-call}
use baskety.Http.Asked.{◌>>=◌, param, decoded_body}
use baskety.Inventory.Request.{void}

-- The statuses of a request that a handler turns away before it calls the service.
abbrev pub IsRefusal : ℕ → Type 0
IsRefusal s = (s ≡ 400) ⊎ (s ≡ 401) ⊎ (s ≡ 403)

-- What becomes of a request: turned away, or served as `serve` does.
module _ {R : Type 0} (p : Package) (good : ℕ) (serve : R → M (Unit {0})) (w : World) where
  abbrev pub Answers : Option R → ℕ × World → Type 0
  Answers none (s, v) = IsRefusal s × (v ≡ w)
  Answers (some req) out = out ≡ outcome p good (serve req w)

  module _ {A B : Type 0} (r : HttpRequest B) (k : ℕ → Handler A) (f : ℕ → Option R)
      (rest : (n : ℕ) → Answers (f n) (sent (k n w))) where
    given_step :
        (status : ℕ) (body : Body A)
        → IsRefusal status
        → (o : Option ℕ) → Answers (o >>= f) (sent (given (write_json status body) o k w))
    unfolding write_json
    given_step status body bad none = (bad, refl)
    given_step status body bad (some n) = rest n

    pub household_step : Answers (r.household >>= f) (sent (household_from_ctx r k w))
    unfolding household_from_ctx
    household_step = given_step 403 _ (inr (inr refl)) r.household

    pub user_step : Answers (r.user >>= f) (sent (user_from_ctx r k w))
    unfolding user_from_ctx
    user_step = given_step 401 _ (inr (inl refl)) r.user

    pub param_step :
        (name refusal : String)
        → Answers (param w.env r name >>= f) (sent (parse_param r name refusal k w))
    unfolding parse_param
    param_step name refusal = given_step 400 _ (inl refl) (w.env.uuid_parse (r.url_param name))

  module _ {A B : Type 0} (r : HttpRequest B) (k : B → Handler A) (f : B → Option R)
      (rest : (b : B) → Answers (f b) (sent (k b w))) where
    body_step :
        (d : Bool) → r.decoded ≡ d → Answers (decoded_body r >>= f) (sent (decode_body r k w))
    unfolding decode_body write_json
    body_step true e = rw e (rest r.body)
    body_step false e = rw e (inl refl, refl)

    pub json_step : Answers (decoded_body r >>= f) (sent (decode_body r k w))
    json_step = body_step r.decoded refl

  pub call_step {ℓ} :
      {A : Type ℓ} {B : Type 0} (m : M A) (show : A → Body B) (req : R)
      → serve req ≡ void m
      → Answers (some req) (sent (call p m (λ a. write_json good (show a)) w))
  call_step m show req e = rw e (sent-call p good show m w)
