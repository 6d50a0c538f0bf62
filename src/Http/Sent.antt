-- ===== src/Http/Sent.antt =====
-- What a client sees of a handler of handler.go: the status, by the errors of the package.
use baskety.Base.{ℕ, ◌≡◌, refl, sym, ◌∙◌, arith, if◌then◌else◌}
use baskety.World.{
  World, M, Package, Error, Result, ok, err, not_found, invalid_input, forbidden, no_rows,
  unique_violation, db_error, parse_error, external, duplicate, email_taken, invalid_credentials,
}
use baskety.World as W
use baskety.Http.{Body, Reply, same_package, write_json, write_err, replied, call}
use baskety.Inventory.Request.{void}

-- The status and the world after it.
abbrev pub sent {ℓ} : {A : Type ℓ} → Reply A × World → ℕ × World
sent (reply, w) = (reply.status, w)

-- The status for an error, where only the sentinels of the package `p` are known.
unfoldable pub error_status : Package → Error → ℕ
error_status p (not_found q) = if same_package p q then 404 else 500
error_status p (forbidden q) = if same_package p q then 403 else 500
error_status p (invalid_input q) = if same_package p q then 400 else 500
error_status p e = 500

abbrev pub status_of {ℓ} : {A : Type ℓ} → Package → ℕ → Result A → ℕ
status_of p good (ok a) = good
status_of p good (err e) = error_status p e

sent-write_err {ℓ} :
    (A : Type ℓ) (p : Package) (e : Error) (w : World)
    → sent (write_err {A = A} p e w) ≡ (error_status p e, w)
unfolding write_err write_json error_status
sent-write_err A p (not_found q) w = ground arith
sent-write_err A p (forbidden q) w = ground arith
sent-write_err A p (invalid_input q) w = ground arith
sent-write_err A p no_rows w = refl
sent-write_err A p unique_violation w = refl
sent-write_err A p db_error w = refl
sent-write_err A p parse_error w = refl
sent-write_err A p duplicate w = refl
sent-write_err A p email_taken w = refl
sent-write_err A p invalid_credentials w = refl
sent-write_err A p external w = refl

abbrev pub outcome {ℓ} : {A : Type ℓ} → Package → ℕ → Result A × World → ℕ × World
outcome p good (r, w) = (status_of p good r, w)

module _ {ℓ κ} {A : Type ℓ} {B : Type κ} (p : Package) (good : ℕ) (show : A → Body B) where
  pub sent-replied :
      (r : Result A) (v : World)
      → sent (replied p r (λ a. write_json good (show a)) v) ≡ outcome p good (r, v)
  unfolding write_json
  sent-replied (ok a) v = refl
  sent-replied (err e) v = sent-write_err B p e v

  voided :
      (r : Result A) (v : World)
      → outcome p good (W.continue {B = Unit {0}} r (λ _. W.pure tt) v) ≡ outcome p good (r, v)
  unfolding W.pure
  voided (ok a) v = refl
  voided (err e) v = refl

  -- A handler that has called the service replies with `good`, or with the status of the error.
  pub sent-call :
      (m : M A) (w : World)
      → sent (call p m (λ a. write_json good (show a)) w) ≡ outcome p good (void m w)
  unfolding call W.◌>>=◌
  sent-call m w = sent-replied (m w).0 (m w).1 ∙ sym (voided (m w).0 (m w).1)
