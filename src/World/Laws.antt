-- ===== src/World/Laws.antt =====
-- Rules for the monad: what a chain of statements does to the database, case by case.
use baskety.Base.{ℕ, Option, ◌≡◌, refl, ◌⊎◌, inl, inr, Bool, true, false, arith, Bool-cases}
use baskety.Schema.{Db}
use baskety.Outside.{Job}
use baskety.World.{
  Error, Result, ok, err, World, M, Stmt, moment, answered, exec, continue, ◌>>=◌, ◌>>◌, pure,
  guard, env, host_clock, map_err, raise, Env, outside, caught, ignoring, enqueue,
}

pub Result-cases {ℓ} :
    {A : Type ℓ} (r : Result A) → ((a : A) × (r ≡ ok a)) ⊎ ((e : Error) × (r ≡ err e))
Result-cases (ok a) = inl (a, refl)
Result-cases (err e) = inr (e, refl)

-- A property of the tables that `m` keeps, whether it succeeds or fails.
pub record Keeps {ℓ} {A : Type ℓ} (P : Db → Type 0) (m : M A) : Type ℓ where
  pub at : (w : World) → P w.db → P (m w).1.db

module _ {ℓ κ} {A : Type ℓ} {B : Type κ} {P : Db → Type 0} where
  Keeps-continue :
      (r : Result A) (f : A → M B)
      → ((a : A) → Keeps P (f a))
      → (w : World) → P w.db
      → P (continue r f w).1.db
  Keeps-continue (ok a) f kf w h = (kf a).at w h
  Keeps-continue (err e) f kf w h = h

  pub Keeps-bind :
      (m : M A) (f : A → M B) → Keeps P m → ((a : A) → Keeps P (f a)) → Keeps P (m >>= f)
  unfolding ◌>>=◌
  Keeps-bind m f km kf = record { at = λ w h. Keeps-continue (m w).0 f kf (m w).1 (km.at w h) }

module _ {ℓ} {A : Type ℓ} {P : Db → Type 0} where
  pub Keeps-exec :
      (s : Stmt A) → ((w : World) → P w.db → P (s (moment w) w.db).1) → Keeps P (exec s)
  unfolding exec
  Keeps-exec s ks = record {
    at = λ w h. elim (Bool-cases (w.env.fault w.ticks)) [
      | inl bad ↦ rw bad h
      | inr good ↦ rw good (ks w h)
    ];
  }

  pub Keeps-pure : (a : A) → Keeps P (pure a)
  unfolding pure
  Keeps-pure a = record { at = λ w h. h }

  pub Keeps-map_err : (f : Error → Error) (m : M A) → Keeps P m → Keeps P (map_err f m)
  unfolding map_err
  Keeps-map_err f m km = record { at = λ w h. km.at w h }

module _ {P : Db → Type 0} where
  pub Keeps-guard : (b : Bool) (e : Error) → Keeps P (guard b e)
  unfolding guard
  Keeps-guard true e = record { at = λ w h. h }
  Keeps-guard false e = record { at = λ w h. h }

  pub Keeps-env : Keeps P env
  unfolding env
  Keeps-env = record { at = λ w h. h }

  pub Keeps-clock : Keeps P host_clock
  unfolding host_clock
  Keeps-clock = record { at = λ w h. h }

  pub Keeps-ignoring : (m : M (Unit {0})) → Keeps P m → Keeps P (ignoring m)
  unfolding ignoring
  Keeps-ignoring m km = record { at = km.at }

  pub Keeps-enqueue : (job : Job) → Keeps P (enqueue job)
  unfolding enqueue
  Keeps-enqueue job = record {
    at = λ w h. elim (Bool-cases (w.env.cancelled w.ticks)) [
      | inl late ↦ rw late h
      | inr room ↦ rw room h
    ];
  }

module _ {ℓ} {A : Type ℓ} {P : Db → Type 0} where
  pub Keeps-outside : (f : Env → ℕ → Option A) → Keeps P (outside f)
  unfolding outside
  Keeps-outside f = record { at = λ w h. h }

  pub Keeps-raise : (e : Error) → Keeps {A = A} P (raise e)
  unfolding raise
  Keeps-raise e = record { at = λ w h. h }

  pub Keeps-caught :
      (f : Error → M A) (m : M A) → ((e : Error) → Keeps P (f e)) → Keeps P m → Keeps P (caught f m)
  unfolding caught
  Keeps-caught f m kf km = record {
    at = λ w h. elim (Result-cases (m w).0) [
      | inl (a, e) ↦ rw e (km.at w h)
      | inr (x, e) ↦ rw e ((kf x).at (m w).1 (km.at w h))
    ];
  }

pub ruleset keeps_rules = (
  Keeps-bind, Keeps-pure, Keeps-map_err, Keeps-guard, Keeps-env, Keeps-clock, Keeps-ignoring,
  Keeps-enqueue, Keeps-outside, Keeps-raise, Keeps-caught,
)

-- A chain that begins by reading: the rest runs on the same tables.
module _ {ℓ κ} {A : Type ℓ} {B : Type κ} where
  pub bind_after_read :
      (P : Db → Type 0) (m : M A) (f : A → M B) (w : World)
      → (m w).1.db ≡ w.db
      → P w.db
      → ((a : A) → (m w).0 ≡ ok a → P (f a (m w).1).1.db)
      → P ((m >>= f) w).1.db
  unfolding ◌>>=◌
  bind_after_read P m f w same start rest = elim (Result-cases (m w).0) [
    | inl (a, e) ↦ rw e (rest a e)
    | inr (x, e) ↦ rw e (rw same start)
  ]

  -- A successful chain: its first part succeeded, and so did the rest.
  pub bind-eq-ok :
      (m : M A) (f : A → M B) (w : World) (b : B)
      → ((m >>= f) w).0 ≡ ok b
      → (a : A) × ((m w).0 ≡ ok a) × ((m >>= f) w ≡ f a (m w).1) × ((f a (m w).1).0 ≡ ok b)
  unfolding ◌>>=◌
  bind-eq-ok m f w b h = elim (Result-cases (m w).0) [
    | inl (a, e) ↦ (a, e, rw e refl, rw e at h)
    | inr (x, e) ↦ absurd (failed (m w).0 x e h)
  ]
    where
      failed : (r : Result A) (x : Error) → r ≡ err x → (continue r f (m w).1).0 ≡ ok b → ⊥
      failed r x e g = cc

module _ {ℓ} {A : Type ℓ} where
  pub guard-eq-ok :
      (c : Bool) (e : Error) (k : M A) (w : World) (b : A)
      → ((guard c e >> k) w).0 ≡ ok b
      → (c ≡ true) × ((guard c e >> k) w ≡ k w) × ((k w).0 ≡ ok b)
  unfolding guard ◌>>=◌
  guard-eq-ok true e k w b h = (refl, refl, h)
  guard-eq-ok false e k w b h = cc

  pub pure-eq-ok : (a b : A) (w : World) → (pure a w).0 ≡ ok b → a ≡ b
  unfolding pure
  pure-eq-ok a b w h = cc

-- A chain that ends by reading leaves what its first part left.
module _ {ℓ κ} {A : Type ℓ} {B : Type κ} where
  pub bind_reads :
      (m : M A) (f : A → M B) (w : World)
      → ((a : A) (v : World) → (f a v).1.db ≡ v.db)
      → ((m >>= f) w).1.db ≡ (m w).1.db
  unfolding ◌>>=◌
  bind_reads m f w h = elim (Result-cases (m w).0) [
    | inl (a, e) ↦ rw e (h a (m w).1)
    | inr (x, e) ↦ rw e refl
  ]

module _ {ℓ} {A : Type ℓ} where
  -- A statement fails and changes nothing, or it runs.
  pub exec_keeps :
      (P : Db → Type 0) (s : Stmt A) (w : World)
      → P w.db
      → P (s (moment w) w.db).1
      → P (exec s w).1.db
  unfolding exec
  exec_keeps P s w h k = elim (Bool-cases (w.env.fault w.ticks)) [
    | inl bad ↦ rw bad h
    | inr good ↦ rw good k
  ]

module _ {ℓ κ} {A : Type ℓ} {B : Type κ} where
  -- What holds after the first part, and after the rest where the first part succeeds.
  pub bind_db :
      (P : Db → Type 0) (m : M A) (f : A → M B) (w : World)
      → P (m w).1.db
      → ((a : A) → (m w).0 ≡ ok a → P (f a (m w).1).1.db)
      → P ((m >>= f) w).1.db
  unfolding ◌>>=◌
  bind_db P m f w start rest = elim (Result-cases (m w).0) [
    | inl (a, e) ↦ rw e (rest a e)
    | inr (x, e) ↦ rw e start
  ]

module _ {ℓ} {A : Type ℓ} where
  pub exec-eq-ok :
      (s : Stmt A) (w : World) (a : A)
      → (exec s w).0 ≡ ok a
      → ((s (moment w) w.db).0 ≡ ok a) × ((exec s w).1.db ≡ (s (moment w) w.db).1)
  unfolding exec
  exec-eq-ok s w a h = elim (Bool-cases (w.env.fault w.ticks)) [
    | inl bad ↦ absurd (ground (arith, h, bad))
    | inr good ↦ (rw good at h, rw good refl)
  ]

  pub map_err-eq-ok :
      (f : Error → Error) (m : M A) (w : World) (a : A) → (map_err f m w).0 ≡ ok a → (m w).0 ≡ ok a
  unfolding map_err
  map_err-eq-ok f m w a h = ground arith

module _ {ℓ} {A : Type ℓ} where
  -- A statement that does not fail.
  pub exec_runs :
      (s : Stmt A) (w : World)
      → w.env.fault w.ticks ≡ false
      → exec s w ≡ answered (s (moment w) w.db) w
  unfolding exec
  exec_runs s w good = rw good refl
