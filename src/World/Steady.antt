-- ===== src/World/Steady.antt =====
-- The environment (`Env`) under the chains of World.antt.
use baskety.Base.{ℕ, Option, ◌≡◌, refl, ◌∙◌, Bool, true, false, Bool-cases, inl, inr}
use baskety.Outside.{Job}
use baskety.World.{
  Error, World, Env, M, Stmt, exec, outside, caught, ignoring, enqueue, ◌>>=◌, pure, raise, guard,
  env, host_clock, map_err,
}
use baskety.World.Laws.{Result-cases}

-- `m` leaves the environment as it found it.
pub record Steady {ℓ} {A : Type ℓ} (m : M A) : Type ℓ where
  pub at : (w : World) → (m w).1.env ≡ w.env

module _ {ℓ κ} {A : Type ℓ} {B : Type κ} where
  pub Steady-bind : (m : M A) (f : A → M B) → Steady m → ((a : A) → Steady (f a)) → Steady (m >>= f)
  unfolding ◌>>=◌
  Steady-bind m f sm sf = record {
    at = λ w. elim (Result-cases (m w).0) [
      | inl (a, e) ↦ rw e ((sf a).at (m w).1 ∙ sm.at w)
      | inr (x, e) ↦ rw e (sm.at w)
    ];
  }

module _ {ℓ} {A : Type ℓ} where
  pub Steady-exec : (s : Stmt A) → Steady (exec s)
  unfolding exec
  Steady-exec s = record {
    at = λ w. elim (Bool-cases (w.env.fault w.ticks)) [
      | inl bad ↦ rw bad refl
      | inr good ↦ rw good refl
    ];
  }

  pub Steady-pure : (a : A) → Steady (pure a)
  unfolding pure
  Steady-pure a = record { at = λ w. refl }

  pub Steady-raise : (e : Error) → Steady {A = A} (raise e)
  unfolding raise
  Steady-raise e = record { at = λ w. refl }

  pub Steady-map_err : (f : Error → Error) (m : M A) → Steady m → Steady (map_err f m)
  unfolding map_err
  Steady-map_err f m sm = record { at = sm.at }

  pub Steady-outside : (f : Env → ℕ → Option A) → Steady (outside f)
  unfolding outside
  Steady-outside f = record { at = λ w. refl }

  pub Steady-caught :
      (f : Error → M A) (m : M A) → ((e : Error) → Steady (f e)) → Steady m → Steady (caught f m)
  unfolding caught
  Steady-caught f m sf sm = record {
    at = λ w. elim (Result-cases (m w).0) [
      | inl (a, e) ↦ rw e (sm.at w)
      | inr (x, e) ↦ rw e ((sf x).at (m w).1 ∙ sm.at w)
    ];
  }

pub Steady-ignoring : (m : M (Unit {0})) → Steady m → Steady (ignoring m)
unfolding ignoring
Steady-ignoring m sm = record { at = sm.at }

pub Steady-enqueue : (job : Job) → Steady (enqueue job)
unfolding enqueue
Steady-enqueue job = record {
  at = λ w. elim (Bool-cases (w.env.cancelled w.ticks)) [
    | inl late ↦ rw late refl
    | inr room ↦ rw room refl
  ];
}

pub Steady-guard : (b : Bool) (e : Error) → Steady (guard b e)
unfolding guard
Steady-guard true e = record { at = λ w. refl }
Steady-guard false e = record { at = λ w. refl }

pub Steady-env : Steady env
unfolding env
Steady-env = record { at = λ w. refl }

pub Steady-clock : Steady host_clock
unfolding host_clock
Steady-clock = record { at = λ w. refl }

pub ruleset steady_rules = (
  Steady-bind, Steady-exec, Steady-pure, Steady-raise, Steady-map_err, Steady-guard, Steady-env,
  Steady-clock, Steady-outside, Steady-caught, Steady-ignoring, Steady-enqueue,
)
