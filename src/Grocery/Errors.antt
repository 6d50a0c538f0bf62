-- ===== src/Grocery/Errors.antt =====
-- The errors of the inventory package behind the grocery service (mapInventoryErr).
pub mod Requests
use baskety.Base.{
  ℕ, ◌≡◌, refl, sym, ap, ◌∙◌, String, Bool, true, false, Option, none, some, List, [], ◌∷◌,
  Bool-cases, Option-cases, inl, inr, is_empty, arith,
}
use baskety.Base.Int.{ℤ, leb_ℤ}
use baskety.World.{
  Error, World, M, Stmt, Result, ok, err, not_found, forbidden, inventory, grocery, exec, ◌>>=◌,
  pure, raise, guard, env, host_clock, map_err, db_error, invalid_input,
}
use baskety.World.Laws.{Result-cases}
use baskety.Schema.{Db}
use baskety.Sql.{inserted, updated, one}
use baskety.Inventory.Dto.{respond, ItemResponse as InventoryItemResponse}
use baskety.Grocery.Queries
use baskety.Grocery.Repository
use baskety.Grocery.Service
use baskety.Grocery.Service.{parsed}

-- `errors.Is(err, inventory.ErrNotFound) || errors.Is(err, inventory.ErrForbidden)`
unfoldable pub of_inventory : Error → Bool
of_inventory (not_found inventory) = true
of_inventory (forbidden inventory) = true
of_inventory e = false

abbrev pub leaks {ℓ} : {A : Type ℓ} → Result A → Bool
leaks (ok a) = false
leaks (err e) = of_inventory e

-- `m` never answers with an error of the inventory package.
pub record Sealed {ℓ} {A : Type ℓ} (m : M A) : Type 0 where
  pub at : (w : World) → leaks (m w).0 ≡ false

mapped : (e : Error) → of_inventory (Service.map_inventory_err e) ≡ false
unfolding of_inventory
mapped e = ground arith

kept : (e : Error) → of_inventory e ≡ false → of_inventory (Repository.or_not_found e) ≡ false
unfolding of_inventory
kept e h = ground arith

module _ {ℓ κ} {A : Type ℓ} {B : Type κ} where
  pub Sealed-bind : (m : M A) (f : A → M B) → Sealed m → ((a : A) → Sealed (f a)) → Sealed (m >>= f)
  unfolding ◌>>=◌
  Sealed-bind m f sm sf = record {
    at = λ w. elim (Result-cases (m w).0) [
      | inl (a, e) ↦ rw e ((sf a).at (m w).1)
      | inr (x, e) ↦ rw e (sym (ap leaks e) ∙ sm.at w)
    ];
  }

module _ {ℓ} {A : Type ℓ} where
  pub Sealed-exec : (s : Stmt A) → ((m : _) (d : _) → leaks (s m d).0 ≡ false) → Sealed (exec s)
  unfolding exec of_inventory
  Sealed-exec s h = record {
    at = λ w. elim (Bool-cases (w.env.fault w.ticks)) [
      | inl bad ↦ rw bad refl
      | inr good ↦ rw good (h _ _)
    ];
  }

  pub Sealed-pure : (a : A) → Sealed (pure a)
  unfolding pure
  Sealed-pure a = record { at = λ w. refl }

  pub Sealed-map_err :
      (f : Error → Error) (m : M A)
      → ((e : Error) → of_inventory e ≡ false → of_inventory (f e) ≡ false)
      → Sealed m
      → Sealed (map_err f m)
  unfolding map_err
  Sealed-map_err f m h sm = record {
    at = λ w. elim (Result-cases (m w).0) [
      | inl (a, e) ↦ rw e refl
      | inr (x, e) ↦ rw e (h x (sym (ap leaks e) ∙ sm.at w))
    ];
  }

  -- `mapInventoryErr` lets none of them pass.
  pub translated : (m : M A) → Sealed (map_err Service.map_inventory_err m)
  unfolding map_err
  translated m = record {
    at = λ w. elim (Result-cases (m w).0) [ inl (a, e) ↦ rw e refl | inr (x, e) ↦ rw e (mapped x) ];
  }

  pub Sealed-or_not_found : (m : M A) → Sealed m → Sealed (map_err Repository.or_not_found m)
  Sealed-or_not_found m sm = Sealed-map_err Repository.or_not_found m kept sm

  pub inserted_clean :
      (checks clash refs : Bool) (row : A) (d d' : Db)
      → leaks (inserted checks clash refs row d d').0 ≡ false
  unfolding inserted of_inventory
  inserted_clean checks clash refs row d d' = ground arith

  pub updated_clean :
      (o : Option A) (checks : Bool) (clash : A → Bool) (f : A → A) (d d' : Db)
      → leaks (updated o checks clash f d d').0 ≡ false
  unfolding updated of_inventory
  updated_clean none checks clash f d d' = refl
  updated_clean (some r) checks clash f d d' = ground arith

  pub one_clean : (o : Option A) → leaks (one o) ≡ false
  unfolding of_inventory
  one_clean none = refl
  one_clean (some a) = refl

pub Sealed-raise {ℓ} : {A : Type ℓ} (e : Error) → of_inventory e ≡ false → Sealed {A = A} (raise e)
unfolding raise
Sealed-raise e h = record { at = λ w. h }

pub Sealed-guard : (b : Bool) (e : Error) → of_inventory e ≡ false → Sealed (guard b e)
unfolding guard
Sealed-guard true e h = record { at = λ w. refl }
Sealed-guard false e h = record { at = λ w. h }

pub Sealed-env : Sealed env
unfolding env
Sealed-env = record { at = λ w. refl }

pub Sealed-clock : Sealed host_clock
unfolding host_clock
Sealed-clock = record { at = λ w. refl }

pub ruleset sealed_rules = (
  Sealed-bind, Sealed-pure, Sealed-guard, Sealed-env, Sealed-clock, Sealed-or_not_found, translated,
)
