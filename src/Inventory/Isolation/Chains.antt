-- ===== src/Inventory/Isolation/Chains.antt =====
-- Chains of statements beside the inventory of another household: what becomes of the tables is told
-- by a relation `R`.
use mathlib.Core.Path.{subst}
use baskety.Base.{ℕ, ◌≡◌, sym, Bool, true, false}
use baskety.Schema.{Db}
use baskety.World.{World, M, ok, ◌>>=◌, ◌>>◌, guard, Error}
use baskety.World.Laws.{bind_after_read, bind_reads}
use baskety.Integrity.{WellFormed}
use baskety.Inventory.Scope.{Foreign}

module _ (R : Db → Db → Type 0) (h i : ℕ) where
  -- `m` leaves the tables of a well-formed database as `R` says, where the inventory `i` is another
  -- household's.
  pub record Spares {ℓ} {A : Type ℓ} (m : M A) : Type ℓ where
    pub at : (w : World) → WellFormed w.db → Foreign h i w.db → R w.db (m w).1.db

module _ (R : Db → Db → Type 0) (R-refl : (d : Db) → R d d) (h i : ℕ) where
  pub Spares-read {ℓ} : {A : Type ℓ} (m : M A) → ((w : World) → (m w).1.db ≡ w.db) → Spares R h i m
  Spares-read m same = record { at = λ w v f. subst (R w.db) (sym (same w)) (R-refl w.db) }

  -- `m` reads, and what it read tells the rest of the chain what it needs.
  pub Spares-after {ℓ κ} :
      {A : Type ℓ} {B : Type κ} (m : M A) (k : A → M B) (Fact : A → Db → Type 0)
      → ((w : World) → (m w).1.db ≡ w.db)
      → ((w : World) (a : A) → (m w).0 ≡ ok a → Fact a w.db)
      → ((a : A) (w : World)
          → WellFormed w.db
          → Foreign h i w.db
          → Fact a w.db
          → R w.db (k a w).1.db)
      → Spares R h i (m >>= k)
  Spares-after m k Fact same known rest = record {
    at = λ w v f. bind_after_read (R w.db) m k w (same w) (R-refl w.db) λ a e.
        let w' = (m w).1 in
        subst (λ d. R d (k a w').1.db) (same w)
          (rest a w' (subst WellFormed (sym (same w)) v) (subst (Foreign h i) (sym (same w)) f)
            (subst (Fact a) (sym (same w)) (known w a e)));
  }

  -- A chain that ends with the reply.
  pub Spares-reply {ℓ κ} :
      {A : Type ℓ} {B : Type κ} (m : M A) (k : A → M B)
      → ((a : A) (w : World) → (k a w).1.db ≡ w.db)
      → Spares R h i m
      → Spares R h i (m >>= k)
  Spares-reply m k same l = record {
    at = λ w v f. subst (R w.db) (sym (bind_reads m k w same)) (l.at w v f);
  }

  pub Spares-guard {ℓ} :
      {A : Type ℓ} (b : Bool) (e : Error) (m : M A) → Spares R h i m → Spares R h i (guard b e >> m)
  unfolding guard ◌>>=◌
  Spares-guard true e m l = record { at = λ w v f. l.at w v f }
  Spares-guard false e m l = record { at = λ w v f. R-refl w.db }
