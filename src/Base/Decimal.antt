-- ===== src/Base/Decimal.antt =====
-- Quantities on their way from a request to a `numeric(10,3)` column.
use Prim.Native.Nat.{ℕ, zero, suc, ◌+◌, ◌*◌, ◌/◌, ◌^◌}
use mathlib.Core.Path.{◌≡◌, refl}
use mathlib.Core.Bool.{Bool}
use native.Mathlib.Omega.{arith}
use baskety.Base.Int.{ℤ, pos, negsuc, ltb_ℤ, leb_ℤ}

-- A finite float64, by the decimal that `strconv.FormatFloat(f, 'f', -1, 64)` writes for it: `digits`
-- over the power of ten. 0.30000000000000004 has the digits 30000000000000004 and 17 places.
pub record Decimal : Type 0 where
  pub digits : ℤ
  pub places : ℕ

-- `f > 0` and `f >= 0`
abbrev pub is_positive : Decimal → Bool
is_positive f = ltb_ℤ (pos 0) f.digits

abbrev pub is_nonnegative : Decimal → Bool
is_nonnegative f = leb_ℤ (pos 0) f.digits

abbrev pub negated : ℕ → ℤ
negated zero = pos 0
negated (suc n) = negsuc n

-- n over the power of ten, to the nearest thousandth, half of one upwards.
abbrev pub rounded : ℕ → ℕ → ℕ
rounded places n = (2 * 1000 * n + 10 ^ places) / (2 * 10 ^ places)

abbrev pub signed : ℕ → ℤ → ℤ
signed places (pos n) = pos (rounded places n)
signed places (negsuc n) = negated (rounded places (suc n))

-- What a `numeric(10,3)` column keeps of a decimal, in thousandths: PostgreSQL rounds, half a
-- thousandth away from zero.
unfoldable pub stored_numeric : Decimal → ℤ
stored_numeric f = signed f.places f.digits

-- `PgNumericToFloat` of a value of such a column: the nearest float64 has ten digits at most, and
-- `FormatFloat` writes those.
abbrev pub of_numeric : ℤ → Decimal
of_numeric q = record { digits = q; places = 3 }

rounded_three : (n : ℕ) → rounded 3 n ≡ n
rounded_three n = omega arith

-- What is read of a column is written back unchanged.
pub stored-of_numeric : (q : ℤ) → stored_numeric (of_numeric q) ≡ q
unfolding stored_numeric
stored-of_numeric (pos n) = rw (rounded_three n) refl
stored-of_numeric (negsuc n) = rw (rounded_three (suc n)) refl
