-- ===== src/Sql.antt =====
-- What the statements of all tables share: column types, constraints, `:one` results.
use Prim.Native.Char.{code}
use baskety.Base.{
  ℕ, zero, suc, List, String, true, false, ◌&&◌, ◌==◌, ◌+◌, ◌^◌, Bool, not, Option, none, some, ltb,
  if◌then◌else◌,
}
use baskety.Base.Int.{ℤ, pos_part, neg_part}
use baskety.Schema.{ScanRow, Db}
use baskety.Table.{update_where}
use baskety.World.{Result, ok, err, no_rows, unique_violation, db_error}

-- numeric(10,3): at most seven digits before the point.
abbrev pub fits : ℤ → Bool
fits q = ltb (pos_part q + neg_part q) (10 ^ 10)

-- INSERT: the CHECKs and column types, then the unique indexes, then the foreign keys.
unfoldable pub inserted {ℓ} : {A : Type ℓ} → Bool → Bool → Bool → A → Db → Db → Result A × Db
inserted checks clash refs row d d' =
    if not checks
    then (err db_error, d)
    else if clash
    then (err unique_violation, d)
    else if refs
    then (ok row, d')
    else (err db_error, d)

-- `:one`
abbrev pub one {ℓ} : {A : Type ℓ} → Option A → Result A
one none = err no_rows
one (some a) = ok a

abbrev pub coalesce {ℓ} : {A : Type ℓ} → Option A → Option A → Option A
coalesce none b = b
coalesce (some a) b = some a

-- UPDATE … RETURNING of the row that the condition names.
unfoldable pub updated {ℓ} :
    {A : Type ℓ} → Option A → Bool → (A → Bool) → (A → A) → Db → Db → Result A × Db
updated none checks clash change d d' = (err no_rows, d)
updated (some r) checks clash change d d' =
    if not checks
    then (err db_error, d)
    else if clash (change r)
    then (err unique_violation, d)
    else (ok (change r), d')

-- What a nullable reference names is among what goes.
abbrev pub any_link : (ℕ → Bool) → Option ℕ → Bool
any_link gone none = false
any_link gone (some i) = gone i

-- The scans lose their link to a list that goes.
abbrev pub forget_lists : (ℕ → Bool) → List ScanRow → List ScanRow
forget_lists gone scans =
    update_where (λ (r : ScanRow). any_link gone r.grocery_list_id)
      (λ r. record r { grocery_list_id = none }) scans

-- A nullable column, checked where it is not null.
abbrev pub nullable {ℓ} : {A : Type ℓ} → (A → Bool) → Option A → Bool
nullable check none = true
nullable check (some a) = check a

abbrev only_spaces : String → Bool
only_spaces String.[] = true
only_spaces (String.◌∷◌ c s) = code c == 0x20 && only_spaces s

-- char(n): no more than n characters, but for spaces at the end.
unfoldable pub char_fits : ℕ → String → Bool
char_fits zero s = only_spaces s
char_fits (suc n) String.[] = true
char_fits (suc n) (String.◌∷◌ c s) = char_fits n s

-- What is read back from a char(n) is filled up with spaces.
unfoldable pub char_padded : ℕ → String → String
char_padded zero s = ""
char_padded (suc n) String.[] = String.◌∷◌ " " (char_padded n "")
char_padded (suc n) (String.◌∷◌ c s) = String.◌∷◌ c (char_padded n s)

-- The currency columns.
abbrev pub currency_fits : Option String → Bool
currency_fits = nullable (char_fits 3)

abbrev pub stored_currency : Option String → Option String
stored_currency none = none
stored_currency (some s) = some (char_padded 3 s)
