-- ===== src/Table.antt =====
-- Tables as lists of rows, and what SELECT, UPDATE, DELETE and ORDER BY do to them. Of the rows that
-- ORDER BY does not tell apart the model keeps the order; PostgreSQL leaves it open.
pub mod Laws
pub mod Keys
pub mod Refs
pub mod Order
use baskety.Base.{
  ℕ, Bool, true, false, not, List, [], ◌∷◌, ◌++◌, Option, none, some, if◌then◌else◌, ◌==◌, leb,
}
use baskety.Base.Int.{ℤ, pos, ◌+ℤ◌}

module _ {ℓ} {A : Type ℓ} where
  -- The first row that passes.
  unfoldable pub find_by : (A → Bool) → List A → Option A
  find_by p [] = none
  find_by p (x ∷ xs) = if p x then some x else find_by p xs

  unfoldable pub any_row : (A → Bool) → List A → Bool
  any_row p [] = false
  any_row p (x ∷ xs) = if p x then true else any_row p xs

  -- SELECT … WHERE
  unfoldable pub select : (A → Bool) → List A → List A
  select p [] = []
  select p (x ∷ xs) = let rest = select p xs in if p x then x ∷ rest else rest

  -- DELETE … WHERE
  unfoldable pub delete_where : (A → Bool) → List A → List A
  delete_where p [] = []
  delete_where p (x ∷ xs) = let rest = delete_where p xs in if p x then rest else x ∷ rest

  -- UPDATE … SET … WHERE
  unfoldable pub update_where : (A → Bool) → (A → A) → List A → List A
  update_where p f [] = []
  update_where p f (x ∷ xs) = (if p x then f x else x) ∷ update_where p f xs

  -- SUM, 0 for no rows
  unfoldable pub sum_by : (A → ℤ) → List A → ℤ
  sum_by q [] = pos 0
  sum_by q (x ∷ xs) = q x +ℤ sum_by q xs

  unfoldable pub insert_sorted : (A → A → Bool) → A → List A → List A
  insert_sorted le x [] = x ∷ []
  insert_sorted le x (y ∷ ys) = if le x y then x ∷ y ∷ ys else y ∷ insert_sorted le x ys

  -- ORDER BY
  unfoldable pub order_by : (A → A → Bool) → List A → List A
  unfolding insert_sorted
  order_by le [] = []
  order_by le (x ∷ xs) = insert_sorted le x (order_by le xs)

-- ASC NULLS LAST
unfoldable pub nulls_last : Option ℕ → Option ℕ → Bool
nulls_last none none = true
nulls_last none (some b) = false
nulls_last (some a) none = true
nulls_last (some a) (some b) = leb a b
