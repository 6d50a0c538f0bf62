-- ===== src/Table/Order.antt =====
-- ORDER BY.
use baskety.Base.{
  ℕ, ◌+◌, ◌≡◌, refl, ap, ◌∙◌, Bool, true, false, List, [], ◌∷◌, arith, Bool-cases, inl, inr,
  if◌then◌else◌, Option, none, some,
}
use baskety.Table.{order_by, insert_sorted, nulls_last, select}
use baskety.Table.Laws.{AllRows}

-- Each row comes before the next.
abbrev pub Ordered {ℓ} : {A : Type ℓ} → (A → A → Bool) → List A → Type 0
Ordered le [] = Unit
Ordered le (x ∷ []) = Unit
Ordered le (x ∷ y ∷ ys) = (le x y ≡ true) × Ordered le (y ∷ ys)

module _ {ℓ} {A : Type ℓ} (le : A → A → Bool)
    (total : (a b : A) → le a b ≡ false → le b a ≡ true) where
  insert-Ordered : (x : A) (ys : List A) → Ordered le ys → Ordered le (insert_sorted le x ys)
  unfolding insert_sorted
  insert-Ordered x [] o = tt
  insert-Ordered x (y ∷ []) o = elim (Bool-cases (le x y)) [
    | inl before ↦ rw before (before, tt)
    | inr after ↦ rw after (total x y after, tt)
  ]
  insert-Ordered x (y ∷ z ∷ zs) o = elim (Bool-cases (le x y)) [
    | inl before ↦ rw before (before, o)
    | inr after ↦ elim (Bool-cases (le x z)) [
      | inl second ↦ rw (after, second) (total x y after, (second, o.1))
      | inr later ↦
          let rest = insert-Ordered x (z ∷ zs) o.1 in rw (after, later) (o.0, (rw later at rest))
    ]
  ]

  pub order_by-Ordered : (xs : List A) → Ordered le (order_by le xs)
  unfolding order_by
  order_by-Ordered [] = tt
  order_by-Ordered (x ∷ xs) = insert-Ordered x (order_by le xs) (order_by-Ordered xs)

-- How many rows pass a test.
unfoldable pub count_by {ℓ} : {A : Type ℓ} → (A → Bool) → List A → ℕ
count_by p [] = 0
count_by p (x ∷ xs) = (if p x then 1 else 0) + count_by p xs

module _ {ℓ} {A : Type ℓ} (le : A → A → Bool) (p : A → Bool) where
  insert-count : (x : A) (ys : List A) → count_by p (insert_sorted le x ys) ≡ count_by p (x ∷ ys)
  unfolding insert_sorted count_by
  insert-count x [] = refl
  insert-count x (y ∷ ys) = elim (Bool-cases (le x y)) [
    | inl before ↦ rw before refl
    | inr after ↦ rw (after, insert-count x ys) (omega arith)
  ]

  pub order_by-count : (xs : List A) → count_by p (order_by le xs) ≡ count_by p xs
  unfolding order_by count_by
  order_by-count [] = refl
  order_by-count (x ∷ xs) =
      insert-count x (order_by le xs) ∙ ap (λ n. (if p x then 1 else 0) + n) (order_by-count xs)

pub nulls_last_total : (a b : Option ℕ) → nulls_last a b ≡ false → nulls_last b a ≡ true
unfolding nulls_last
nulls_last_total none none h = ground arith
nulls_last_total none (some b) h = refl
nulls_last_total (some a) none h = ground arith
nulls_last_total (some a) (some b) h = ground arith

-- What holds of all rows holds of them in any order.
module _ {ℓ κ} {A : Type ℓ} (P : A → Type κ) where
  insert-AllRows :
      (le : A → A → Bool) (x : A) (ys : List A)
      → P x
      → AllRows P ys
      → AllRows P (insert_sorted le x ys)
  unfolding insert_sorted
  insert-AllRows le x [] p ps = (p, tt)
  insert-AllRows le x (y ∷ ys) p ps = elim (Bool-cases (le x y)) [
    | inl before ↦ rw before (p, ps)
    | inr after ↦ rw after (ps.0, insert-AllRows le x ys p ps.1)
  ]

  pub order_by-AllRows :
      (le : A → A → Bool) (xs : List A) → AllRows P xs → AllRows P (order_by le xs)
  unfolding order_by
  order_by-AllRows le [] ps = tt
  order_by-AllRows le (x ∷ xs) ps =
      insert-AllRows le x (order_by le xs) ps.0 (order_by-AllRows le xs ps.1)

pub select-AllRows {ℓ} :
    {A : Type ℓ} (p : A → Bool) (xs : List A) → AllRows (λ x. p x ≡ true) (select p xs)
unfolding select
select-AllRows p [] = tt
select-AllRows p (x ∷ xs) = elim (Bool-cases (p x)) [
  | inl hit ↦ rw hit (hit, select-AllRows p xs)
  | inr miss ↦ rw miss (select-AllRows p xs)
]
