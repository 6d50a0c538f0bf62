-- ===== src/Table/Keys.antt =====
-- Primary keys.
use baskety.Base.{
  ℕ, ◌≡◌, refl, Bool, true, false, List, [], ◌∷◌, ◌++◌, some, ◌==◌, arith, Bool-cases, inl, inr,
  ◌||◌, ◌∙◌, ◌&&◌, ap, ==_iff,
}
use baskety.Table.{find_by, any_row, delete_where, update_where}
use baskety.Table.Laws.{AllRows, AllRows-imp, Distinct, any_row-false}

module _ {ℓ} {A : Type ℓ} where
  pub any_row-append :
      (p : A → Bool) (xs : List A) (y : A) → any_row p (xs ++ y ∷ []) ≡ (any_row p xs || p y)
  unfolding any_row
  any_row-append p [] y = ground arith
  any_row-append p (x ∷ xs) y = ground (arith, any_row-append p xs y)

  pub any_row-delete_where :
      (p q : A → Bool) (xs : List A) → any_row p xs ≡ false → any_row p (delete_where q xs) ≡ false
  unfolding any_row delete_where
  any_row-delete_where p q [] h = refl
  any_row-delete_where p q (x ∷ xs) h = ground (arith, any_row-delete_where p q xs)

  pub any_row-update_where :
      (p q : A → Bool) (f : A → A) (xs : List A)
      → ((x : A) → p (f x) ≡ p x)
      → any_row p (update_where q f xs) ≡ any_row p xs
  unfolding any_row update_where
  any_row-update_where p q f [] h = refl
  any_row-update_where p q f (x ∷ xs) h = ground (arith, h x, any_row-update_where p q f xs h)

module _ {ℓ} {A : Type ℓ} (key : A → ℕ) where
  -- Every row with the key of the row found is that row.
  pub find_by_unique :
      (id : ℕ) (xs : List A) (r : A)
      → Distinct key xs
      → find_by (λ x. key x == id) xs ≡ some r
      → AllRows (λ x. (key x == id) ≡ true → x ≡ r) xs
  unfolding find_by
  find_by_unique id [] r d h = tt
  find_by_unique id (x ∷ xs) r d h = elim (Bool-cases (key x == id)) [
    | inl same ↦ (
      λ _. ground arith,
      AllRows-imp (λ y. (key y == key x) ≡ false) (λ y. (key y == id) ≡ true → y ≡ r) xs
          (λ y ne e. ground arith) (any_row-false _ xs d.0),
    )
    | inr other ↦ (λ e. ground arith, find_by_unique id xs r d.1 (ground arith))
  ]

  pub Distinct-append :
      (xs : List A) (y : A)
      → any_row (λ x. key x == key y) xs ≡ false
      → Distinct key xs
      → Distinct key (xs ++ y ∷ [])
  unfolding any_row
  Distinct-append [] y h d = (refl, tt)
  Distinct-append (x ∷ xs) y h d = (
    ground (arith, any_row-append (λ z. key z == key x) xs y),
    Distinct-append xs y (ground arith) d.1,
  )

  pub Distinct-update_where :
      (q : A → Bool) (f : A → A) (xs : List A)
      → ((x : A) → key (f x) ≡ key x)
      → Distinct key xs
      → Distinct key (update_where q f xs)
  unfolding any_row update_where
  Distinct-update_where q f [] h d = tt
  Distinct-update_where q f (x ∷ xs) h d = (
    ground (arith, h x, any_row-update_where (λ z. key z == key x) q f xs (λ z. rw (h z))),
    Distinct-update_where q f xs h d.1,
  )

  pub Distinct-delete_where :
      (q : A → Bool) (xs : List A) → Distinct key xs → Distinct key (delete_where q xs)
  unfolding any_row delete_where
  Distinct-delete_where q [] d = tt
  Distinct-delete_where q (x ∷ xs) d = elim (Bool-cases (q x)) [
    | inl gone ↦ rw gone (Distinct-delete_where q xs d.1)
    | inr kept ↦
        rw kept
          (any_row-delete_where (λ z. key z == key x) q xs d.0, Distinct-delete_where q xs d.1)
  ]

module _ {ℓ} {A : Type ℓ} where
  pub any_row-append_old :
      (p : A → Bool) (xs : List A) (y : A) → any_row p xs ≡ true → any_row p (xs ++ y ∷ []) ≡ true
  any_row-append_old p xs y h = rw (any_row-append, h) refl

  pub any_row-update_old :
      (p q : A → Bool) (f : A → A) (xs : List A)
      → ((x : A) → p (f x) ≡ p x)
      → any_row p xs ≡ true
      → any_row p (update_where q f xs) ≡ true
  any_row-update_old p q f xs h e = any_row-update_where p q f xs h ∙ e

module _ {ℓ} {A : Type ℓ} (key : A → ℕ) where
  any_row-and :
      (p q : A → Bool) (xs : List A) → any_row p xs ≡ false → any_row (λ x. p x && q x) xs ≡ false
  unfolding any_row
  any_row-and p q [] h = refl
  any_row-and p q (x ∷ xs) h = ground (arith, any_row-and p q xs)

  -- If a row with the key passes, the row found passes.
  pub find_by-keyed :
      (id : ℕ) (q : A → Bool) (xs : List A)
      → Distinct key xs
      → any_row (λ x. key x == id && q x) xs ≡ true
      → (r : A) × (find_by (λ x. key x == id) xs ≡ some r) × (q r ≡ true)
  unfolding find_by any_row
  find_by-keyed id q [] d h = absurd (ground arith)
  find_by-keyed id q (x ∷ xs) d h = elim (Bool-cases (key x == id)) [
    | inl same ↦ elim (Bool-cases (q x)) [
      | inl passes ↦ (x, rw same, passes)
      | inr fails ↦ absurd (
          ground (
            arith,
            ap (λ k. any_row (λ y. key y == k && q y) xs) ((==_iff (key x) id).0 same),
            any_row-and (λ y. key y == key x) q xs d.0,
          ))
    ]
    | inr other ↦
        let (r, found, passes) = find_by-keyed id q xs d.1 (ground arith) in
        (r, rw other found, passes)
  ]
