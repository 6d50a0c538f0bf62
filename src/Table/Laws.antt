-- ===== src/Table/Laws.antt =====
-- Reads (`find_by`, `select`, `any_row`) after writes.
use baskety.Base.{
  inl, inr, Bool-cases, ℕ, ◌≡◌, refl, Bool, true, false, List, [], ◌∷◌, ◌++◌, some, ◌==◌, arith,
}
use baskety.Table.{find_by, any_row, select, delete_where, update_where}

-- What holds of every row of a table.
abbrev pub AllRows {ℓ κ} : {A : Type ℓ} → (A → Type κ) → List A → Type κ
AllRows P [] = Unit
AllRows P (x ∷ xs) = P x × AllRows P xs

-- No two rows have one key: a PRIMARY KEY.
abbrev pub Distinct {ℓ} : {A : Type ℓ} → (A → ℕ) → List A → Type 0
Distinct key [] = Unit
Distinct key (x ∷ xs) = (any_row (λ y. key y == key x) xs ≡ false) × Distinct key xs

module _ {ℓ} {A : Type ℓ} where
  pub AllRows-imp {κ μ} :
      (P : A → Type κ) (Q : A → Type μ) (xs : List A)
      → ((x : A) → P x → Q x)
      → AllRows P xs
      → AllRows Q xs
  AllRows-imp P Q [] f h = tt
  AllRows-imp P Q (x ∷ xs) f h = (f x h.0, AllRows-imp P Q xs f h.1)

  pub AllRows-all {κ} : (P : A → Type κ) (xs : List A) → ((x : A) → P x) → AllRows P xs
  AllRows-all P [] f = tt
  AllRows-all P (x ∷ xs) f = (f x, AllRows-all P xs f)

  pub AllRows-append {κ} :
      (P : A → Type κ) (xs : List A) (y : A) → AllRows P xs → P y → AllRows P (xs ++ y ∷ [])
  AllRows-append P [] y h p = (p, tt)
  AllRows-append P (x ∷ xs) y h p = (h.0, AllRows-append P xs y h.1 p)

module _ {ℓ} {A : Type ℓ} where
  pub find_by-append_old :
      (p : A → Bool) (xs : List A) (y : A) → p y ≡ false → find_by p (xs ++ y ∷ []) ≡ find_by p xs
  unfolding find_by
  find_by-append_old p [] y h = ground arith
  find_by-append_old p (x ∷ xs) y h = ground (arith, find_by-append_old p xs y)

  pub find_by-append_new :
      (p : A → Bool) (xs : List A) (y : A)
      → any_row p xs ≡ false
      → p y ≡ true
      → find_by p (xs ++ y ∷ []) ≡ some y
  unfolding find_by any_row
  find_by-append_new p [] y h e = ground arith
  find_by-append_new p (x ∷ xs) y h e = ground (arith, find_by-append_new p xs y)

  pub find_by-passes : (p : A → Bool) (xs : List A) (r : A) → find_by p xs ≡ some r → p r ≡ true
  unfolding find_by
  find_by-passes p [] r h = ground arith
  find_by-passes p (x ∷ xs) r h = ground (arith, find_by-passes p xs r)

  pub find_by-update_where :
      (p q : A → Bool) (f : A → A) (xs : List A)
      → AllRows (λ x. q x ≡ true → (p x ≡ false) × (p (f x) ≡ false)) xs
      → find_by p (update_where q f xs) ≡ find_by p xs
  unfolding find_by update_where
  find_by-update_where p q f [] h = refl
  find_by-update_where p q f (x ∷ xs) h = ground (arith, h.0, find_by-update_where p q f xs h.1)

  -- An update that leaves the test alone is found where the row was.
  pub find_by-update_where_hit :
      (p : A → Bool) (f : A → A) (xs : List A) (r : A)
      → ((x : A) → p (f x) ≡ p x)
      → find_by p xs ≡ some r
      → find_by p (update_where p f xs) ≡ some (f r)
  unfolding find_by update_where
  find_by-update_where_hit p f [] r same h = absurd (ground arith)
  find_by-update_where_hit p f (x ∷ xs) r same h = elim (Bool-cases (p x)) [
    | inl hit ↦ ground (arith, same x, hit, h)
    | inr miss ↦
        rw miss (rw miss (find_by-update_where_hit p f xs r same (ground (arith, miss, h))))
  ]

  -- The row that is found is found with its change, where the change leaves the test alone.
  pub find_by-update_where_found :
      (p q : A → Bool) (f : A → A) (xs : List A) (r : A)
      → ((x : A) → p (f x) ≡ p x)
      → find_by p xs ≡ some r
      → q r ≡ true
      → find_by p (update_where q f xs) ≡ some (f r)
  unfolding find_by update_where
  find_by-update_where_found p q f [] r same h hit = absurd (ground arith)
  find_by-update_where_found p q f (x ∷ xs) r same h hit =
      let rest = find_by-update_where_found p q f xs r same in
      elim (Bool-cases (p x)) [
        | inl here ↦ first here (cc (h, here_is x xs here))
        | inr miss ↦ elim (Bool-cases (q x)) [
          | inl b ↦ rw b (rw same (rw miss (rest (ground (arith, miss, h)) hit)))
          | inr b ↦ rw b (rw miss (rest (ground (arith, miss, h)) hit))
        ]
      ]
    where
      here_is : (y : A) (ys : List A) → p y ≡ true → find_by p (y ∷ ys) ≡ some y
      here_is y ys here = rw here refl

      first : p x ≡ true → x ≡ r → find_by p (update_where q f (x ∷ xs)) ≡ some (f r)
      first here e = rw e (rw hit (rw same (ground (arith, here, e))))

  -- The row that is found stays as it was, where the change is not for it.
  pub find_by-update_where_other :
      (p q : A → Bool) (f : A → A) (xs : List A) (r : A)
      → ((x : A) → p (f x) ≡ p x)
      → find_by p xs ≡ some r
      → q r ≡ false
      → find_by p (update_where q f xs) ≡ some r
  unfolding find_by update_where
  find_by-update_where_other p q f [] r same h out = absurd (ground arith)
  find_by-update_where_other p q f (x ∷ xs) r same h out =
      let rest = find_by-update_where_other p q f xs r same in
      elim (Bool-cases (p x)) [
        | inl here ↦ first here (cc (h, here_is x xs here))
        | inr miss ↦ elim (Bool-cases (q x)) [
          | inl b ↦ rw b (rw same (rw miss (rest (ground (arith, miss, h)) out)))
          | inr b ↦ rw b (rw miss (rest (ground (arith, miss, h)) out))
        ]
      ]
    where
      here_is : (y : A) (ys : List A) → p y ≡ true → find_by p (y ∷ ys) ≡ some y
      here_is y ys here = rw here refl

      first : p x ≡ true → x ≡ r → find_by p (update_where q f (x ∷ xs)) ≡ some r
      first here e = rw e (rw out (ground (arith, here, e)))

  -- A row that is found is found before what comes after.
  pub find_by-append_found :
      (p : A → Bool) (xs : List A) (y r : A)
      → find_by p xs ≡ some r
      → find_by p (xs ++ y ∷ []) ≡ some r
  unfolding find_by
  find_by-append_found p [] y r h = absurd (ground arith)
  find_by-append_found p (x ∷ xs) y r h = elim (Bool-cases (p x)) [
    | inl here ↦ rw here (rw here at h)
    | inr miss ↦ rw miss (find_by-append_found p xs y r (rw miss at h))
  ]

  pub find_by-delete_where :
      (p q : A → Bool) (xs : List A)
      → AllRows (λ x. q x ≡ true → p x ≡ false) xs
      → find_by p (delete_where q xs) ≡ find_by p xs
  unfolding find_by delete_where
  find_by-delete_where p q [] h = refl
  find_by-delete_where p q (x ∷ xs) h = ground (arith, h.0, find_by-delete_where p q xs h.1)

  pub select-append_old :
      (p : A → Bool) (xs : List A) (y : A) → p y ≡ false → select p (xs ++ y ∷ []) ≡ select p xs
  unfolding select
  select-append_old p [] y h = ground arith
  select-append_old p (x ∷ xs) y h = ground (arith, select-append_old p xs y)

  pub select-append_new :
      (p : A → Bool) (xs : List A) (y : A)
      → p y ≡ true
      → select p (xs ++ y ∷ []) ≡ select p xs ++ y ∷ []
  unfolding select
  select-append_new p [] y h = ground arith
  select-append_new p (x ∷ xs) y h = ground (arith, select-append_new p xs y)

  pub select-update_where :
      (p q : A → Bool) (f : A → A) (xs : List A)
      → AllRows (λ x. q x ≡ true → (p x ≡ false) × (p (f x) ≡ false)) xs
      → select p (update_where q f xs) ≡ select p xs
  unfolding select update_where
  select-update_where p q f [] h = refl
  select-update_where p q f (x ∷ xs) h = ground (arith, h.0, select-update_where p q f xs h.1)

  pub select-delete_where :
      (p q : A → Bool) (xs : List A)
      → AllRows (λ x. q x ≡ true → p x ≡ false) xs
      → select p (delete_where q xs) ≡ select p xs
  unfolding select delete_where
  select-delete_where p q [] h = refl
  select-delete_where p q (x ∷ xs) h = ground (arith, h.0, select-delete_where p q xs h.1)

  pub any_row-find_by :
      (p : A → Bool) (xs : List A) (r : A) → find_by p xs ≡ some r → any_row p xs ≡ true
  unfolding find_by any_row
  any_row-find_by p [] r h = ground arith
  any_row-find_by p (x ∷ xs) r h = ground (arith, any_row-find_by p xs r)

  pub any_row-false :
      (p : A → Bool) (xs : List A) → any_row p xs ≡ false → AllRows (λ x. p x ≡ false) xs
  unfolding any_row
  any_row-false p [] h = tt
  any_row-false p (x ∷ xs) h = (ground arith, any_row-false p xs (ground arith))

  pub any_row-imp :
      (p q : A → Bool) (xs : List A)
      → AllRows (λ x. q x ≡ true → p x ≡ true) xs
      → any_row p xs ≡ false
      → any_row q xs ≡ false
  unfolding any_row
  any_row-imp p q [] h e = refl
  any_row-imp p q (x ∷ xs) h e = ground (arith, h.0, any_row-imp p q xs h.1)
