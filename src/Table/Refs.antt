-- ===== src/Table/Refs.antt =====
-- References between tables, and what is said of every row.
use baskety.Base.{◌≡◌, refl, Bool, true, false, ◌&&◌, List, [], ◌∷◌, arith, Bool-cases, inl, inr}
use baskety.Table.{any_row, select, delete_where, update_where}
use baskety.Table.Laws.{AllRows}

module _ {ℓ κ} {A : Type ℓ} (P : A → Type κ) where
  pub AllRows-update_where :
      (q : A → Bool) (f : A → A) (xs : List A)
      → ((x : A) → P x → P (f x))
      → AllRows P xs
      → AllRows P (update_where q f xs)
  unfolding update_where
  AllRows-update_where q f [] h a = a
  AllRows-update_where q f (x ∷ xs) h a = elim (Bool-cases (q x)) [
    | inl hit ↦ rw hit (h x a.0, AllRows-update_where q f xs h a.1)
    | inr miss ↦ rw miss (a.0, AllRows-update_where q f xs h a.1)
  ]

  pub AllRows-update_cases {μ} :
      (Q : A → Type μ) (q : A → Bool) (f : A → A) (xs : List A)
      → ((x : A) → P x → q x ≡ true → Q (f x))
      → ((x : A) → P x → q x ≡ false → Q x)
      → AllRows P xs
      → AllRows Q (update_where q f xs)
  unfolding update_where
  AllRows-update_cases Q q f [] h k a = tt
  AllRows-update_cases Q q f (x ∷ xs) h k a = elim (Bool-cases (q x)) [
    | inl hit ↦ rw hit (h x a.0 hit, AllRows-update_cases Q q f xs h k a.1)
    | inr miss ↦ rw miss (k x a.0 miss, AllRows-update_cases Q q f xs h k a.1)
  ]

  -- A row that stays was not selected.
  pub AllRows-delete_where {μ} :
      (Q : A → Type μ) (q : A → Bool) (xs : List A)
      → ((x : A) → P x → q x ≡ false → Q x)
      → AllRows P xs
      → AllRows Q (delete_where q xs)
  unfolding delete_where
  AllRows-delete_where Q q [] h a = tt
  AllRows-delete_where Q q (x ∷ xs) h a = elim (Bool-cases (q x)) [
    | inl gone ↦ rw gone (AllRows-delete_where Q q xs h a.1)
    | inr kept ↦ rw kept (h x a.0 kept, AllRows-delete_where Q q xs h a.1)
  ]

module _ {ℓ} {A : Type ℓ} where
  -- A reference survives the deletion of rows that it does not name.
  pub any_row-survives :
      (p q : A → Bool) (xs : List A)
      → any_row p xs ≡ true
      → any_row (λ x. p x && q x) xs ≡ false
      → any_row p (delete_where q xs) ≡ true
  unfolding any_row delete_where
  any_row-survives p q [] h e = h
  any_row-survives p q (x ∷ xs) h e = ground (arith, any_row-survives p q xs)

  pub any_row-never : (p : A → Bool) (xs : List A) → ((x : A) → p x ≡ false) → any_row p xs ≡ false
  unfolding any_row
  any_row-never p [] h = refl
  any_row-never p (x ∷ xs) h = ground (arith, h x, any_row-never p xs h)

  pub any_row-select_none :
      (p q : A → Bool) (xs : List A)
      → AllRows (λ x. p x ≡ true → q x ≡ false) xs
      → any_row p (select q xs) ≡ false
  unfolding any_row select
  any_row-select_none p q [] h = refl
  any_row-select_none p q (x ∷ xs) h = ground (arith, h.0, any_row-select_none p q xs h.1)
