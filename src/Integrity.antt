-- ===== src/Integrity.antt =====
-- The integrity of the stored tables: primary keys and foreign keys.
use baskety.Base.{ℕ, ◌≡◌, refl, Bool, true, false, Option, none, some, ◌==◌, Bool-cases, inl, inr}
use baskety.Schema.{InventoryRow, ItemRow, ListRow, Db}
use baskety.Table.{any_row}
use baskety.Table.Laws.{AllRows, Distinct}
use baskety.World.{ok}
use baskety.Sql.{inserted, updated, one}

-- The rows that a foreign key may name.
abbrev pub has_inventory : Db → ℕ → Bool
has_inventory d id = any_row (λ (r : InventoryRow). r.id == id) d.inventories

abbrev pub has_item : Db → ℕ → Bool
has_item d id = any_row (λ (r : ItemRow). r.id == id) d.items

abbrev pub has_list : Db → ℕ → Bool
has_list d id = any_row (λ (r : ListRow). r.id == id) d.lists

abbrev pub linked : (ℕ → Bool) → Option ℕ → Bool
linked has none = true
linked has (some id) = has id

-- Ids are unique in every table, and every reference names a row.
pub record WellFormed (d : Db) : Type 0 where
  pub inventory_ids : Distinct (λ r. r.id) d.inventories
  pub item_ids : Distinct (λ r. r.id) d.items
  pub batch_ids : Distinct (λ r. r.id) d.batches
  pub list_ids : Distinct (λ r. r.id) d.lists
  pub list_item_ids : Distinct (λ r. r.id) d.list_items
  pub item_refs : AllRows (λ r. has_inventory d r.inventory_id ≡ true) d.items
  pub batch_refs : AllRows (λ r. has_item d r.item_id ≡ true) d.batches
  pub list_refs : AllRows (λ r. has_inventory d r.inventory_id ≡ true) d.lists
  pub list_item_refs : AllRows (λ r. has_list d r.grocery_list_id ≡ true) d.list_items
  pub link_refs : AllRows (λ r. linked (has_item d) r.inventory_item_id ≡ true) d.list_items

-- A property of the tables is kept by an INSERT if it is kept where the row goes in.
pub inserted_keeps {ℓ} :
    {A : Type ℓ} (P : Db → Type 0) (checks clash refs : Bool) (row : A) (d d' : Db)
    → P d
    → (clash ≡ false → refs ≡ true → P d')
    → P (inserted checks clash refs row d d').1
unfolding inserted
inserted_keeps P false clash refs row d d' h k = h
inserted_keeps P true true refs row d d' h k = h
inserted_keeps P true false true row d d' h k = k refl refl
inserted_keeps P true false false row d d' h k = h

pub updated_keeps {ℓ} :
    {A : Type ℓ} (P : Db → Type 0) (found : Option A) (checks : Bool) (clash : A → Bool)
    (change : A → A) (d d' : Db)
    → P d
    → ((r : A) → found ≡ some r → clash (change r) ≡ false → P d')
    → P (updated found checks clash change d d').1
unfolding updated
updated_keeps P none checks clash change d d' h k = h
updated_keeps P (some r) false clash change d d' h k = h
updated_keeps P (some r) true clash change d d' h k = elim (Bool-cases (clash (change r))) [
  | inl taken ↦ rw taken h
  | inr free ↦ rw free (k r refl free)
]

pub linked-imp :
    (has has' : ℕ → Bool) (o : Option ℕ)
    → ((id : ℕ) → has id ≡ true → has' id ≡ true)
    → linked has o ≡ true
    → linked has' o ≡ true
linked-imp has has' none f h = refl
linked-imp has has' (some id) f h = f id h

pub one-eq-ok {ℓ} : {A : Type ℓ} (o : Option A) (a : A) → one o ≡ ok a → o ≡ some a
one-eq-ok none a h = cc
one-eq-ok (some x) a h = cc

pub inserted-eq-ok {ℓ} :
    {A : Type ℓ} (checks clash refs : Bool) (row : A) (d d' : Db) (r : A)
    → (inserted checks clash refs row d d').0 ≡ ok r
    → (row ≡ r)
      × (clash ≡ false)
      × (refs ≡ true)
      × (checks ≡ true)
      × ((inserted checks clash refs row d d').1 ≡ d')
unfolding inserted
inserted-eq-ok false clash refs row d d' r h = cc
inserted-eq-ok true true refs row d d' r h = cc
inserted-eq-ok true false true row d d' r h = (cc, refl, refl, refl, refl)
inserted-eq-ok true false false row d d' r h = cc
