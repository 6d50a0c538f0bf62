-- ===== src/Inventory/Counted.antt =====
-- What is in stock of an item, counted batch by batch, and the SUM and COUNT of
-- baskety/gen/sqlc/inventory_items.sql.go.
use baskety.Base.{
  ℕ, ◌≡◌, refl, ap, ◌==◌, ◌&&◌, ◌+◌, not, is_some, Bool-cases, inl, inr, List, [], ◌∷◌, length,
  arith, if◌then◌else◌,
}
use baskety.Base.Int.{ℤ, pos, ◌+ℤ◌}
use baskety.Schema.{BatchRow}
use baskety.Table.{select, sum_by}
use baskety.Inventory.Queries
use baskety.Inventory.Queries.Rows.{active_of}

-- The quantities of the batches of the item that are not emptied.
unfoldable pub in_stock : ℕ → List BatchRow → ℤ
in_stock item_id [] = pos 0
in_stock item_id (b ∷ bs) =
    if b.item_id == item_id && not (is_some b.emptied_at)
    then b.quantity +ℤ in_stock item_id bs
    else in_stock item_id bs

-- How many they are.
unfoldable pub how_many : ℕ → List BatchRow → ℕ
how_many item_id [] = 0
how_many item_id (b ∷ bs) =
    (if b.item_id == item_id && not (is_some b.emptied_at) then 1 else 0) + how_many item_id bs

pub stock-in_stock : (id : ℕ) (bs : List BatchRow) → Queries.stock id bs ≡ in_stock id bs
unfolding Queries.stock in_stock select sum_by
stock-in_stock id [] = refl
stock-in_stock id (b ∷ bs) = elim (Bool-cases (active_of id b)) [
  | inl mine ↦ rw mine (ap (λ s. b.quantity +ℤ s) (stock-in_stock id bs))
  | inr other ↦ rw other (stock-in_stock id bs)
]

pub count-how_many :
    (id : ℕ) (bs : List BatchRow) → length (select (active_of id) bs) ≡ how_many id bs
unfolding how_many select
count-how_many id [] = refl
count-how_many id (b ∷ bs) = elim (Bool-cases (active_of id b)) [
  | inl mine ↦ rw mine (omega (arith, count-how_many id bs))
  | inr other ↦ rw other (omega (arith, count-how_many id bs))
]
