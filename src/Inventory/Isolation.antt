-- ===== src/Inventory/Isolation.antt =====
-- What an inventory reads of the tables, and the rows that belong elsewhere.
pub mod Statements
pub mod Chains
pub mod Rules
pub mod Requests
use baskety.Base.{
  ℕ, ◌≡◌, ◌≢◌, refl, sym, ap, ◌∙◌, String, Bool, true, false, ◌&&◌, Option, some, List, ◌==◌, arith,
  ==_iff, Bool-cases, inl, inr,
}
use baskety.Base.Int.{ℤ}
use baskety.Schema.{InventoryRow, ItemRow, BatchRow, ListRow, Db}
use baskety.Table.{find_by, any_row, select, delete_where, update_where}
use baskety.Table.Laws.{
  AllRows, AllRows-imp, AllRows-all, find_by-append_old, find_by-update_where, find_by-delete_where,
  find_by-passes, select-append_old, select-update_where, select-delete_where, any_row-imp,
  any_row-find_by,
}
use baskety.Table.Keys.{find_by_unique}
use baskety.Table.Refs.{any_row-select_none}
use baskety.World.{Moment}
use baskety.Integrity.{WellFormed, inserted_keeps, updated_keeps}
use baskety.Inventory.Queries
use baskety.Inventory.Queries.Rows.{inventory_is, item_is, batch_is, item_in, batch_of, active_of}
use baskety.Inventory.Scope.{Foreign, Owned, Owned-ne}

abbrev pub list_in : ℕ → ListRow → Bool
list_in inventory_id r = r.inventory_id == inventory_id

-- The inventory `i` reads the same in `d` and in `d'`.
pub record Untouched (i : ℕ) (d d' : Db) : Type 0 where
  pub row : find_by (inventory_is i) d'.inventories ≡ find_by (inventory_is i) d.inventories
  pub items : select (item_in i) d'.items ≡ select (item_in i) d.items
  pub batches :
      (j : ℕ)
      → any_row (item_is j) (select (item_in i) d.items) ≡ true
      → select (batch_of j) d'.batches ≡ select (batch_of j) d.batches
  pub lists : select (list_in i) d'.lists ≡ select (list_in i) d.lists

pub Untouched-refl : (i : ℕ) (d : Db) → Untouched i d d
Untouched-refl i d = record { row = refl; items = refl; batches = λ j h. refl; lists = refl }

pub Untouched-trans : {i : ℕ} {a b c : Db} → Untouched i a b → Untouched i b c → Untouched i a c
Untouched-trans f g = record {
  row = g.row ∙ f.row;
  items = g.items ∙ f.items;
  batches = λ j h. g.batches j (rw f.items h) ∙ f.batches j h;
  lists = g.lists ∙ f.lists;
}

-- The item `id` belongs to another inventory than `i`.
pub record Elsewhere (i id : ℕ) (d : Db) : Type 0 where
  pub row : ItemRow
  pub found : find_by (item_is id) d.items ≡ some row
  pub ne : row.inventory_id ≢ i

module _ (i : ℕ) (d : Db) (v : WellFormed d) where
  -- So no row with its id is an item of `i`, since ids are unique.
  pub apart :
      (id : ℕ) → Elsewhere i id d → AllRows (λ x. item_is id x ≡ true → item_in i x ≡ false) d.items
  apart id o =
      AllRows-imp _ _ d.items
        (λ x same e. rw (same e) (elim (Bool-cases (item_in i o.row)) [
          | inl bad ↦ absurd (o.ne ((==_iff o.row.inventory_id i).0 bad))
          | inr good ↦ good
        ]))
        (find_by_unique (λ x. x.id) id d.items o.row v.item_ids o.found)

  pub not_ours :
      (id j : ℕ)
      → Elsewhere i id d
      → any_row (item_is j) (select (item_in i) d.items) ≡ true
      → id ≢ j
  not_ours id j o h e = cc (
    h,
    any_row-select_none (item_is id) (item_in i) d.items (apart id o),
    ap (λ k. any_row (item_is k) (select (item_in i) d.items)) e,
  )

  pub set_items-Untouched :
      (id : ℕ) (f : ItemRow → ItemRow)
      → Elsewhere i id d
      → ((r : ItemRow) → (f r).inventory_id ≡ r.inventory_id)
      → Untouched i d (record d { items = update_where (item_is id) f d.items })
  set_items-Untouched id f o same = record {
    row = refl;
    items =
        select-update_where (item_in i) (item_is id) f d.items
          (AllRows-imp _ _ d.items (λ x h e. (h e, ap (λ k. k == i) (same x) ∙ h e)) (apart id o));
    batches = λ j h. refl;
    lists = refl;
  }

  pub set_batches-Untouched :
      (bs : List BatchRow)
      → ((j : ℕ)
          → any_row (item_is j) (select (item_in i) d.items) ≡ true
          → select (batch_of j) bs ≡ select (batch_of j) d.batches)
      → Untouched i d (record d { batches = bs })
  set_batches-Untouched bs h = record { row = refl; items = refl; batches = h; lists = refl }
