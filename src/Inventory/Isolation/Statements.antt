-- ===== src/Inventory/Isolation/Statements.antt =====
-- The statements of Inventory/Queries, as seen by an inventory that their subject is not part of.
use baskety.Base.{
  ==_ne, ℕ, ◌≡◌, ◌≢◌, refl, ap, String, true, false, Option, some, arith, ==_iff, Bool-cases, inl,
  inr,
}
use baskety.Base.Decimal.{Decimal}
use baskety.Schema.{BatchRow, Db}
use baskety.Table.{find_by, any_row, select}
use baskety.Table.Laws.{
  AllRows, AllRows-imp, AllRows-all, find_by-append_old, find_by-update_where, find_by-delete_where,
  select-append_old, select-update_where, select-delete_where,
}
use baskety.Table.Keys.{find_by_unique, find_by-keyed}
use baskety.World.{Moment}
use baskety.Integrity.{WellFormed, inserted_keeps, updated_keeps}
use baskety.Inventory.Queries
use baskety.Inventory.Queries.{item_goes}
use baskety.Inventory.Queries.Rows.{inventory_is, item_is, batch_is, item_in, batch_of}
use baskety.Inventory.Isolation.{
  Untouched, Untouched-refl, Elsewhere, list_in, not_ours, set_items-Untouched,
  set_batches-Untouched,
}

module _ (i : ℕ) (d : Db) (v : WellFormed d) where
  pub create_inventory-Untouched :
      (h : ℕ) (name : String) (desc : Option String) (m : Moment)
      → any_row (inventory_is i) d.inventories ≡ true
      → Untouched i d (Queries.create_inventory h name desc m d).1
  unfolding Queries.create_inventory
  create_inventory-Untouched h name desc m there =
      inserted_keeps (Untouched i d) _ _ _ _ d _ (Untouched-refl i d) λ fresh _. record {
        row = find_by-append_old (inventory_is i) d.inventories _ (
            ==_ne _ _ (λ e. cc (there, fresh, ap (λ k. any_row (inventory_is k) d.inventories) e)));
        items = refl;
        batches = λ j h. refl;
        lists = refl;
      }

  pub update_inventory-Untouched :
      (id : ℕ) (name : String) (desc : Option String) (m : Moment)
      → id ≢ i
      → Untouched i d (Queries.update_inventory id name desc m d).1
  unfolding Queries.update_inventory
  update_inventory-Untouched id name desc m ne = record {
    row =
        find_by-update_where (inventory_is i) (inventory_is id) _ d.inventories
          (AllRows-all _ d.inventories (λ x e. (ground arith, ground arith)));
    items = refl;
    batches = λ j h. refl;
    lists = refl;
  }

  pub create_item-Untouched :
      (inv : ℕ) (name : String) (category unit : Option String) (target : Decimal)
      (notes : Option String) (m : Moment)
      → inv ≢ i
      → Untouched i d (Queries.create_inventory_item inv name category unit target notes m d).1
  unfolding Queries.create_inventory_item
  create_item-Untouched inv name category unit target notes m ne =
      inserted_keeps (Untouched i d) _ _ _ _ d _ (Untouched-refl i d) λ fresh _. record {
        row = refl;
        items = select-append_old (item_in i) d.items _ (==_ne inv i ne);
        batches = λ j h. refl;
        lists = refl;
      }

  pub update_item-Untouched :
      (id : ℕ) (name : String) (category unit : Option String) (target : Decimal)
      (notes : Option String) (m : Moment)
      → Elsewhere i id d
      → Untouched i d (Queries.update_inventory_item id name category unit target notes m d).1
  unfolding Queries.update_inventory_item
  update_item-Untouched id name category unit target notes m o =
      updated_keeps (Untouched i d) _ _ _ _ d _ (Untouched-refl i d)
        λ r _ _. set_items-Untouched i d v id _ o (λ x. refl)

  pub soft_delete-Untouched :
      (id : ℕ) (m : Moment)
      → Elsewhere i id d
      → Untouched i d (Queries.soft_delete_inventory_item id m d).1
  unfolding Queries.soft_delete_inventory_item
  soft_delete-Untouched id m o = set_items-Untouched i d v id _ o (λ x. refl)

  pub create_batch-Untouched :
      (item : ℕ) (quantity : Decimal) (expires : Option ℕ) (notes : Option String) (m : Moment)
      → Elsewhere i item d
      → Untouched i d (Queries.create_inventory_batch item quantity expires notes m d).1
  unfolding Queries.create_inventory_batch
  create_batch-Untouched item quantity expires notes m o =
      inserted_keeps (Untouched i d) _ _ _ _ d _ (Untouched-refl i d) λ fresh _.
        set_batches-Untouched i d v _ λ j h.
          select-append_old (batch_of j) d.batches _ (==_ne item j (not_ours i d v item j o h))

  -- Of the batch with an id, the row found is the only one.
  batch_apart :
      (id j : ℕ) (b : BatchRow)
      → find_by (batch_is id) d.batches ≡ some b
      → Elsewhere i b.item_id d
      → any_row (item_is j) (select (item_in i) d.items) ≡ true
      → AllRows (λ x. batch_is id x ≡ true → batch_of j x ≡ false) d.batches
  batch_apart id j b found o h =
      AllRows-imp _ _ d.batches
        (λ x same e. rw (same e) (==_ne b.item_id j (not_ours i d v b.item_id j o h)))
        (find_by_unique (λ x. x.id) id d.batches b v.batch_ids found)

  pub mark_batch-Untouched :
      (id : ℕ) (b : BatchRow) (m : Moment)
      → find_by (batch_is id) d.batches ≡ some b
      → Elsewhere i b.item_id d
      → Untouched i d (Queries.mark_batch_emptied id m d).1
  unfolding Queries.mark_batch_emptied
  mark_batch-Untouched id b m found o = set_batches-Untouched i d v _ λ j h.
      select-update_where (batch_of j) (batch_is id) _ d.batches
        (AllRows-imp _ _ d.batches (λ x f e. (f e, f e)) (batch_apart id j b found o h))

  pub delete_batch-Untouched :
      (id : ℕ) (b : BatchRow) (m : Moment)
      → find_by (batch_is id) d.batches ≡ some b
      → Elsewhere i b.item_id d
      → Untouched i d (Queries.delete_inventory_batch id m d).1
  unfolding Queries.delete_inventory_batch
  delete_batch-Untouched id b m found o =
      set_batches-Untouched i d v _ λ j h.
        select-delete_where (batch_of j) (batch_is id) d.batches (batch_apart id j b found o h)

  pub patch_batch-Untouched :
      (id item : ℕ) (quantity : Decimal) (expires : Option ℕ) (notes : Option String) (m : Moment)
      → Elsewhere i item d
      → Untouched i d (Queries.patch_batch id item quantity expires notes m d).1
  unfolding Queries.patch_batch
  patch_batch-Untouched id item quantity expires notes m o =
      updated_keeps (Untouched i d) _ _ _ _ d _ (Untouched-refl i d) λ r _ _.
        set_batches-Untouched i d v _ λ j h.
          let ne = not_ours i d v item j o h in
          select-update_where (batch_of j) _ _ d.batches
            (AllRows-all _ d.batches (λ x e. (ground arith, ground arith)))

  -- No item of `i` goes with another inventory.
  item_stays :
      (id j : ℕ)
      → id ≢ i
      → any_row (item_is j) (select (item_in i) d.items) ≡ true
      → item_goes id d j ≡ false
  item_stays id j ne h = elim (Bool-cases (item_goes id d j)) [
    | inl goes ↦
        let (r, found, inside) = find_by-keyed (λ x. x.id) j (item_in id) d.items v.item_ids goes in
        let o : Elsewhere i j d = record {
          row = r;
          found = found;
          ne = λ e. ne (cc (e, (==_iff r.inventory_id id).0 inside));
        } in
        absurd (not_ours i d v j j o h refl)
    | inr stays ↦ stays
  ]

  pub delete_inventory-Untouched :
      (id : ℕ) (m : Moment) → id ≢ i → Untouched i d (Queries.delete_inventory id m d).1
  unfolding Queries.delete_inventory
  delete_inventory-Untouched id m ne = record {
    row =
        find_by-delete_where (inventory_is i) (inventory_is id) d.inventories
          (AllRows-all _ d.inventories (λ x e. ground arith));
    items =
        select-delete_where (item_in i) (item_in id) d.items
          (AllRows-all _ d.items (λ x e. ground arith));
    batches = λ j h. select-delete_where (batch_of j) _ d.batches (
        AllRows-all _ d.batches (λ x e. elim (Bool-cases (batch_of j x)) [
          | inl bad ↦
              absurd
                (cc (e, item_stays id j ne h, ap (item_goes id d) ((==_iff x.item_id j).0 bad)))
          | inr good ↦ good
        ]));
    lists =
        select-delete_where (list_in i) (list_in id) d.lists
          (AllRows-all _ d.lists (λ x e. ground arith));
  }
