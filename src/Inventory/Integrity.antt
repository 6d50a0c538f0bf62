-- ===== src/Inventory/Integrity.antt =====
-- The statements of Inventory/Queries and the integrity of the tables.
pub mod Requests
use baskety.Base.{
  ℕ, ◌≡◌, refl, String, Bool, true, false, ◌&&◌, Option, none, some, List, [], ◌∷◌, ◌++◌, ◌==◌,
  arith, Bool-cases, inl, inr,
}
use baskety.Base.Int.{ℤ}
use baskety.Base.Decimal.{Decimal}
use baskety.Schema.{InventoryRow, ItemRow, BatchRow, ListRow, ListItemRow, Db}
use baskety.Table.{any_row, find_by, delete_where, update_where}
use baskety.Table.Laws.{AllRows, AllRows-imp, AllRows-append, AllRows-all, Distinct, any_row-imp}
use baskety.Table.Keys.{
  any_row-append_old, any_row-update_old, Distinct-append, Distinct-update_where,
  Distinct-delete_where,
}
use baskety.Table.Refs.{
  AllRows-update_where, AllRows-delete_where, AllRows-update_cases, any_row-survives, any_row-never,
}
use baskety.World.{M, Moment}
use baskety.Integrity.{
  WellFormed, inserted_keeps, has_inventory, has_item, has_list, linked, linked-imp, updated_keeps,
}
use baskety.Inventory.Queries
use baskety.Sql.{any_link}
use baskety.Inventory.Queries.{item_goes}
use baskety.Inventory.Queries.Rows.{inventory_is, item_is, batch_is, item_in, live}

pub create_inventory-WellFormed :
    (h : ℕ) (name : String) (desc : Option String) (m : Moment) (d : Db)
    → WellFormed d
    → WellFormed (Queries.create_inventory h name desc m d).1
unfolding Queries.create_inventory
create_inventory-WellFormed h name desc m d v = inserted_keeps WellFormed _ _ _ _ d _ v λ fresh _.
    record {
      inventory_ids = Distinct-append (λ r. r.id) d.inventories _ fresh v.inventory_ids;
      item_ids = v.item_ids;
      batch_ids = v.batch_ids;
      list_ids = v.list_ids;
      list_item_ids = v.list_item_ids;
      item_refs = AllRows-imp _ _ d.items (λ x. any_row-append_old _ d.inventories _) v.item_refs;
      batch_refs = v.batch_refs;
      list_refs = AllRows-imp _ _ d.lists (λ x. any_row-append_old _ d.inventories _) v.list_refs;
      list_item_refs = v.list_item_refs;
      link_refs = v.link_refs;
    }

pub update_inventory-WellFormed :
    (id : ℕ) (name : String) (desc : Option String) (m : Moment) (d : Db)
    → WellFormed d
    → WellFormed (Queries.update_inventory id name desc m d).1
unfolding Queries.update_inventory
update_inventory-WellFormed id name desc m d v = record {
  inventory_ids = Distinct-update_where (λ r. r.id) _ _ d.inventories (λ x. refl) v.inventory_ids;
  item_ids = v.item_ids;
  batch_ids = v.batch_ids;
  list_ids = v.list_ids;
  list_item_ids = v.list_item_ids;
  item_refs =
      AllRows-imp _ _ d.items (λ x. any_row-update_old _ _ _ d.inventories (λ y. refl)) v.item_refs;
  batch_refs = v.batch_refs;
  list_refs =
      AllRows-imp _ _ d.lists (λ x. any_row-update_old _ _ _ d.inventories (λ y. refl)) v.list_refs;
  list_item_refs = v.list_item_refs;
  link_refs = v.link_refs;
}

linked-survives :
    (id : ℕ) (d : Db) (o : Option ℕ)
    → linked (has_item d) o ≡ true
    → any_link (item_goes id d) o ≡ false
    → linked (has_item (record d { items = delete_where (item_in id) d.items })) o ≡ true
linked-survives id d none h stays = refl
linked-survives id d (some i) h stays = any_row-survives _ _ d.items h stays

pub delete_inventory-WellFormed :
    (id : ℕ) (m : Moment) (d : Db) → WellFormed d → WellFormed (Queries.delete_inventory id m d).1
unfolding Queries.delete_inventory
delete_inventory-WellFormed id m d v = record {
  inventory_ids = Distinct-delete_where (λ r. r.id) _ d.inventories v.inventory_ids;
  item_ids = Distinct-delete_where (λ r. r.id) _ d.items v.item_ids;
  batch_ids = Distinct-delete_where (λ r. r.id) _ d.batches v.batch_ids;
  list_ids = Distinct-delete_where (λ r. r.id) _ d.lists v.list_ids;
  list_item_ids =
      Distinct-update_where (λ r. r.id) _ _ _ (λ x. refl)
        (Distinct-delete_where (λ r. r.id) _ d.list_items v.list_item_ids);
  item_refs =
      AllRows-delete_where _ _ _ d.items
        (λ x h other.
          any_row-survives _ _ d.inventories h (any_row-never _ d.inventories (λ r. ground arith)))
        v.item_refs;
  batch_refs =
      AllRows-delete_where _ _ _ d.batches (λ x h. any_row-survives _ _ d.items h) v.batch_refs;
  list_refs =
      AllRows-delete_where _ _ _ d.lists
        (λ x h other.
          any_row-survives _ _ d.inventories h (any_row-never _ d.inventories (λ r. ground arith)))
        v.list_refs;
  list_item_refs =
      AllRows-update_where _ _ _ _ (λ x h. h)
        (AllRows-delete_where _ _ _ d.list_items (λ x h. any_row-survives _ _ d.lists h)
          v.list_item_refs);
  link_refs =
      AllRows-update_cases _ _ _ _ _ (λ x h gone. refl)
        (λ x h stays. linked-survives id d x.inventory_item_id h stays)
        (AllRows-delete_where _ _ _ d.list_items (λ x h _. h) v.link_refs);
}

pub create_item-WellFormed :
    (inv : ℕ) (name : String) (category unit : Option String) (target : Decimal)
    (notes : Option String) (m : Moment) (d : Db)
    → WellFormed d
    → WellFormed (Queries.create_inventory_item inv name category unit target notes m d).1
unfolding Queries.create_inventory_item
create_item-WellFormed inv name category unit target notes m d v =
    inserted_keeps WellFormed _ _ _ _ d _ v λ fresh ref. record {
      inventory_ids = v.inventory_ids;
      item_ids =
          Distinct-append (λ r. r.id) d.items _
            (any_row-imp _ _ d.items (AllRows-all _ d.items (λ x. ground arith)) fresh) v.item_ids;
      batch_ids = v.batch_ids;
      list_ids = v.list_ids;
      list_item_ids = v.list_item_ids;
      item_refs = AllRows-append _ d.items _ v.item_refs ref;
      batch_refs = AllRows-imp _ _ d.batches (λ x. any_row-append_old _ d.items _) v.batch_refs;
      list_refs = v.list_refs;
      list_item_refs = v.list_item_refs;
      link_refs =
          AllRows-imp _ _ d.list_items
            (λ x. linked-imp _ _ x.inventory_item_id (λ i. any_row-append_old _ d.items _))
            v.link_refs;
    }

-- A change of item rows that keeps their ids and their inventories.
set_items-WellFormed :
    (q : ItemRow → Bool) (f : ItemRow → ItemRow) (d : Db)
    → ((r : ItemRow) → (f r).id ≡ r.id)
    → ((r : ItemRow) → (f r).inventory_id ≡ r.inventory_id)
    → WellFormed d
    → WellFormed (record d { items = update_where q f d.items })
set_items-WellFormed q f d same_id same_inventory v = record {
  inventory_ids = v.inventory_ids;
  item_ids = Distinct-update_where (λ r. r.id) q f d.items same_id v.item_ids;
  batch_ids = v.batch_ids;
  list_ids = v.list_ids;
  list_item_ids = v.list_item_ids;
  item_refs = AllRows-update_where _ q f d.items (λ r h. rw (same_inventory r) h) v.item_refs;
  batch_refs =
      AllRows-imp _ _ d.batches (λ b. any_row-update_old _ q f d.items (λ r. rw (same_id r)))
        v.batch_refs;
  list_refs = v.list_refs;
  list_item_refs = v.list_item_refs;
  link_refs =
      AllRows-imp _ _ d.list_items
        (λ x.
          linked-imp _ _ x.inventory_item_id
            (λ i. any_row-update_old _ q f d.items (λ r. rw (same_id r))))
        v.link_refs;
}

-- A new list of batches with unique ids and live references.
set_batches-WellFormed :
    (bs : List BatchRow) (d : Db)
    → Distinct (λ r. r.id) bs
    → AllRows (λ b. has_item d b.item_id ≡ true) bs
    → WellFormed d
    → WellFormed (record d { batches = bs })
set_batches-WellFormed bs d ids refs v = record {
  inventory_ids = v.inventory_ids;
  item_ids = v.item_ids;
  batch_ids = ids;
  list_ids = v.list_ids;
  list_item_ids = v.list_item_ids;
  item_refs = v.item_refs;
  batch_refs = refs;
  list_refs = v.list_refs;
  list_item_refs = v.list_item_refs;
  link_refs = v.link_refs;
}

pub update_item-WellFormed :
    (id : ℕ) (name : String) (category unit : Option String) (target : Decimal)
    (notes : Option String) (m : Moment) (d : Db)
    → WellFormed d
    → WellFormed (Queries.update_inventory_item id name category unit target notes m d).1
unfolding Queries.update_inventory_item
update_item-WellFormed id name category unit target notes m d v =
    updated_keeps WellFormed _ _ _ _ d _ v
      λ r _ _. set_items-WellFormed _ _ d (λ x. refl) (λ x. refl) v

pub soft_delete-WellFormed :
    (id : ℕ) (m : Moment) (d : Db)
    → WellFormed d
    → WellFormed (Queries.soft_delete_inventory_item id m d).1
unfolding Queries.soft_delete_inventory_item
soft_delete-WellFormed id m d v = set_items-WellFormed _ _ d (λ x. refl) (λ x. refl) v

pub create_batch-WellFormed :
    (item : ℕ) (quantity : Decimal) (expires : Option ℕ) (notes : Option String) (m : Moment)
    (d : Db)
    → WellFormed d
    → WellFormed (Queries.create_inventory_batch item quantity expires notes m d).1
unfolding Queries.create_inventory_batch
create_batch-WellFormed item quantity expires notes m d v =
    inserted_keeps WellFormed _ _ _ _ d _ v λ fresh ref.
      set_batches-WellFormed _ d (Distinct-append (λ r. r.id) d.batches _ fresh v.batch_ids)
        (AllRows-append _ d.batches _ v.batch_refs ref) v

pub mark_batch-WellFormed :
    (id : ℕ) (m : Moment) (d : Db) → WellFormed d → WellFormed (Queries.mark_batch_emptied id m d).1
unfolding Queries.mark_batch_emptied
mark_batch-WellFormed id m d v =
    set_batches-WellFormed _ d
      (Distinct-update_where (λ r. r.id) _ _ d.batches (λ x. refl) v.batch_ids)
      (AllRows-update_where _ _ _ d.batches (λ x h. h) v.batch_refs) v

pub delete_batch-WellFormed :
    (id : ℕ) (m : Moment) (d : Db)
    → WellFormed d
    → WellFormed (Queries.delete_inventory_batch id m d).1
unfolding Queries.delete_inventory_batch
delete_batch-WellFormed id m d v =
    set_batches-WellFormed _ d (Distinct-delete_where (λ r. r.id) _ d.batches v.batch_ids)
      (AllRows-delete_where _ _ _ d.batches (λ x h _. h) v.batch_refs) v

pub patch_batch-WellFormed :
    (id item : ℕ) (quantity : Decimal) (expires : Option ℕ) (notes : Option String) (m : Moment)
    (d : Db)
    → WellFormed d
    → WellFormed (Queries.patch_batch id item quantity expires notes m d).1
unfolding Queries.patch_batch
patch_batch-WellFormed id item quantity expires notes m d v =
    updated_keeps WellFormed _ _ _ _ d _ v λ r _ _.
      set_batches-WellFormed _ d
        (Distinct-update_where (λ r. r.id) _ _ d.batches (λ x. refl) v.batch_ids)
        (AllRows-update_where _ _ _ d.batches (λ x h. h) v.batch_refs) v
