-- ===== src/Grocery/Integrity.antt =====
-- The statements of Grocery/Queries and the integrity of the tables.
pub mod Requests
use baskety.Base.{
  ℕ, ◌≡◌, refl, String, Bool, true, false, ◌&&◌, Option, none, some, List, [], ◌∷◌, ◌++◌, ◌==◌,
  arith, Bool-cases, inl, inr,
}
use baskety.Base.Int.{ℤ}
use baskety.Schema.{ListRow, ListItemRow, Db}
use baskety.Table.{any_row, find_by, delete_where, update_where}
use baskety.Table.Laws.{AllRows, AllRows-imp, AllRows-append, AllRows-all, Distinct, any_row-imp}
use baskety.Table.Keys.{
  any_row-append_old, any_row-update_old, Distinct-append, Distinct-update_where,
  Distinct-delete_where,
}
use baskety.Table.Refs.{
  AllRows-update_where, AllRows-delete_where, AllRows-update_cases, any_row-survives, any_row-never,
}
use baskety.World.{M, Moment}
use baskety.Integrity.{
  WellFormed, inserted_keeps, has_inventory, has_item, has_list, linked, linked-imp, updated_keeps,
}
use baskety.Grocery.Queries
use baskety.Grocery.Queries.Rows.{list_is, list_item_is, list_item_of}

pub create_list-WellFormed :
    (inv : ℕ) (name : String) (user : ℕ) (m : Moment) (d : Db)
    → WellFormed d
    → WellFormed (Queries.create_grocery_list inv name user m d).1
unfolding Queries.create_grocery_list
create_list-WellFormed inv name user m d v = inserted_keeps WellFormed _ _ _ _ d _ v λ fresh ref.
    record {
      inventory_ids = v.inventory_ids;
      item_ids = v.item_ids;
      batch_ids = v.batch_ids;
      list_ids = Distinct-append (λ r. r.id) d.lists _ fresh v.list_ids;
      list_item_ids = v.list_item_ids;
      item_refs = v.item_refs;
      batch_refs = v.batch_refs;
      list_refs = AllRows-append _ d.lists _ v.list_refs (ground arith);
      list_item_refs =
          AllRows-imp _ _ d.list_items (λ x. any_row-append_old _ d.lists _) v.list_item_refs;
      link_refs = v.link_refs;
    }

set_lists-WellFormed :
    (id : ℕ) (f : ListRow → ListRow) (d : Db)
    → ((r : ListRow) → (f r).id ≡ r.id)
    → ((r : ListRow) → (f r).inventory_id ≡ r.inventory_id)
    → WellFormed d
    → WellFormed (record d { lists = update_where (list_is id) f d.lists })
set_lists-WellFormed id f d same inside v = record {
  inventory_ids = v.inventory_ids;
  item_ids = v.item_ids;
  batch_ids = v.batch_ids;
  list_ids = Distinct-update_where (λ r. r.id) _ f d.lists same v.list_ids;
  list_item_ids = v.list_item_ids;
  item_refs = v.item_refs;
  batch_refs = v.batch_refs;
  list_refs = AllRows-update_where _ _ f d.lists (λ x h. rw (inside x) h) v.list_refs;
  list_item_refs =
      AllRows-imp _ _ d.list_items (λ x. any_row-update_old _ _ f d.lists (λ y. rw (same y) refl))
        v.list_item_refs;
  link_refs = v.link_refs;
}

pub update_list_status-WellFormed :
    (id : ℕ) (status : String) (at : Option ℕ) (m : Moment) (d : Db)
    → WellFormed d
    → WellFormed (Queries.update_grocery_list_status id status at m d).1
unfolding Queries.update_grocery_list_status
update_list_status-WellFormed id status at m d v =
    updated_keeps WellFormed _ _ _ _ d _ v
      λ r _ _. set_lists-WellFormed id _ d (λ r. refl) (λ r. refl) v

pub rename_list-WellFormed :
    (id : ℕ) (name : String) (m : Moment) (d : Db)
    → WellFormed d
    → WellFormed (Queries.rename_grocery_list id name m d).1
unfolding Queries.rename_grocery_list
rename_list-WellFormed id name m d v =
    updated_keeps WellFormed _ _ _ _ d _ v
      λ r _ _. set_lists-WellFormed id _ d (λ r. refl) (λ r. refl) v

pub archive_list-WellFormed :
    (id : ℕ) (m : Moment) (d : Db)
    → WellFormed d
    → WellFormed (Queries.archive_grocery_list id m d).1
unfolding Queries.archive_grocery_list
archive_list-WellFormed id m d v = set_lists-WellFormed id _ d (λ r. refl) (λ r. refl) v

pub delete_list-WellFormed :
    (id : ℕ) (m : Moment) (d : Db)
    → WellFormed d
    → WellFormed (Queries.delete_grocery_list id m d).1
unfolding Queries.delete_grocery_list
delete_list-WellFormed id m d v = record {
  inventory_ids = v.inventory_ids;
  item_ids = v.item_ids;
  batch_ids = v.batch_ids;
  list_ids = Distinct-delete_where (λ r. r.id) _ d.lists v.list_ids;
  list_item_ids = Distinct-delete_where (λ r. r.id) _ d.list_items v.list_item_ids;
  item_refs = v.item_refs;
  batch_refs = v.batch_refs;
  list_refs = AllRows-delete_where _ _ _ d.lists (λ x h _. h) v.list_refs;
  list_item_refs =
      AllRows-delete_where _ _ _ d.list_items
        (λ x h other. any_row-survives _ _ d.lists h (any_row-never _ d.lists (λ r. ground arith)))
        v.list_item_refs;
  link_refs = AllRows-delete_where _ _ _ d.list_items (λ x h _. h) v.link_refs;
}

set_items-WellFormed :
    (id : ℕ) (f : ListItemRow → ListItemRow) (d : Db)
    → ((r : ListItemRow) → (f r).id ≡ r.id)
    → ((r : ListItemRow) → (f r).grocery_list_id ≡ r.grocery_list_id)
    → ((r : ListItemRow) → (f r).inventory_item_id ≡ r.inventory_item_id)
    → WellFormed d
    → WellFormed (record d { list_items = update_where (list_item_is id) f d.list_items })
set_items-WellFormed id f d same inside link v = record {
  inventory_ids = v.inventory_ids;
  item_ids = v.item_ids;
  batch_ids = v.batch_ids;
  list_ids = v.list_ids;
  list_item_ids = Distinct-update_where (λ r. r.id) _ f d.list_items same v.list_item_ids;
  item_refs = v.item_refs;
  batch_refs = v.batch_refs;
  list_refs = v.list_refs;
  list_item_refs =
      AllRows-update_where _ _ f d.list_items (λ x h. rw (inside x) h) v.list_item_refs;
  link_refs = AllRows-update_where _ _ f d.list_items (λ x h. rw (link x) h) v.link_refs;
}

pub add_item-WellFormed :
    (list : ℕ) (link : Option ℕ) (name : String) (quantity : ℤ) (unit notes : Option String)
    (sort_order : ℤ) (m : Moment) (d : Db)
    → WellFormed d
    → WellFormed (Queries.add_grocery_list_item list link name quantity unit notes sort_order m d).1
unfolding Queries.add_grocery_list_item
add_item-WellFormed list link name quantity unit notes sort_order m d v =
    inserted_keeps WellFormed _ _ _ _ d _ v λ fresh ref. record {
      inventory_ids = v.inventory_ids;
      item_ids = v.item_ids;
      batch_ids = v.batch_ids;
      list_ids = v.list_ids;
      list_item_ids = Distinct-append (λ r. r.id) d.list_items _ fresh v.list_item_ids;
      item_refs = v.item_refs;
      batch_refs = v.batch_refs;
      list_refs = v.list_refs;
      list_item_refs = AllRows-append _ d.list_items _ v.list_item_refs (ground arith);
      link_refs = AllRows-append _ d.list_items _ v.link_refs (ground arith);
    }

pub update_item_status-WellFormed :
    (id : ℕ) (status : String) (m : Moment) (d : Db)
    → WellFormed d
    → WellFormed (Queries.update_grocery_list_item_status id status m d).1
unfolding Queries.update_grocery_list_item_status
update_item_status-WellFormed id status m d v =
    updated_keeps WellFormed _ _ _ _ d _ v
      λ r _ _. set_items-WellFormed id _ d (λ r. refl) (λ r. refl) (λ r. refl) v

pub reorder_item-WellFormed :
    (id : ℕ) (sort_order : ℤ) (m : Moment) (d : Db)
    → WellFormed d
    → WellFormed (Queries.update_grocery_list_item_sort_order id sort_order m d).1
unfolding Queries.update_grocery_list_item_sort_order
reorder_item-WellFormed id sort_order m d v =
    set_items-WellFormed id _ d (λ r. refl) (λ r. refl) (λ r. refl) v

pub delete_item-WellFormed :
    (id : ℕ) (m : Moment) (d : Db)
    → WellFormed d
    → WellFormed (Queries.delete_grocery_list_item id m d).1
unfolding Queries.delete_grocery_list_item
delete_item-WellFormed id m d v = record {
  inventory_ids = v.inventory_ids;
  item_ids = v.item_ids;
  batch_ids = v.batch_ids;
  list_ids = v.list_ids;
  list_item_ids = Distinct-delete_where (λ r. r.id) _ d.list_items v.list_item_ids;
  item_refs = v.item_refs;
  batch_refs = v.batch_refs;
  list_refs = v.list_refs;
  list_item_refs = AllRows-delete_where _ _ _ d.list_items (λ x h _. h) v.list_item_refs;
  link_refs = AllRows-delete_where _ _ _ d.list_items (λ x h _. h) v.link_refs;
}
