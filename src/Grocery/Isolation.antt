-- ===== src/Grocery/Isolation.antt =====
-- The statements of Grocery/Queries on lists that belong elsewhere: what another inventory sees of
-- them.
pub mod Writes
pub mod Generation
pub mod Requests
use baskety.Base.{
  ==_ne, ℕ, ◌≡◌, ◌≢◌, refl, sym, ap, ◌∙◌, String, Bool, true, false, ◌&&◌, Option, some, List, ◌==◌,
  arith, ==_iff, Bool-cases, inl, inr,
}
use baskety.Base.Int.{ℤ}
use baskety.Schema.{InventoryRow, ItemRow, BatchRow, ListRow, ListItemRow, Db}
use baskety.Table.{find_by, any_row, select, delete_where, update_where}
use baskety.Table.Laws.{
  AllRows, AllRows-imp, AllRows-all, select-append_old, select-update_where, select-delete_where,
}
use baskety.Table.Keys.{find_by_unique}
use baskety.Table.Refs.{any_row-select_none}
use baskety.World.{Moment}
use baskety.Integrity.{WellFormed, inserted_keeps, updated_keeps}
use baskety.Grocery.Queries
use baskety.Grocery.Queries.Rows.{list_is, list_in, list_item_is, list_item_of}

-- The inventories and the stock are the same in `d` and in `d'`, and so are the lists of the
-- inventory `i` and the lines of each of them.
pub record Spared (i : ℕ) (d d' : Db) : Type 0 where
  pub inventories : d'.inventories ≡ d.inventories
  pub items : d'.items ≡ d.items
  pub batches : d'.batches ≡ d.batches
  pub lists : select (list_in i) d'.lists ≡ select (list_in i) d.lists
  pub lines :
      (l : ℕ)
      → any_row (list_is l) (select (list_in i) d.lists) ≡ true
      → select (list_item_of l) d'.list_items ≡ select (list_item_of l) d.list_items

pub Spared-refl : (i : ℕ) (d : Db) → Spared i d d
Spared-refl i d = record {
  inventories = refl;
  items = refl;
  batches = refl;
  lists = refl;
  lines = λ l h. refl;
}

pub Spared-trans : {i : ℕ} {a b c : Db} → Spared i a b → Spared i b c → Spared i a c
Spared-trans f g = record {
  inventories = g.inventories ∙ f.inventories;
  items = g.items ∙ f.items;
  batches = g.batches ∙ f.batches;
  lists = g.lists ∙ f.lists;
  lines = λ l h. g.lines l (rw f.lists h) ∙ f.lines l h;
}

-- The list `id` belongs to another inventory than `i`.
pub record Away (i id : ℕ) (d : Db) : Type 0 where
  pub row : ListRow
  pub found : find_by (list_is id) d.lists ≡ some row
  pub ne : row.inventory_id ≢ i

module _ (i : ℕ) (d : Db) (v : WellFormed d) where
  apart : (id : ℕ) → Away i id d → AllRows (λ x. list_is id x ≡ true → list_in i x ≡ false) d.lists
  apart id o =
      AllRows-imp _ _ d.lists (λ x same e. rw (same e) (==_ne o.row.inventory_id i o.ne))
        (find_by_unique (λ x. x.id) id d.lists o.row v.list_ids o.found)

  not_ours :
      (id l : ℕ) → Away i id d → any_row (list_is l) (select (list_in i) d.lists) ≡ true → id ≢ l
  not_ours id l o h e = cc (
    h,
    any_row-select_none (list_is id) (list_in i) d.lists (apart id o),
    ap (λ k. any_row (list_is k) (select (list_in i) d.lists)) e,
  )

  pub create_list-Spared :
      (inv : ℕ) (name : String) (u : ℕ) (m : Moment)
      → inv ≢ i
      → Spared i d (Queries.create_grocery_list inv name u m d).1
  unfolding Queries.create_grocery_list
  create_list-Spared inv name u m ne =
      inserted_keeps (Spared i d) _ _ _ _ d _ (Spared-refl i d) λ fresh _. record {
        inventories = refl;
        items = refl;
        batches = refl;
        lists = select-append_old (list_in i) d.lists _ (==_ne inv i ne);
        lines = λ l h. refl;
      }

  set_lists-Spared :
      (id : ℕ) (f : ListRow → ListRow)
      → Away i id d
      → ((r : ListRow) → (f r).inventory_id ≡ r.inventory_id)
      → Spared i d (record d { lists = update_where (list_is id) f d.lists })
  set_lists-Spared id f o same = record {
    inventories = refl;
    items = refl;
    batches = refl;
    lists =
        select-update_where (list_in i) (list_is id) f d.lists
          (AllRows-imp _ _ d.lists (λ x h e. (h e, ap (λ k. k == i) (same x) ∙ h e)) (apart id o));
    lines = λ l h. refl;
  }

  pub update_list_status-Spared :
      (id : ℕ) (status : String) (at : Option ℕ) (m : Moment)
      → Away i id d
      → Spared i d (Queries.update_grocery_list_status id status at m d).1
  unfolding Queries.update_grocery_list_status
  update_list_status-Spared id status at m o =
      updated_keeps (Spared i d) _ _ _ _ d _ (Spared-refl i d)
        λ r _ _. set_lists-Spared id _ o (λ r. refl)

  pub rename_list-Spared :
      (id : ℕ) (name : String) (m : Moment)
      → Away i id d
      → Spared i d (Queries.rename_grocery_list id name m d).1
  unfolding Queries.rename_grocery_list
  rename_list-Spared id name m o =
      updated_keeps (Spared i d) _ _ _ _ d _ (Spared-refl i d)
        λ r _ _. set_lists-Spared id _ o (λ r. refl)

  pub archive_list-Spared :
      (id : ℕ) (m : Moment) → Away i id d → Spared i d (Queries.archive_grocery_list id m d).1
  unfolding Queries.archive_grocery_list
  archive_list-Spared id m o = set_lists-Spared id _ o (λ r. refl)

  pub delete_list-Spared :
      (id : ℕ) (m : Moment) → Away i id d → Spared i d (Queries.delete_grocery_list id m d).1
  unfolding Queries.delete_grocery_list
  delete_list-Spared id m o = record {
    inventories = refl;
    items = refl;
    batches = refl;
    lists = select-delete_where (list_in i) (list_is id) d.lists (apart id o);
    lines = λ l h.
        let ne = not_ours id l o h in
        select-delete_where (list_item_of l) (list_item_of id) d.list_items
          (AllRows-all _ d.list_items (λ x e. ground arith));
  }

  lines-Spared :
      (rows : List ListItemRow)
      → ((l : ℕ)
          → any_row (list_is l) (select (list_in i) d.lists) ≡ true
          → select (list_item_of l) rows ≡ select (list_item_of l) d.list_items)
      → Spared i d (record d { list_items = rows })
  lines-Spared rows h = record {
    inventories = refl;
    items = refl;
    batches = refl;
    lists = refl;
    lines = h;
  }

  pub add_item-Spared :
      (list : ℕ) (link : Option ℕ) (name : String) (quantity : ℤ) (unit notes : Option String)
      (position : ℤ) (m : Moment)
      → Away i list d
      → Spared i d (Queries.add_grocery_list_item list link name quantity unit notes position m d).1
  unfolding Queries.add_grocery_list_item
  add_item-Spared list link name quantity unit notes position m o =
      inserted_keeps (Spared i d) _ _ _ _ d _ (Spared-refl i d) λ fresh _. lines-Spared _ λ l h.
        select-append_old (list_item_of l) d.list_items _ (==_ne list l (not_ours list l o h))

  -- Of the line with an id, the row found is the only one, and it is not a line of `l`.
  line_apart :
      (id list l : ℕ) (row : ListItemRow)
      → find_by (list_item_is id) d.list_items ≡ some row
      → row.grocery_list_id ≡ list
      → list ≢ l
      → AllRows (λ x. list_item_is id x ≡ true → list_item_of l x ≡ false) d.list_items
  line_apart id list l row found inside ne =
      AllRows-imp _ _ d.list_items (λ x same e. rw (same e) (rw inside (==_ne list l ne)))
        (find_by_unique (λ x. x.id) id d.list_items row v.list_item_ids found)

  module _ (id list : ℕ) (row : ListItemRow)
      (found : find_by (list_item_is id) d.list_items ≡ some row)
      (inside : row.grocery_list_id ≡ list) (o : Away i list d) where
    set_line-Spared :
        (f : ListItemRow → ListItemRow)
        → ((r : ListItemRow) → (f r).grocery_list_id ≡ r.grocery_list_id)
        → Spared i d (record d { list_items = update_where (list_item_is id) f d.list_items })
    set_line-Spared f same = lines-Spared _ λ l h.
        select-update_where (list_item_of l) (list_item_is id) f d.list_items (
          AllRows-imp _ _ d.list_items (λ x h e. (h e, ap (λ k. k == l) (same x) ∙ h e))
            (line_apart id list l row found inside (not_ours list l o h)))

    pub update_item_status-Spared :
        (status : String) (m : Moment)
        → Spared i d (Queries.update_grocery_list_item_status id status m d).1
    unfolding Queries.update_grocery_list_item_status
    update_item_status-Spared status m =
        updated_keeps (Spared i d) _ _ _ _ d _ (Spared-refl i d)
          λ r _ _. set_line-Spared _ (λ r. refl)

    pub reorder_item-Spared :
        (position : ℤ) (m : Moment)
        → Spared i d (Queries.update_grocery_list_item_sort_order id position m d).1
    unfolding Queries.update_grocery_list_item_sort_order
    reorder_item-Spared position m = set_line-Spared _ (λ r. refl)

    pub delete_item-Spared : (m : Moment) → Spared i d (Queries.delete_grocery_list_item id m d).1
    unfolding Queries.delete_grocery_list_item
    delete_item-Spared m = lines-Spared _ λ l h.
        select-delete_where (list_item_of l) (list_item_is id) d.list_items
          (line_apart id list l row found inside (not_ours list l o h))
