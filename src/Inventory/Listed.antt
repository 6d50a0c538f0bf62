-- ===== src/Inventory/Listed.antt =====
-- `ListItems` of baskety/internal/inventory/service.go, against the tables.
use baskety.Base.{
  ℕ, ◌≡◌, refl, ap, ◌∙◌, ◌==◌, ◌&&◌, not, is_some, String, Bool, true, false, Option, none, some,
  List, [], ◌∷◌, map, ptr_str,
}
use baskety.Schema.{ItemRow}
use baskety.Table.{select}
use baskety.Table.Order.{Ordered, order_by-Ordered, count_by, order_by-count}
use baskety.World.{World, ok}
use baskety.Inventory.Queries
use baskety.Inventory.Repository
use baskety.Inventory.Dto.{ItemResponse, to_item_response}
use baskety.Inventory.Service
use baskety.Inventory.Counted.{in_stock, how_many, stock-in_stock, count-how_many}
use baskety.Inventory.Effective.{shelf, shown, list_items-ok}

abbrev pub or_empty : Option String → String
or_empty none = ""
or_empty (some s) = s

-- What a client is to see of an item.
abbrev pub entry : World → ItemRow → ItemResponse
entry w r = record {
  id = w.env.uuid_string r.id;
  inventory_id = w.env.uuid_string r.inventory_id;
  name = r.name;
  category = or_empty r.category;
  unit = or_empty r.unit;
  target_quantity = r.target_quantity;
  notes = r.notes;
  created_at = r.created_at;
  updated_at = r.updated_at;
  stored_quantity = in_stock r.id w.db.batches;
  batch_count = how_many r.id w.db.batches;
}

texts : (o : Option String) → ptr_str o ≡ or_empty o
unfolding ptr_str
texts none = refl
texts (some s) = refl

shown-entry : (w : World) (r : ItemRow) → shown w r ≡ entry w r
unfolding shown to_item_response Repository.to_item_from_list_row Repository.to_item
    Queries.with_stock
shown-entry w r = rw (texts r.category) (
    rw (texts r.unit)
      (rw (stock-in_stock r.id w.db.batches) (rw (count-how_many r.id w.db.batches) refl)))

map-ext {ℓ κ} :
    {A : Type ℓ} {B : Type κ} (f g : A → B) (xs : List A)
    → ((x : A) → f x ≡ g x)
    → map f xs ≡ map g xs
map-ext f g [] e = refl
map-ext f g (x ∷ xs) e = rw (e x) (ap (λ ys. g x ∷ ys) (map-ext f g xs e))

-- Where names are ordered totally: where `ListItems` succeeds, it answers with items in the order of
-- their names, and they are the items of the inventory that are not deleted, as many of them passing
-- any test. Each comes with the sum and the number of its batches that are not emptied.
pub list_items-Ordered :
    (id h : ℕ) (w : World) (rs : List ItemResponse)
    → ((a b : String) → w.env.name_le a b ≡ false → w.env.name_le b a ≡ true)
    → (Service.list_items id h w).0 ≡ ok rs
    → (rows : List ItemRow) × (rs ≡ map (entry w) rows)
      × Ordered (λ a b. w.env.name_le a.name b.name) rows
      × ((p : ItemRow → Bool)
          → count_by p rows
            ≡ count_by p
                (select (λ r. r.inventory_id == id && not (is_some r.deleted_at)) w.db.items))
list_items-Ordered id h w rs total e =
    let le = λ (a b : ItemRow). w.env.name_le a.name b.name in
    let those =
      select (λ (r : ItemRow). r.inventory_id == id && not (is_some r.deleted_at)) w.db.items in
    (
      shelf w id,
      list_items-ok id h w rs e ∙ map-ext (shown w) (entry w) (shelf w id) (shown-entry w),
      order_by-Ordered le (λ a b. total a.name b.name) those,
      λ p. order_by-count le p those,
    )
