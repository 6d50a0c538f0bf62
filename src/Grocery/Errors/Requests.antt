-- ===== src/Grocery/Errors/Requests.antt =====
-- The methods of the grocery service (service.go) and the errors that they answer with.
use baskety.Base.{
  ℕ, ◌≡◌, refl, sym, ap, ◌∙◌, String, false, Option, none, some, List, [], ◌∷◌, Bool-cases,
  Option-cases, inl, inr, is_empty,
}
use baskety.Base.Int.{ℤ, leb_ℤ}
use baskety.World.{World, exec, err, Error}
use baskety.Inventory.Dto.{respond, ItemResponse as InventoryItemResponse}
use baskety.Grocery.Queries
use baskety.Grocery.Repository
use baskety.Grocery.Service
use baskety.Grocery.Service.{parsed}
use baskety.Grocery.Errors.{
  of_inventory, leaks, Sealed, Sealed-bind, Sealed-exec, Sealed-pure, Sealed-raise, Sealed-env,
  translated, inserted_clean, updated_clean, one_clean, sealed_rules,
}
use baskety.Grocery.Request.{
  Request, serve, create_list, get_list, list_by_inventory, complete_list, archive_list,
  delete_list, rename_list, add_item, get_item, delete_item, list_items, update_item_status,
  reorder_item, auto_generate,
}

create_list-Sealed :
    (a : ℕ) (b : String) (c : ℕ) → Sealed (exec (Queries.create_grocery_list a b c))
unfolding Queries.create_grocery_list
create_list-Sealed a b c = Sealed-exec _ λ m d. inserted_clean _ _ _ _ d _

get_list-Sealed : (a : ℕ) → Sealed (exec (Queries.get_grocery_list_by_id a))
unfolding Queries.get_grocery_list_by_id
get_list-Sealed a = Sealed-exec _ λ m d. one_clean _

lists-Sealed : (a : ℕ) → Sealed (exec (Queries.list_grocery_lists_by_inventory a))
unfolding Queries.list_grocery_lists_by_inventory
lists-Sealed a = Sealed-exec _ λ m d. refl

status-Sealed :
    (a : ℕ) (b : String) (c : Option ℕ) → Sealed (exec (Queries.update_grocery_list_status a b c))
unfolding Queries.update_grocery_list_status
status-Sealed a b c = Sealed-exec _ λ m d. updated_clean _ _ _ _ d _

archive-Sealed : (a : ℕ) → Sealed (exec (Queries.archive_grocery_list a))
unfolding Queries.archive_grocery_list
archive-Sealed a = Sealed-exec _ λ m d. refl

rename-Sealed : (a : ℕ) (b : String) → Sealed (exec (Queries.rename_grocery_list a b))
unfolding Queries.rename_grocery_list
rename-Sealed a b = Sealed-exec _ λ m d. updated_clean _ _ _ _ d _

delete_list-Sealed : (a : ℕ) → Sealed (exec (Queries.delete_grocery_list a))
unfolding Queries.delete_grocery_list
delete_list-Sealed a = Sealed-exec _ λ m d. refl

add-Sealed :
    (a : ℕ) (b : Option ℕ) (c : String) (q : ℤ) (u n : Option String) (o : ℤ)
    → Sealed (exec (Queries.add_grocery_list_item a b c q u n o))
unfolding Queries.add_grocery_list_item
add-Sealed a b c q u n o = Sealed-exec _ λ m d. inserted_clean _ _ _ _ d _

get_line-Sealed : (a : ℕ) → Sealed (exec (Queries.get_grocery_list_item_by_id a))
unfolding Queries.get_grocery_list_item_by_id
get_line-Sealed a = Sealed-exec _ λ m d. one_clean _

lines-Sealed : (a : ℕ) → Sealed (exec (Queries.list_grocery_list_items a))
unfolding Queries.list_grocery_list_items
lines-Sealed a = Sealed-exec _ λ m d. refl

mark-Sealed : (a : ℕ) (b : String) → Sealed (exec (Queries.update_grocery_list_item_status a b))
unfolding Queries.update_grocery_list_item_status
mark-Sealed a b = Sealed-exec _ λ m d. updated_clean _ _ _ _ d _

reorder-Sealed : (a : ℕ) (b : ℤ) → Sealed (exec (Queries.update_grocery_list_item_sort_order a b))
unfolding Queries.update_grocery_list_item_sort_order
reorder-Sealed a b = Sealed-exec _ λ m d. refl

delete_line-Sealed : (a : ℕ) → Sealed (exec (Queries.delete_grocery_list_item a))
unfolding Queries.delete_grocery_list_item
delete_line-Sealed a = Sealed-exec _ λ m d. refl

ruleset statements = (
  create_list-Sealed, get_list-Sealed, lists-Sealed, status-Sealed, archive-Sealed, rename-Sealed,
  delete_list-Sealed, add-Sealed, get_line-Sealed, lines-Sealed, mark-Sealed, reorder-Sealed,
  delete_line-Sealed,
)

respond-Sealed {ℓ} : {A B : Type ℓ} (f : (ℕ → String) → A → B) (a : A) → Sealed (respond f a)
unfolding respond
respond-Sealed f a = search sealed_rules

inventory_scope-Sealed : (id h : ℕ) → Sealed (Service.assert_inventory_scope id h)
unfolding Service.assert_inventory_scope
inventory_scope-Sealed id h = search sealed_rules

list_scope-Sealed : (id h : ℕ) → Sealed (Service.assert_list_scope id h)
unfolding Service.assert_list_scope Repository.get_list
list_scope-Sealed id h = search (sealed_rules, statements, inventory_scope-Sealed)

item_scope-Sealed : (id list h : ℕ) → Sealed (Service.assert_item_scope id list h)
unfolding Service.assert_item_scope Repository.get_item of_inventory
item_scope-Sealed id list h = search (sealed_rules, statements, list_scope-Sealed) depth 9

parsed-Sealed : (o : Option ℕ) → Sealed (parsed o)
unfolding of_inventory
parsed-Sealed none = Sealed-raise _ refl
parsed-Sealed (some id) = Sealed-pure _

parse_link-Sealed : (link : Option String) → Sealed (Service.parse_link link)
unfolding Service.parse_link
parse_link-Sealed none = Sealed-pure _
parse_link-Sealed (some s) = Sealed-bind _ _ Sealed-env λ e. elim (Bool-cases (is_empty s)) [
  | inl bad ↦ rw bad (Sealed-pure _)
  | inr good ↦ rw good (parsed-Sealed _)
]

add_line-Sealed :
    (list : ℕ) (link : Option ℕ) (name : String) (quantity : ℤ) (unit : String)
    (notes : Option String) (position : ℤ)
    → Sealed (Repository.add_item list link name quantity unit notes position)
unfolding Repository.add_item
add_line-Sealed list link name quantity unit notes position =
    search (sealed_rules, statements) depth 9

round-Sealed :
    (list h : ℕ) (it : InventoryItemResponse) (id : ℕ) (n : ℤ)
    → Sealed (Service.generate_line list h it id n)
unfolding Service.generate_line Service.add_shortfall
round-Sealed list h it id n = Sealed-bind _ _ (translated _) λ q.
    elim (Bool-cases (leb_ℤ it.target_quantity q)) [
      | inl enough ↦ rw enough (Sealed-pure _)
      | inr short ↦ rw short (Sealed-bind _ _ (add_line-Sealed _ _ _ _ _ _ _) λ _. Sealed-pure _)
    ]

loop-Sealed :
    (list h : ℕ) (its : List InventoryItemResponse) (n : ℤ)
    → Sealed (Service.generate_lines list h its n)
unfolding Service.generate_lines
loop-Sealed list h [] n = Sealed-pure _
loop-Sealed list h (it ∷ its) n = Sealed-bind _ _ Sealed-env λ e.
    Sealed-bind _ _
      (elim (Option-cases (e.uuid_parse it.id)) [
        | inl bad ↦ rw bad (Sealed-pure _)
        | inr (id, good) ↦ rw good (round-Sealed list h it id n)
      ])
      λ next. loop-Sealed list h its next

ruleset chains = (
  sealed_rules, statements, respond-Sealed, inventory_scope-Sealed, list_scope-Sealed,
  item_scope-Sealed, parse_link-Sealed, add_line-Sealed, loop-Sealed, refl,
)

serve-Sealed : (h u : ℕ) (req : Request) → Sealed (serve h u req)
unfolding serve of_inventory Service.create_list Service.get_list Service.list_by_inventory
    Service.complete_list Service.archive_list Service.delete_list Service.rename_list
    Service.add_item Service.get_item Service.delete_item Service.list_items
    Service.update_item_status Service.reorder_item Service.auto_generate Repository.create_list
    Repository.list_by_inventory Repository.update_list_status Repository.archive_list
    Repository.rename_list Repository.delete_list Repository.list_items
    Repository.update_item_status Repository.reorder_item Repository.delete_item
serve-Sealed h u (create_list id req) = search chains depth 12
serve-Sealed h u (get_list id) = search chains depth 12
serve-Sealed h u (list_by_inventory id) = search chains depth 12
serve-Sealed h u (complete_list id) = search chains depth 12
serve-Sealed h u (archive_list id) = search chains depth 12
serve-Sealed h u (delete_list id) = search chains depth 12
serve-Sealed h u (rename_list id name) = search chains depth 12
serve-Sealed h u (add_item id req) = search chains depth 12
serve-Sealed h u (get_item id list_id) = search chains depth 12
serve-Sealed h u (delete_item id list_id) = search chains depth 12
serve-Sealed h u (list_items id) = search chains depth 12
serve-Sealed h u (update_item_status id list_id req) = search chains depth 12
serve-Sealed h u (reorder_item id list_id req) = search chains depth 12
serve-Sealed h u (auto_generate id req) = search chains depth 12

-- Whatever is asked of the grocery API and whatever fails, where it answers with an error, that is
-- neither the `ErrNotFound` nor the `ErrForbidden` of the inventory package: the handlers need to
-- know those of their own package only.
pub serve-of_inventory :
    (h u : ℕ) (req : Request) (w : World) (e : Error)
    → (serve h u req w).0 ≡ err e
    → of_inventory e ≡ false
serve-of_inventory h u req w e failed = sym (ap leaks failed) ∙ (serve-Sealed h u req).at w
