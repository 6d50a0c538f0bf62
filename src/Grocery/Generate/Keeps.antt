-- ===== src/Grocery/Generate/Keeps.antt =====
-- Properties of the tables under the loop of `AutoGenerate`.
use mathlib.Core.Path.{subst}
use baskety.Base.{ℕ, sym, String, Option, List, [], ◌∷◌, Bool-cases, Option-cases, inl, inr}
use baskety.Base.Int.{ℤ, leb_ℤ}
use baskety.Schema.{Db}
use baskety.World.Laws.{Keeps, Keeps-bind, Keeps-env, Keeps-pure, Keeps-map_err}
use baskety.Inventory.Dto.{ItemResponse as InventoryItemResponse}
use baskety.Inventory.Effective.{effective-db}
use baskety.Inventory.Service as InventoryService
use baskety.Grocery.Repository
use baskety.Grocery.Service

module _ (P : Db → Type 0) (list h : ℕ)
    (adds : (link : Option ℕ) (name : String) (quantity : ℤ) (unit : String) (notes : Option String)
        (position : ℤ)
      → Keeps P (Repository.add_item list link name quantity unit notes position)) where
  effective-Keeps : (id : ℕ) → Keeps P (InventoryService.get_effective_quantity id h)
  effective-Keeps id = record { at = λ w p. subst P (sym (effective-db id h w)) p }

  line-Keeps :
      (it : InventoryItemResponse) (id : ℕ) (n : ℤ) → Keeps P (Service.generate_line list h it id n)
  unfolding Service.generate_line Service.add_shortfall
  line-Keeps it id n = Keeps-bind _ _ (Keeps-map_err _ _ (effective-Keeps id)) λ q.
      elim (Bool-cases (leb_ℤ it.target_quantity q)) [
        | inl enough ↦ rw enough (Keeps-pure _)
        | inr short ↦ rw short (Keeps-bind _ _ (adds _ _ _ _ _ _) λ _. Keeps-pure _)
      ]

  pub lines-Keeps :
      (its : List InventoryItemResponse) (n : ℤ) → Keeps P (Service.generate_lines list h its n)
  unfolding Service.generate_lines
  lines-Keeps [] n = Keeps-pure _
  lines-Keeps (it ∷ its) n = Keeps-bind _ _ Keeps-env λ e.
      Keeps-bind _ _
        (elim (Option-cases (e.uuid_parse it.id)) [
          | inl bad ↦ rw bad (Keeps-pure _)
          | inr (id, good) ↦ rw good (line-Keeps it id n)
        ])
        λ next. lines-Keeps its next
