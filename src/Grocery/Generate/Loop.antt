-- ===== src/Grocery/Generate/Loop.antt =====
-- The loop of `AutoGenerate`, round by round.
use mathlib.Core.Path.{subst, subst₂}
use baskety.Base.{
  ℕ, ◌≡◌, refl, sym, ap, ◌∙◌, Bool, true, false, some, List, [], ◌∷◌, ◌++◌, map, Bool-cases, inl,
  inr, ◌⊎◌, Option-cases,
}
use baskety.Base.Int.{ℤ, pos, leb_ℤ, ◌+ℤ◌}
use baskety.Schema.{ItemRow, BatchRow, Db}
use baskety.World.{World, Env, Result, M, ok, ◌>>=◌, pure, map_err, env}
use baskety.World.Laws.{bind-eq-ok, pure-eq-ok, map_err-eq-ok}
use baskety.World.Steady.{
  Steady, steady_rules, Steady-bind, Steady-map_err, Steady-pure, Steady-env,
}
use baskety.Inventory.Queries as InventoryQueries
use baskety.Inventory.Repository as InventoryRepository
use baskety.Inventory.Dto.{ItemResponse as InventoryItemResponse, to_item_response}
use baskety.Inventory.Effective.{shown, effective-db, effective-ok, effective-Steady}
use baskety.Inventory.Service as InventoryService
use baskety.Grocery.Generate.{
  Line, lines, missing, shortfalls, add_item-ok, append_assoc, append_nil,
}
use baskety.Grocery.Repository
use baskety.Grocery.Repository.{GroceryListItem}
use baskety.Grocery.Service

line_Steady :
    (list h : ℕ) (it : InventoryItemResponse) (id : ℕ) (n : ℤ)
    → Steady (Service.generate_line list h it id n)
unfolding Service.generate_line Service.add_shortfall Repository.add_item
line_Steady list h it id n = Steady-bind _ _ (Steady-map_err _ _ (effective-Steady id h)) λ q.
    elim (Bool-cases (leb_ℤ it.target_quantity q)) [
      | inl enough ↦ rw enough (Steady-pure _)
      | inr short ↦ rw short (search steady_rules depth 9)
    ]

read :
    (id h : ℕ) (w : World)
    → (map_err Service.map_inventory_err (InventoryService.get_effective_quantity id h) w).1.db
      ≡ w.db
unfolding map_err
read id h w = effective-db id h w

pub lines_Steady :
    (list h : ℕ) (its : List InventoryItemResponse) (n : ℤ)
    → Steady (Service.generate_lines list h its n)
unfolding Service.generate_lines
lines_Steady list h [] n = Steady-pure _
lines_Steady list h (it ∷ its) n = Steady-bind _ _ Steady-env λ e.
    Steady-bind _ _
      (elim (Option-cases (e.uuid_parse it.id)) [
        | inl bad ↦ rw bad (Steady-pure _)
        | inr (id, good) ↦ rw good (line_Steady list h it id n)
      ])
      λ next. lines_Steady list h its next

module _ (list : ℕ) (r : ItemRow) (n : ℤ) where
  -- An item that is well stocked adds nothing; one that runs short adds its line.
  abbrev Outcome : ℤ → Db → Db → ℤ → Type 0
  Outcome stock d d' n' =
      ((leb_ℤ r.target_quantity stock ≡ true)
        × (n' ≡ n)
        × (lines list d' ≡ lines list d)
        × (d'.batches ≡ d.batches))
      ⊎ ((leb_ℤ r.target_quantity stock ≡ false)
          × (n' ≡ n +ℤ pos 1)
          × (lines list d' ≡ lines list d ++ missing r stock n ∷ [])
          × (d'.batches ≡ d.batches))

  round-batches :
      (d d' : Db) (n' : ℤ)
      → Outcome (InventoryQueries.stock r.id d.batches) d d' n'
      → d'.batches ≡ d.batches
  round-batches d d' n' (inl (_, _, _, kept)) = kept
  round-batches d d' n' (inr (_, _, _, kept)) = kept

  first_line :
      (bs : List BatchRow) (rs : List ItemRow) (enough : Bool)
      → leb_ℤ r.target_quantity (InventoryQueries.stock r.id bs) ≡ enough
      → shortfalls bs (r ∷ rs) n ≡ elim enough [
        | true ↦ shortfalls bs rs n
        | false ↦ missing r (InventoryQueries.stock r.id bs) n ∷ shortfalls bs rs (n +ℤ pos 1)
      ]
  unfolding shortfalls
  first_line bs rs enough h =
      ap
        (λ (b : Bool). elim b [
          | true ↦ shortfalls bs rs n
          | false ↦ missing r (InventoryQueries.stock r.id bs) n ∷ shortfalls bs rs (n +ℤ pos 1)
        ])
        h

  round-lines :
      (d d' : Db) (n' : ℤ) (rs : List ItemRow) (total : List Line)
      → Outcome (InventoryQueries.stock r.id d.batches) d d' n'
      → total ≡ lines list d' ++ shortfalls d'.batches rs n'
      → total ≡ lines list d ++ shortfalls d.batches (r ∷ rs) n
  round-lines d d' n' rs total (inl (enough, next, same, kept)) e =
      cc (e, next, same, kept, first_line d.batches rs true enough)
  round-lines d d' n' rs total (inr (short, next, last, kept)) e = cc (
    e,
    next,
    last,
    kept,
    first_line d.batches rs false short,
    append_assoc (lines list d) (missing r (InventoryQueries.stock r.id d.batches) n)
        (shortfalls d.batches rs (n +ℤ pos 1)),
  )

module _ (list h : ℕ) (w0 : World) (r : ItemRow) (n : ℤ) where
  shortfall-ok :
      (stock : ℤ) (w : World) (n' : ℤ)
      → (Service.add_shortfall list (shown w0 r) r.id stock n w).0 ≡ ok n'
      → (lines list (Service.add_shortfall list (shown w0 r) r.id stock n w).1.db
          ≡ lines list w.db ++ missing r stock n ∷ [])
        × (n' ≡ n +ℤ pos 1)
        × ((Service.add_shortfall list (shown w0 r) r.id stock n w).1.db.batches ≡ w.db.batches)
  unfolding Service.add_shortfall shown to_item_response InventoryRepository.to_item_from_list_row
      InventoryRepository.to_item InventoryQueries.with_stock pure
  shortfall-ok stock w n' e =
      let (it, got, step, rest) = bind-eq-ok _ _ w n' e in
      let (last, kept) = add_item-ok list r stock n w it got in
      let same = ap (λ (x : Result ℤ × World). x.1.db) step in
      (
        ap (lines list) same ∙ last,
        sym (pure-eq-ok (n +ℤ pos 1) n' w rest),
        ap (λ (d : Db). d.batches) same ∙ kept,
      )

  abbrev branch : Bool → ℤ → M ℤ
  branch enough stock = elim enough [
    | true ↦ pure n
    | false ↦ Service.add_shortfall list (shown w0 r) r.id stock n
  ]

  branch-ok :
      (enough : Bool) (stock : ℤ) (w : World) (n' : ℤ)
      → leb_ℤ r.target_quantity stock ≡ enough
      → (branch enough stock w).0 ≡ ok n'
      → Outcome list r n stock w.db (branch enough stock w).1.db n'
  unfolding pure
  branch-ok true stock w n' h e = inl (h, sym (pure-eq-ok n n' w e), refl, refl)
  branch-ok false stock w n' h e = inr (
    h,
    (shortfall-ok stock w n' e).1,
    (shortfall-ok stock w n' e).0,
    (shortfall-ok stock w n' e).2,
  )

  line-ok :
      (w : World) (n' : ℤ)
      → (Service.generate_line list h (shown w0 r) r.id n w).0 ≡ ok n'
      → Outcome list r n
          (InventoryQueries.stock r.id w.db.batches)
          w.db
          (Service.generate_line list h (shown w0 r) r.id n w).1.db
          n'
  unfolding Service.generate_line shown to_item_response InventoryRepository.to_item_from_list_row
      InventoryRepository.to_item InventoryQueries.with_stock
  line-ok w n' e =
      let effective =
        map_err Service.map_inventory_err (InventoryService.get_effective_quantity r.id h) in
      let (q, got, step, rest) =
        bind-eq-ok effective (λ q. branch (leb_ℤ r.target_quantity q) q) w n' e in
      let value : q ≡ InventoryQueries.stock r.id w.db.batches =
        effective-ok r.id h w q (map_err-eq-ok Service.map_inventory_err _ w q got) in
      let w' = (effective w).1 in
      subst (λ (d' : Db). Outcome list r n (InventoryQueries.stock r.id w.db.batches) w.db d' n')
        (sym (ap (λ (x : Result ℤ × World). x.1.db) step))
        (subst₂
          (λ (s : ℤ) (d : Db).
            Outcome list r n s d (branch (leb_ℤ r.target_quantity q) q w').1.db n')
          value (read r.id h w) (branch-ok _ q w' n' refl rest))

-- The rounds for a shelf of items.
next_round :
    (list h : ℕ) (it : InventoryItemResponse) (its : List InventoryItemResponse) (n : ℤ) (id : ℕ)
    (w : World)
    → w.env.uuid_parse it.id ≡ some id
    → Service.generate_lines list h (it ∷ its) n w
      ≡ (Service.generate_line list h it id n >>= λ next. Service.generate_lines list h its next) w
unfolding Service.generate_lines env ◌>>=◌
next_round list h it its n id w parsed = rw parsed refl

module _ (list h : ℕ) (w0 : World)
    (readable : (k : ℕ) → w0.env.uuid_parse (w0.env.uuid_string k) ≡ some k) where
  readable_here :
      (r : ItemRow) (w : World) → w.env ≡ w0.env → w.env.uuid_parse (shown w0 r).id ≡ some r.id
  unfolding shown to_item_response InventoryRepository.to_item_from_list_row
      InventoryRepository.to_item InventoryQueries.with_stock
  readable_here r w same =
      ap (λ (v : Env). v.uuid_parse (w0.env.uuid_string r.id)) same ∙ readable r.id

  pub lines-ok :
      (rs : List ItemRow) (n : ℤ) (w : World)
      → w.env ≡ w0.env
      → (Service.generate_lines list h (map (shown w0) rs) n w).0 ≡ ok tt
      → (lines list (Service.generate_lines list h (map (shown w0) rs) n w).1.db
          ≡ lines list w.db ++ shortfalls w.db.batches rs n)
        × ((Service.generate_lines list h (map (shown w0) rs) n w).1.db.batches ≡ w.db.batches)
  unfolding Service.generate_lines pure shortfalls
  lines-ok [] n w same e = (sym (append_nil (lines list w.db)), refl)
  lines-ok (r ∷ rs) n w same e =
      let item : InventoryItemResponse = shown w0 r in
      let next = next_round list h item (map (shown w0) rs) n r.id w (readable_here r w same) in
      let (n', got, step, rest) =
        bind-eq-ok (Service.generate_line list h item r.id n) _ w tt
          (sym (ap (λ x. x.0) next) ∙ e) in
      let w' = (Service.generate_line list h item r.id n w).1 in
      let after = lines-ok rs n' w' ((line_Steady list h item r.id n).at w ∙ same) rest in
      let outcome = line-ok list h w0 r n w n' got in
      let whole = ap (λ (x : Result (Unit {0}) × World). x.1.db) (next ∙ step) in
      (
        ap (lines list) whole ∙ round-lines list r n (w.db) w'.db n' rs _ outcome after.0,
        ap (λ (d : Db). d.batches) whole ∙ after.1 ∙ round-batches list r n w.db w'.db n' outcome,
      )
