-- ===== src/Inventory/Fefo.antt =====
-- `ListActiveBatches` of baskety/internal/inventory/service.go.
use baskety.Base.{ℕ, ◌≡◌, sym, ap, ◌∙◌, Bool, List, map, arith}
use baskety.Schema.{BatchRow, Db}
use baskety.Table.{order_by, select, nulls_last}
use baskety.Table.Order.{Ordered, order_by-Ordered, nulls_last_total, count_by, order_by-count}
use baskety.World.{World, Env, ok, exec}
use baskety.World.Laws.{bind-eq-ok}
use baskety.Inventory.Queries
use baskety.Inventory.Queries.Rows.{active_of}
use baskety.Inventory.Repository
use baskety.Inventory.Dto.{BatchResponse, to_batch_response}
use baskety.Inventory.Effective.{respond-ok, scope-Steady}
use baskety.World.Steady.{Steady, Steady-exec}
use mathlib.Core.Path.{subst}
use baskety.Inventory.Scope.{item_scope-db}
use baskety.Inventory.Service

-- The batch that expires first comes first, and one that never expires comes last.
abbrev pub sooner : BatchRow → BatchRow → Bool
sooner a b = nulls_last a.expires_at b.expires_at

batches-ok :
    (id : ℕ) (w : World) (bs : List BatchRow)
    → (Repository.list_active_batches id w).0 ≡ ok bs
    → order_by sooner (select (active_of id) w.db.batches) ≡ bs
unfolding Repository.list_active_batches Queries.list_active_batches_by_item exec
batches-ok id w bs e = ground arith

batches_Steady : (id : ℕ) → Steady (Repository.list_active_batches id)
unfolding Repository.list_active_batches
batches_Steady id = Steady-exec _

-- Where `ListActiveBatches` succeeds, it answers with batches that are ordered by their expiry, those
-- that never expire last, and they are the active batches of the item: as many of them pass any test.
pub list_active_batches-Ordered :
    (id h : ℕ) (w : World) (rs : List BatchResponse)
    → (Service.list_active_batches id h w).0 ≡ ok rs
    → (bs : List BatchRow) × (rs ≡ map (to_batch_response w.env.uuid_string) bs)
      × Ordered sooner bs
      × ((p : BatchRow → Bool) → count_by p bs ≡ count_by p (select (active_of id) w.db.batches))
unfolding Service.list_active_batches
list_active_batches-Ordered id h w rs e =
    let (it, scope, _, e1) = bind-eq-ok (Service.assert_item_scope id h) _ w rs e in
    let w' = (Service.assert_item_scope id h w).1 in
    let (bs, got, _, e2) = bind-eq-ok (Repository.list_active_batches id) _ w' rs e1 in
    let v = (Repository.list_active_batches id w').1 in
    let same : v.env ≡ w.env = (batches_Steady id).at w' ∙ (scope-Steady id h).at w in
    let listed = batches-ok id w' bs got in
    (
      bs,
      respond-ok (λ show. map (to_batch_response show)) bs v rs e2
          ∙ ap (λ (x : Env). map (to_batch_response x.uuid_string) bs) same,
      subst (Ordered sooner) listed (
          order_by-Ordered sooner (λ a b. nulls_last_total a.expires_at b.expires_at)
            (select (active_of id) w'.db.batches)),
      λ p.
          ap (count_by p) (sym listed)
          ∙ order_by-count sooner p (select (active_of id) w'.db.batches)
          ∙ ap (λ (d : Db). count_by p (select (active_of id) d.batches)) (item_scope-db id h w),
    )
