-- ===== src/Api/Gate.antt =====
-- The two middlewares of the routes that belong to a household, as baskety/cmd/baskety/main.go mounts
-- them, in front of the inventory API.

use mathlib.Core.Path.{subst}
use baskety.Base.{Option-cases, ℕ, ◌≡◌, sym, ap, ◌∙◌, ◌⊎◌, inl, inr, String, some}
use baskety.Inventory.Handler.Routes.{Route, asked}
use baskety.Inventory.Handler.Served.{handle-serve, handle_refused}
use baskety.Inventory.Handler.Context.{within, served_for, asked-within}
use baskety.Schema.{InventoryRow, SessionRow}
use baskety.Table.{find_by}
use baskety.World.{World}
use baskety.Integrity.{WellFormed}
use baskety.Http.{Handler, Reply}
use baskety.Inventory.Queries.Rows.{inventory_is}
use baskety.Inventory.Scope.{Foreign}
use baskety.Inventory.Isolation.{Untouched, Untouched-refl}
use baskety.Inventory.Isolation.Requests.{serve-Untouched}
use baskety.Auth.Middleware.{Context, middleware}
use baskety.Auth.Admission.{asked_once, Live, middleware-decides}
use baskety.Household.Middleware.{scope_middleware}
use baskety.Household.Scope.{Stopped, IsMember, scope_middleware-decides}

-- `r.Use(auth.Middleware(…))`, then `r.Use(household.ScopeMiddleware(…))`. The rest is run for a user
-- and a household.
unfoldable pub scoped {ℓ} : {A : Type ℓ} → String → String → (ℕ → ℕ → Handler A) → Handler A
scoped authorization household_id next =
    middleware authorization
      (λ c. scope_middleware household_id (some c.user_id) (λ h. next c.user_id h))

module _ {ℓ} {A : Type ℓ} where
  -- Whatever headers come with a request, and whatever statement fails: either it is refused with the
  -- tables as they were, or the rest runs for the user of a session that is neither revoked nor
  -- expired, and for a household of which that user is a member.
  pub scoped-decides :
      (authorization household_id : String) (next : ℕ → ℕ → Handler A) (w : World)
      → Stopped w (scoped authorization household_id next w)
        ⊎ ((s : SessionRow) × (h : ℕ) × Live authorization w s
            × IsMember (asked_once w) h s.user_id
            × (scoped authorization household_id next w
                ≡ next s.user_id h (asked_once (asked_once w))))
  unfolding scoped
  scoped-decides authorization household_id next w =
      let rest =
        λ (c : Context). scope_middleware household_id (some c.user_id) (λ h. next c.user_id h) in
      elim (middleware-decides authorization rest w) [
        | inl (status, same) ↦ inl (inr (inl status), same)
        | inr (s, live, runs) ↦
            elim (scope_middleware-decides household_id (some s.user_id) (λ h. next s.user_id h)
              (asked_once w)) [
                | inl stopped ↦ inl (subst (Stopped w) (sym runs) stopped)
                | inr (u, same, (h, there, goes)) ↦ inr (
                  s,
                  h,
                  live,
                  subst (λ k. IsMember (asked_once w) h k) (sym (some_injective s.user_id u same))
                      there,
                  runs ∙ goes,
                )
              ]
      ]
    where
      some_injective : (a b : ℕ) → some a ≡ some b → a ≡ b
      some_injective a b e = cc

served_for-Untouched :
    (route : Route) (u h i : ℕ) (w : World)
    → WellFormed w.db
    → Foreign h i w.db
    → Untouched i w.db (served_for route u h w).1.db
unfolding served_for
served_for-Untouched route u h i w wf foreign =
    let inside = within u h route in
    elim (Option-cases (asked w.env inside)) [
      | inl nobody ↦
          subst (λ (v : World). Untouched i w.db v.db) (sym (handle_refused inside w nobody).1)
            (Untouched-refl i w.db)
      | inr ((h', req), e) ↦
          let other =
            subst (λ k. Foreign k i w.db) (asked-within w.env u h h' req route e) foreign in
          subst (λ (x : ℕ × World). Untouched i w.db x.1.db) (sym (handle-serve h' req inside w e))
            (serve-Untouched h' i req w wf other)
    ]

-- In a well-formed database, whatever headers come with a request of the inventory API, whatever
-- stands in its path and its body and whatever fails: once the two middlewares and the handler of the
-- route have run, an inventory of a household of which the user of the request is not a member reads
-- the same as before.
pub scoped-Untouched :
    (authorization household_id : String) (route : Route) (i : ℕ) (owner : InventoryRow) (w : World)
    → WellFormed w.db
    → find_by (inventory_is i) w.db.inventories ≡ some owner
    → ((s : SessionRow)
        → Live authorization w s
        → ¬ IsMember (asked_once w) owner.household_id s.user_id)
    → Untouched i w.db (scoped authorization household_id (served_for route) w).1.db
scoped-Untouched authorization household_id route i owner w wf found stranger =
    elim (scoped-decides authorization household_id (served_for route) w) [
      | inl (_, same) ↦ subst (λ d. Untouched i w.db d) (sym same) (Untouched-refl i w.db)
      | inr (s, h, live, there, runs) ↦
          let w' = asked_once (asked_once w) in
          let foreign : Foreign h i w.db = record {
            owner = owner;
            found = found;
            other = λ e.
                stranger s live (subst (λ k. IsMember (asked_once w) k s.user_id) (sym e) there);
          } in
          subst (λ d. Untouched i w.db d) (sym (ap (λ (x : Reply (Unit {0}) × World). x.1.db) runs))
            (served_for-Untouched route s.user_id h i w' wf foreign)
    ]
