-- ===== src/Household/Scope.antt =====
-- For which household the middleware of baskety/internal/household/middleware.go lets a user act.
use mathlib.Core.Path.{subst}
use baskety.Base.{
  ◌==◌, ◌&&◌, not, is_some, ℕ, ◌≡◌, refl, ◌⊎◌, inl, inr, String, true, false, Bool-cases, Option,
  Option-cases, none, some, List, [], ◌∷◌, is_empty, leb,
}
use baskety.Schema.{HouseholdRow, MemberRow}
use baskety.Table.{find_by, any_row, select, order_by}
use baskety.Table.Laws.{AllRows, any_row-find_by}
use baskety.Table.Order.{order_by-AllRows, select-AllRows}
use baskety.World.{World, ok, err, db_error, exec, recovered, map_err}
use baskety.Sql.{one}
use baskety.Http.{Handler, Reply, write_json}
use baskety.Auth.Admission.{asked_once}
use baskety.Household.Queries
use baskety.Household.Queries.{active_member, lasts}
use baskety.Household.Repository
use baskety.Household.Repository.{Household}
use baskety.Household.Middleware.{named, default_one, for_user, scope_middleware}

-- One of the statuses of a refusal, and the tables are as they were.
abbrev pub Stopped {ℓ} : {A : Type ℓ} → World → Reply A × World → Type 0
Stopped w (reply, w') =
    ((reply.status ≡ 400) ⊎ ((reply.status ≡ 401) ⊎ ((reply.status ≡ 403) ⊎ (reply.status ≡ 500))))
    × (w'.db ≡ w.db)

-- The user is a member of the household, neither revoked nor expired.
abbrev pub IsMember : World → ℕ → ℕ → Type 0
IsMember w h u =
    any_row
      (λ (r : MemberRow).
        (r.household_id == h && r.user_id == u)
        && not (is_some r.revoked_at)
        && lasts (w.env.now w.ticks) r.expires_at)
      w.db.members
    ≡ true

-- The household for which the rest is run is one of the user's.
abbrev pub Scoped {ℓ} : {A : Type ℓ} → World → ℕ → (ℕ → Handler A) → Reply A × World → Type ℓ
Scoped w u next result = (h : ℕ) × IsMember w h u × (result ≡ next h (asked_once w))

pub find_runs :
    (h u : ℕ) (w : World)
    → w.env.fault w.ticks ≡ false
    → Repository.find_member h u w ≡ (
      recovered Repository.or_not_found
          (one (find_by (active_member (w.env.now w.ticks) h u) w.db.members)),
      asked_once w,
    )
unfolding Repository.find_member Queries.get_household_member map_err exec
find_runs h u w good = rw good refl

find_fails :
    (h u : ℕ) (w : World)
    → w.env.fault w.ticks ≡ true
    → Repository.find_member h u w ≡ (err db_error, asked_once w)
unfolding Repository.find_member Queries.get_household_member map_err exec
find_fails h u w bad = rw bad refl

list_fails :
    (u : ℕ) (w : World)
    → w.env.fault w.ticks ≡ true
    → Repository.list_households_for_user u w ≡ (err db_error, asked_once w)
unfolding Repository.list_households_for_user Queries.list_households_by_user exec
list_fails u w bad = rw bad refl

-- The households of the user, as the statement lists them.
abbrev households_of : ℕ → World → List Household
households_of u w =
    order_by (λ (a b : HouseholdRow). leb b.created_at a.created_at)
      (select
        (λ (h : HouseholdRow). any_row (active_member (w.env.now w.ticks) h.id u) w.db.members)
        w.db.households)

list_runs :
    (u : ℕ) (w : World)
    → w.env.fault w.ticks ≡ false
    → Repository.list_households_for_user u w ≡ (ok (households_of u w), asked_once w)
unfolding Repository.list_households_for_user Queries.list_households_by_user exec
list_runs u w good = rw good refl

households-IsMember : (u : ℕ) (w : World) → AllRows (λ h. IsMember w h.id u) (households_of u w)
households-IsMember u w = order_by-AllRows _ _ _ (select-AllRows _ w.db.households)

List-cases {ℓ} : {A : Type ℓ} (xs : List A) → (xs ≡ []) ⊎ ((x : A) × (ys : List A) × (xs ≡ x ∷ ys))
List-cases [] = inl refl
List-cases (x ∷ xs) = inr (x, xs, refl)

first-IsMember :
    (u : ℕ) (w : World) (h : Household) (hs : List Household)
    → households_of u w ≡ h ∷ hs
    → IsMember w h.id u
first-IsMember u w h hs e =
    (subst (AllRows (λ (x : Household). IsMember w x.id u)) e (households-IsMember u w)).0

module _ {ℓ} {A : Type ℓ} where
  named_decides :
      (u h : ℕ) (next : ℕ → Handler A) (w : World)
      → Stopped w (named u next h w) ⊎ Scoped w u next (named u next h w)
  unfolding write_json
  named_decides u h next w = elim (Bool-cases (w.env.fault w.ticks)) [
    | inl bad ↦ inl (rw (find_fails h u w bad) (inr (inr (inr refl)), refl))
    | inr good ↦
        elim (Option-cases (find_by (active_member (w.env.now w.ticks) h u) w.db.members)) [
          | inl gone ↦ inl (rw (find_runs h u w good) (rw gone (inr (inr (inl refl)), refl)))
          | inr (row, found) ↦ inr (
            h,
            any_row-find_by _ w.db.members row found,
            rw (find_runs h u w good) (rw found refl),
          )
        ]
  ]

  default_decides :
      (u : ℕ) (next : ℕ → Handler A) (w : World)
      → Stopped w (default_one u next w) ⊎ Scoped w u next (default_one u next w)
  unfolding write_json
  default_decides u next w = elim (Bool-cases (w.env.fault w.ticks)) [
    | inl bad ↦ inl (rw (list_fails u w bad) (inr (inr (inl refl)), refl))
    | inr good ↦ elim (List-cases (households_of u w)) [
      | inl nowhere ↦ inl (rw (list_runs u w good) (rw nowhere (inr (inr (inl refl)), refl)))
      | inr (h, hs, e) ↦ inr (h.id, first-IsMember u w h hs e, rw (list_runs u w good) (rw e refl))
    ]
  ]

  for_user_decides :
      (header : String) (u : ℕ) (next : ℕ → Handler A) (w : World)
      → Stopped w (for_user header next u w) ⊎ Scoped w u next (for_user header next u w)
  unfolding write_json
  for_user_decides header u next w = elim (Bool-cases (is_empty header)) [
    | inl without ↦ rw without (default_decides u next w)
    | inr given ↦ elim (Option-cases (w.env.uuid_parse header)) [
      | inl garbled ↦ inl (rw given (rw garbled (inl refl, refl)))
      | inr (h, e) ↦ rw given (rw e (named_decides u h next w))
    ]
  ]

  -- Whatever household a request names, or none, and whatever statement fails: either the middleware
  -- replies with 400, 401, 403 or 500 and the tables are as they were, or there is a user, and the
  -- handler behind the middleware runs for a household of which that user is a member, neither
  -- revoked nor expired.
  pub scope_middleware-decides :
      (header : String) (user_id : Option ℕ) (next : ℕ → Handler A) (w : World)
      → Stopped w (scope_middleware header user_id next w)
        ⊎ ((u : ℕ) × (user_id ≡ some u) × Scoped w u next (scope_middleware header user_id next w))
  unfolding scope_middleware write_json
  scope_middleware-decides header none next w = inl (inr (inl refl), refl)
  scope_middleware-decides header (some u) next w = elim (for_user_decides header u next w) [
    | inl stopped ↦ inl stopped
    | inr scoped ↦ inr (u, refl, scoped)
  ]
