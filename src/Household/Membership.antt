-- ===== src/Household/Membership.antt =====
-- How AddMember and RemoveMember of baskety/internal/household/service.go and the middleware of the
-- package fit together.
use mathlib.Core.Path.{subst}
use baskety.Base.{
  ℕ, ◌≡◌, ◌≢◌, refl, sym, ap, ◌∙◌, ◌⊎◌, inl, inr, String, true, false, Bool-cases, some, List, [],
  ◌∷◌, is_empty, ==_refl, arith,
}
use baskety.Schema.{MemberRow, Db}
use baskety.Table.{find_by, any_row, delete_where}
use baskety.Table.Laws.{find_by-append_new, any_row-imp, AllRows-all}
use baskety.World.{World, Env, Result, ok, Moment, moment, exec, env, pure, ◌>>=◌}
use baskety.World.Laws.{bind-eq-ok, exec-eq-ok}
use baskety.World.Steady.{Steady-exec}
use baskety.Integrity.{inserted-eq-ok}
use baskety.Inventory.Dto.{respond}
use baskety.Http.{Handler}
use baskety.Auth.Admission.{asked_once}
use baskety.Household.Queries
use baskety.Household.Queries.{active_member, member_is}
use baskety.Household.Repository
use baskety.Household.Dto.{AddMemberRequest, MemberResponse, to_member_response}
use baskety.Household.Service
use baskety.Household.Middleware.{scope_middleware}
use baskety.Household.Scope.{Stopped, IsMember, find_runs, scope_middleware-decides}

-- Once a membership is deleted, nothing is found under its key.
nobody_left :
    (now h u : ℕ) (rows : List MemberRow)
    → any_row (active_member now h u) (delete_where (member_is h u) rows) ≡ false
unfolding any_row delete_where
nobody_left now h u [] = refl
nobody_left now h u (r ∷ rows) = elim (Bool-cases (member_is h u r)) [
  | inl gone ↦ rw gone (nobody_left now h u rows)
  | inr other ↦ rw other (rw other (nobody_left now h u rows))
]

removed-IsMember :
    (h u h' : ℕ) (w : World)
    → (Service.remove_member h u w).0 ≡ ok tt
    → IsMember (Service.remove_member h u w).1 h' u
    → h' ≢ h
unfolding Service.remove_member Repository.remove_member Queries.remove_household_member
removed-IsMember h u h' w done there same =
    let w' = (Service.remove_member h u w).1 in
    let remove = Queries.remove_household_member h u in
    let (_, db) = exec-eq-ok remove w tt done in
    let now = w'.env.now w'.ticks in
    let gone =
      ap (λ (d : Db). any_row (active_member now h u) d.members) db
      ∙ nobody_left now h u w.db.members in
    let stays = subst (λ k. any_row (active_member now k u) w'.db.members ≡ true) same there in
    absurd (cc (gone, stays))

-- Once RemoveMember has succeeded, the middleware lets the user act for that household no more,
-- whatever the request names: the request is refused, or it is for another household.
pub remove_member-scope {ℓ} :
    {A : Type ℓ} (h u : ℕ) (header : String) (next : ℕ → Handler A) (w : World)
    → (Service.remove_member h u w).0 ≡ ok tt
    → let w' = (Service.remove_member h u w).1 in
      Stopped w' (scope_middleware header (some u) next w')
      ⊎ ((h' : ℕ) × (h' ≢ h) × (scope_middleware header (some u) next w' ≡ next h' (asked_once w')))
remove_member-scope h u header next w done =
    let w' = (Service.remove_member h u w).1 in
    elim (scope_middleware-decides header (some u) next w') [
      | inl stopped ↦ inl stopped
      | inr (u', same, (h', there, runs)) ↦ inr (
        h',
        removed-IsMember h u h' w done
            (subst (λ (k : ℕ). IsMember w' h' k) (sym (some_injective u u' same)) there),
        runs,
      )
    ]
  where
    some_injective : (a b : ℕ) → some a ≡ some b → a ≡ b
    some_injective a b e = cc

member_inserted :
    (h u inviter : ℕ) (role : String) (now : ℕ) (m : Moment) (d : Db) (row : MemberRow)
    → (Queries.add_household_member h u role inviter m d).0 ≡ ok row
    → find_by (active_member now h u) (Queries.add_household_member h u role inviter m d).1.members
      ≡ some row
unfolding Queries.add_household_member
member_inserted h u inviter role now m d row e =
    let (same, clash, _, _, ran) = inserted-eq-ok _ _ _ _ d _ row e in
    rw ran (
      rw (← same) (
        find_by-append_new (active_member now h u) d.members _
          (any_row-imp _ _ d.members (AllRows-all _ d.members (λ x. ground arith)) clash)
          (rw (==_refl h) (rw (==_refl u) refl))))

member_passes {ℓ} :
    {A : Type ℓ} (h u : ℕ) (header : String) (next : ℕ → Handler A) (v : World) (row : MemberRow)
    → v.env.uuid_parse header ≡ some h
    → is_empty header ≡ false
    → v.env.fault v.ticks ≡ false
    → find_by (active_member (v.env.now v.ticks) h u) v.db.members ≡ some row
    → scope_middleware header (some u) next v ≡ next h (asked_once v)
unfolding scope_middleware
member_passes h u header next v row named given good found =
    rw given (rw named (rw (find_runs h u v good) (rw found refl)))

add_runs :
    (h u inviter : ℕ) (req : AddMemberRequest) (w : World)
    → w.env.uuid_parse req.user_id ≡ some u
    → Service.add_member h inviter req w
      ≡ (exec (Queries.add_household_member h u req.role inviter) >>= respond to_member_response) w
unfolding Service.add_member Repository.add_member env pure ◌>>=◌
add_runs h u inviter req w names = rw names refl

-- Where AddMember succeeds, whoever invited the user: the next request of that user that names the
-- household passes the middleware, if its lookup does not fail.
pub add_member-scope {ℓ} :
    {A : Type ℓ} (h u inviter : ℕ) (req : AddMemberRequest) (header : String) (next : ℕ → Handler A)
    (w : World) (r : MemberResponse)
    → w.env.uuid_parse req.user_id ≡ some u
    → w.env.uuid_parse header ≡ some h
    → is_empty header ≡ false
    → (Service.add_member h inviter req w).0 ≡ ok r
    → (Service.add_member h inviter req w).1.env.fault (Service.add_member h inviter req w).1.ticks
      ≡ false
    → let w' = (Service.add_member h inviter req w).1 in
      scope_middleware header (some u) next w' ≡ next h (asked_once w')
unfolding respond env pure ◌>>=◌
add_member-scope h u inviter req header next w r names named given e good =
    let add = Queries.add_household_member h u req.role inviter in
    let runs = add_runs h u inviter req w names in
    let (row, got, step, _) =
      bind-eq-ok (exec add) (respond to_member_response) w r
        (sym (ap (λ (x : Result MemberResponse × World). x.0) runs) ∙ e) in
    let w1 = (exec add w).1 in
    let final : (Service.add_member h inviter req w).1 ≡ w1 =
      ap (λ (x : Result MemberResponse × World). x.1) (runs ∙ step) in
    let (made, db) = exec-eq-ok add w row got in
    let now = w1.env.now w1.ticks in
    subst (λ (x : World). scope_middleware header (some u) next x ≡ next h (asked_once x))
      (sym final)
      (member_passes h u header next w1 row
        (ap (λ (v : Env). v.uuid_parse header) ((Steady-exec add).at w) ∙ named) given
        (sym (ap (λ (x : World). x.env.fault x.ticks) final) ∙ good)
        (ap (λ (d : Db). find_by (active_member now h u) d.members) db
          ∙ member_inserted h u inviter req.role now (moment w) w.db row made))
