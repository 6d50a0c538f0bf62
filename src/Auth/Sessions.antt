-- ===== src/Auth/Sessions.antt =====
-- The life of a session of baskety/internal/auth/service.go, as the middleware sees it.
use baskety.Base.{
  ℕ, ◌+◌, ◌≡◌, refl, sym, ap, ◌∙◌, inl, inr, String, true, false, Option, none, some, ==_refl,
  arith,
}
use text.Mathlib.TextEquality.{eq_iff}
use baskety.Schema.{UserRow, SessionRow, Db}
use baskety.Table.{find_by}
use baskety.Table.Laws.{find_by-append_new, find_by-update_where_found, any_row-imp, AllRows-all}
use baskety.World.{
  World, Env, Result, ok, Moment, moment, exec, env, host_clock, outside, map_err, pure, ◌>>=◌,
}
use baskety.World.Laws.{bind-eq-ok, guard-eq-ok, exec-eq-ok, map_err-eq-ok, pure-eq-ok}
use baskety.World.Steady.{Steady, steady_rules, Steady-exec}
use baskety.Integrity.{one-eq-ok, inserted-eq-ok}
use baskety.Http.{Handler}
use baskety.Auth.Queries
use baskety.Auth.Queries.{token_is, session_is, user_is}
use baskety.Auth.Repository
use baskety.Auth.Dto.{LoginRequest, AuthResponse}
use baskety.Auth.Service
use baskety.Auth.Middleware.{Context, bearer, expired, middleware}
use baskety.Auth.Admission.{
  asked_once, context_of, Refused, Live, Unexpired, expired-Unexpired, Unexpired-expired,
  middleware-Live, middleware-decides,
}

session_inserted :
    (u : ℕ) (hash : String) (t : Option ℕ) (m : Moment) (d : Db) (s : SessionRow)
    → (Queries.create_session u hash t m d).0 ≡ ok s
    → (find_by (token_is hash) (Queries.create_session u hash t m d).1.sessions ≡ some s)
      × (s.user_id ≡ u)
      × (s.expires_at ≡ t)
      × (s.revoked_at ≡ none)
unfolding Queries.create_session
session_inserted u hash t m d s e =
    let (same, clash, _, _, ran) = inserted-eq-ok _ _ _ _ d _ s e in
    (
      rw ran (
          rw (← same) (
            find_by-append_new (token_is hash) d.sessions _
              (any_row-imp _ _ d.sessions (AllRows-all _ d.sessions (λ x. ground arith)) clash)
              ((eq_iff hash hash).1 refl))),
      sym (ap (λ (r : SessionRow). r.user_id) same),
      sym (ap (λ (r : SessionRow). r.expires_at) same),
      sym (ap (λ (r : SessionRow). r.revoked_at) same),
    )

find-Steady :
    (email : String) → Steady (map_err Service.or_invalid (Repository.find_user_by_email email))
unfolding Repository.find_user_by_email
find-Steady email = search steady_rules depth 12

login-Steady : (req : LoginRequest) → Steady (Service.login req)
unfolding Service.login Repository.find_user_by_email Repository.create_session
login-Steady req = search steady_rules depth 12

same_user :
    (email : String) (w : World) (user : UserRow)
    → (Repository.find_user_by_email email w).0 ≡ ok user
    → find_by (Queries.email_is email) w.db.users ≡ some user
unfolding Repository.find_user_by_email Queries.get_user_by_email
same_user email w user got =
    let read = exec (Queries.get_user_by_email email) in
    let (row, _) = exec-eq-ok _ w user (map_err-eq-ok Repository.or_not_found read w user got) in
    one-eq-ok _ user row

-- Where `Login` succeeds, the user of the email is there and the password matches the hash that is
-- stored. A request with the token that it answers with, made where the lookup does not fail and by
-- the time at which the token expires, passes the middleware as that user.
pub login-middleware {ℓ} :
    {A : Type ℓ} (req : LoginRequest) (header : String) (next : Context → Handler A) (w : World)
    (r : AuthResponse)
    → (Service.login req w).0 ≡ ok r
    → bearer header ≡ some r.token
    → (Service.login req w).1.env.fault (Service.login req w).1.ticks ≡ false
    → Unexpired (w.env.host_now ((Service.login req w).1.ticks + 1)) r.expires_at
    → let w' = (Service.login req w).1 in
      (user : UserRow) × (s : SessionRow) × (find_by (Queries.email_is req.email) w.db.users
        ≡ some user)
      × (w.env.password_matches user.password_hash req.password ≡ true)
      × (s.user_id ≡ user.id)
      × (middleware header next w' ≡ next (context_of s) (asked_once w'))
unfolding Service.login Repository.create_session env host_clock pure ◌>>=◌
login-middleware req header next w r e held good soon =
    let w' = (Service.login req w).1 in
    let find = map_err Service.or_invalid (Repository.find_user_by_email req.email) in
    let (user, got0, s0, e0) = bind-eq-ok find _ w r e in
    let w0 = (find w).1 in
    let (fits, s1, e1) = guard-eq-ok _ _ _ w0 r e0 in
    let draw = outside (λ (v : Env) k. v.random_token k) in
    let (token, _, s2, e2) = bind-eq-ok draw _ w0 r e1 in
    let w2 = (draw w0).1 in
    let expires_at = w2.env.host_now w2.ticks + Service.session_duration in
    let insert = Queries.create_session user.id (w0.env.sha256_hex token) (some expires_at) in
    let (s, got3, s3, e3) = bind-eq-ok (exec insert) _ w2 r e2 in
    let resp : Service.auth_response token expires_at ≡ r = pure-eq-ok _ r (exec insert w2).1 e3 in
    let final : w' ≡ (exec insert w2).1 =
      ap (λ (x : Result AuthResponse × World). x.1) (s0 ∙ s1 ∙ s2 ∙ s3) in
    let (made, db3) = exec-eq-ok insert w2 s got3 in
    let hash = w0.env.sha256_hex token in
    let (found, owner, until, unrevoked) =
      session_inserted user.id hash (some expires_at) (moment w2) w2.db s made in
    let same = (login-Steady req).at w in
    let same0 = (find-Steady req.email).at w in
    let known =
      map_err-eq-ok Service.or_invalid (Repository.find_user_by_email req.email) w user got0 in
    (
      user,
      s,
      same_user req.email w user known,
      ap (λ (v : Env). v.password_matches user.password_hash req.password) (sym same0) ∙ fits,
      owner,
      middleware-Live header next w' s good record {
        token = token;
        held = held ∙ ap (λ (a : AuthResponse). some a.token) (sym resp);
        stored =
            ap (λ (v : Env). find_by (token_is (v.sha256_hex token)) w'.db.sessions)
              (same ∙ sym same0)
            ∙ ap (λ (x : World). find_by (token_is hash) x.db.sessions) final
            ∙ ap (λ (d : Db). find_by (token_is hash) d.sessions) db3
            ∙ found;
        current = expired-Unexpired _ s.expires_at (
            ap (λ (v : Env). expired (v.host_now (w'.ticks + 1)) s.expires_at) same
            ∙ ap (λ (o : Option ℕ). expired (w.env.host_now (w'.ticks + 1)) o)
                (until ∙ ap (λ (a : AuthResponse). a.expires_at) resp)
            ∙ Unexpired-expired _ r.expires_at soon);
        unrevoked = unrevoked;
      },
    )

revoked_found :
    (s : SessionRow) (hash : String) (m : Moment) (d : Db)
    → find_by (token_is hash) d.sessions ≡ some s
    → find_by (token_is hash) (Queries.revoke_session s.id m d).1.sessions
      ≡ some (Queries.revoked m s)
unfolding Queries.revoke_session
revoked_found s hash m d stored =
    find_by-update_where_found (token_is hash) (session_is s.id) (Queries.revoked m) d.sessions s
      (λ x. refl) stored (==_refl s.id)

not-Live :
    (header token : String) (w : World) (s kept : SessionRow) (t : ℕ)
    → bearer header ≡ some token
    → find_by (token_is (w.env.sha256_hex token)) w.db.sessions ≡ some kept
    → kept.revoked_at ≡ some t
    → Live header w s
    → ⊥
not-Live header token w s kept t held stored gone live =
    cc (held, stored, gone, live.held, live.stored, live.unrevoked)

-- Once `Logout` has succeeded for a session, a request with the token of that session is answered
-- with 401, and the tables stay as they are, whatever the time and whether the lookup fails or not.
pub logout-middleware {ℓ} :
    {A : Type ℓ} (s : SessionRow) (header token : String) (next : Context → Handler A) (w : World)
    → bearer header ≡ some token
    → find_by (token_is (w.env.sha256_hex token)) w.db.sessions ≡ some s
    → (Service.logout s.id w).0 ≡ ok tt
    → Refused (Service.logout s.id w).1 (middleware header next (Service.logout s.id w).1)
unfolding Service.logout Repository.revoke_session
logout-middleware s header token next w held stored done =
    let w' = (Service.logout s.id w).1 in
    let revoke = Queries.revoke_session s.id in
    let (_, db) = exec-eq-ok revoke w tt done in
    let hash = w.env.sha256_hex token in
    let there =
      ap (λ (v : Env). find_by (token_is (v.sha256_hex token)) w'.db.sessions)
        ((Steady-exec revoke).at w)
      ∙ ap (λ (d : Db). find_by (token_is hash) d.sessions) db
      ∙ revoked_found s hash (moment w) w.db stored in
    elim (middleware-decides header next w') [
      | inl refused ↦ refused
      | inr (other, live, _) ↦ absurd (
          not-Live header token w' other (Queries.revoked (moment w) s) (moment w).now held there
            refl live)
    ]
