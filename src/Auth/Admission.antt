-- ===== src/Auth/Admission.antt =====
-- Whom the middleware of baskety/internal/auth/middleware.go lets through.
use baskety.Base.{
  ℕ, ◌+◌, ◌≡◌, refl, ◌⊎◌, inl, inr, String, true, false, Bool-cases, Option, Option-cases, ◌≤◌,
  arith, none, some, is_some,
}
use baskety.Schema.{SessionRow}
use baskety.Table.{find_by}
use baskety.World.{World, ok, err, db_error, exec, recovered, map_err}
use baskety.Sql.{one}
use baskety.Http.{Handler, Reply, write_json}
use baskety.Auth.Queries
use baskety.Auth.Queries.{token_is}
use baskety.Auth.Repository
use baskety.Auth.Middleware.{Context, bearer, expired, admit, middleware}

-- The world after one more statement that only reads.
abbrev pub asked_once : World → World
asked_once w = record w { ticks = w.ticks + 1 }

abbrev pub context_of : SessionRow → Context
context_of s = record { user_id = s.user_id; session_id = s.id }

-- 401, and the tables are as they were.
abbrev pub Refused {ℓ} : {A : Type ℓ} → World → Reply A × World → Type 0
Refused w (reply, w') = (reply.status ≡ 401) × (w'.db ≡ w.db)

-- The time is not after that of the expiry, where there is one.
abbrev pub Unexpired : ℕ → Option ℕ → Type 0
Unexpired now none = Unit
Unexpired now (some t) = now ≤ t

pub expired-Unexpired : (now : ℕ) (o : Option ℕ) → expired now o ≡ false → Unexpired now o
expired-Unexpired now none h = tt
expired-Unexpired now (some t) h = ground (arith, h)

pub Unexpired-expired : (now : ℕ) (o : Option ℕ) → Unexpired now o → expired now o ≡ false
Unexpired-expired now none h = refl
Unexpired-expired now (some t) h = ground (arith, h)

-- The session whose token the header holds, neither revoked nor expired.
pub record Live (header : String) (w : World) (s : SessionRow) : Type 0 where
  pub token : String
  pub held : bearer header ≡ some token
  pub stored : find_by (token_is (w.env.sha256_hex token)) w.db.sessions ≡ some s
  pub current : Unexpired (w.env.host_now (w.ticks + 1)) s.expires_at
  pub unrevoked : s.revoked_at ≡ none

pub lookup_runs :
    (hash : String) (w : World)
    → w.env.fault w.ticks ≡ false
    → Repository.find_session_by_token_hash hash w ≡ (
      recovered Repository.or_not_found (one (find_by (token_is hash) w.db.sessions)),
      asked_once w,
    )
unfolding Repository.find_session_by_token_hash Queries.get_session_by_token_hash map_err exec
lookup_runs hash w good = rw good refl

pub lookup_fails :
    (hash : String) (w : World)
    → w.env.fault w.ticks ≡ true
    → Repository.find_session_by_token_hash hash w ≡ (err db_error, asked_once w)
unfolding Repository.find_session_by_token_hash Queries.get_session_by_token_hash map_err exec
lookup_fails hash w bad = rw bad refl

unrevoked_is : (o : Option ℕ) → is_some o ≡ false → o ≡ none
unrevoked_is none h = refl
unrevoked_is (some t) h = cc

module _ {ℓ} {A : Type ℓ} where
  -- A live session goes through.
  pub middleware-Live :
      (header : String) (next : Context → Handler A) (w : World) (s : SessionRow)
      → w.env.fault w.ticks ≡ false
      → Live header w s
      → middleware header next w ≡ next (context_of s) (asked_once w)
  unfolding middleware
  middleware-Live header next w s good live = rw live.held (
      rw (lookup_runs (w.env.sha256_hex live.token) w good) (
        rw live.stored
          (rw (Unexpired-expired _ s.expires_at live.current) (rw live.unrevoked refl))))

  admit_decides :
      (header token : String) (next : Context → Handler A) (w : World) (s : SessionRow)
      → bearer header ≡ some token
      → find_by (token_is (w.env.sha256_hex token)) w.db.sessions ≡ some s
      → Refused w (admit (ok s) next (asked_once w))
        ⊎ (Live header w s
            × (admit (ok s) next (asked_once w) ≡ next (context_of s) (asked_once w)))
  unfolding write_json
  admit_decides header token next w s held stored =
      elim (Bool-cases (expired (w.env.host_now (w.ticks + 1)) s.expires_at)) [
        | inl late ↦ inl (rw late (refl, refl))
        | inr current ↦ elim (Bool-cases (is_some s.revoked_at)) [
          | inl gone ↦ inl (rw current (rw gone (refl, refl)))
          | inr there ↦ inr (
            record {
              token = token;
              held = held;
              stored = stored;
              current = expired-Unexpired _ s.expires_at current;
              unrevoked = unrevoked_is s.revoked_at there;
            },
            rw current (rw there refl),
          )
        ]
      ]

  -- Whatever header comes with a request, and whether or not the lookup of the session fails: either
  -- the middleware answers 401 and the tables are as they were, or the header holds the token of a
  -- session that is stored, not revoked and not expired, and the handler behind the middleware runs
  -- as the user of that session.
  pub middleware-decides :
      (header : String) (next : Context → Handler A) (w : World)
      → Refused w (middleware header next w)
        ⊎ ((s : SessionRow) × Live header w s
            × (middleware header next w ≡ next (context_of s) (asked_once w)))
  unfolding middleware write_json
  middleware-decides header next w = elim (Option-cases (bearer header)) [
    | inl none_held ↦ inl (rw none_held (refl, refl))
    | inr (token, held) ↦ elim (Bool-cases (w.env.fault w.ticks)) [
      | inl bad ↦ inl (rw held (rw (lookup_fails (w.env.sha256_hex token) w bad) (refl, refl)))
      | inr good ↦ elim (Option-cases (find_by (token_is (w.env.sha256_hex token)) w.db.sessions)) [
        | inl unknown ↦
            inl
              (rw held (rw (lookup_runs (w.env.sha256_hex token) w good) (rw unknown (refl, refl))))
        | inr (s, stored) ↦ elim (admit_decides header token next w s held stored) [
          | inl shut ↦
              inl (rw held (rw (lookup_runs (w.env.sha256_hex token) w good) (rw stored shut)))
          | inr (live, through) ↦ inr (
            s,
            live,
            rw held (rw (lookup_runs (w.env.sha256_hex token) w good) (rw stored through)),
          )
        ]
      ]
    ]
  ]
