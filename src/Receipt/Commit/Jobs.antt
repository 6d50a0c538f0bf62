-- ===== src/Receipt/Commit/Jobs.antt =====
-- The jobs that `CommitScan` of baskety/internal/receipt/service.go enqueues.
use baskety.Base.{ℕ, ◌≡◌, refl, Bool-cases, inl, inr, List, [], ◌∷◌}
use baskety.World.{World, enqueue, ignoring, env, pure, ◌>>=◌}
use baskety.Receipt.Service

pub enqueue-db : (ids : List ℕ) (w : World) → (Service.enqueue_transactions ids w).1.db ≡ w.db
unfolding Service.enqueue_transactions ◌>>=◌ env ignoring enqueue pure
enqueue-db [] w = refl
enqueue-db (id ∷ ids) w = elim (Bool-cases (w.env.cancelled w.ticks)) [
  | inl late ↦ rw late (enqueue-db ids _)
  | inr room ↦ rw room (enqueue-db ids _)
]
