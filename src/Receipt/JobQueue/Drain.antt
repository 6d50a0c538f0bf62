-- ===== src/Receipt/JobQueue/Drain.antt =====
-- Shutdown of the queue of baskety/internal/receipt/jobqueue.go: how long the workers go on.
use baskety.Base.{
  ℕ, zero, suc, ◌+◌, ◌*◌, ◌≡◌, ◌<◌, refl, ap, Bool, true, false, List, [], ◌∷◌, length, arith,
}
use baskety.Base.Int.{ℤ}
use baskety.Outside.{Job}
use baskety.Receipt.JobQueue.{
  Queue, new, Step, send, take, finish, close, exit, Run, taken, finished, exited,
}
use baskety.Receipt.JobQueue.Order.{Inv, step-Inv, run-Inv, length-append}

-- The steps that are still to come once the channel is closed: a job that waits is taken and finished,
-- a job that runs is finished, and each worker returns.
unfoldable pub remaining : Queue → ℕ
remaining q = 2 * length q.jobs + length q.running + q.workers

-- The steps of the goroutines that serve the channel.
abbrev pub of_worker : {q q' : Queue} → Step q q' → Bool
of_worker (send job _ _) = false
of_worker (take job rest _ _) = true
of_worker (finish job before after _) = true
of_worker close = false
of_worker (exit left _ _ _ _) = true

-- n steps of the workers.
pub data Works : Queue → ℕ → Queue → Type 0 where
  rest : {q : Queue} → Works q 0 q
  more :
      {q q' q'' : Queue} {n : ℕ} (s : Step q q')
      → of_worker s ≡ true
      → Works q' n q''
      → Works q (suc n) q''

step-remaining :
    (q q' : Queue) (s : Step q q') → of_worker s ≡ true → remaining q ≡ suc (remaining q')
unfolding remaining
step-remaining q _ (send job _ _) w = absurd (ground (arith, w))
step-remaining q _ (take job left now idle) w = omega (arith, ap length now)
step-remaining q _ (finish job before after now) w =
    omega (arith, ap length now, length-append before (job ∷ after), length-append before after)
step-remaining q _ close w = absurd (ground (arith, w))
step-remaining q _ (exit left _ _ now _) w = omega (arith, now)

-- Whatever the workers do, each of their steps is one of the steps that remained: they take no more of
-- them than two for each job that waits, one for each that runs, and one for each worker.
pub Works-remaining : (q q' : Queue) (n : ℕ) → Works q n q' → n + remaining q' ≡ remaining q
Works-remaining q _ _ rest = omega arith
Works-remaining q q'' _ (more {q'} {n = n} s w ws) =
    omega (arith, step-remaining q q' s w, Works-remaining q' q'' n ws)

-- While a worker is left, one of them has a step to do.
next :
    (q : Queue)
    → q.closed ≡ true
    → 0 < q.workers
    → (jobs running : List Job) → q.jobs ≡ jobs
    → q.running ≡ running
    → (q' : Queue) × (s : Step q q') × (of_worker s ≡ true) × (q'.closed ≡ true)
next q shut alive jobs (j ∷ js) e f = (finished [] js q, finish j [] js f, refl, shut)
next q shut alive (j ∷ js) [] e f =
    (taken j js q, take j js e (omega (arith, ap length f)), refl, shut)
next q shut alive [] [] e f = by_workers q.workers refl
  where
    by_workers :
        (n : ℕ)
        → q.workers ≡ n
        → (q' : Queue) × (s : Step q q') × (of_worker s ≡ true) × (q'.closed ≡ true)
    by_workers zero g = absurd (omega arith)
    by_workers (suc n) g = (exited n q, exit n shut e g (omega (arith, ap length f)), refl, shut)

alive : (q : Queue) (n w : ℕ) → Inv q → q.workers ≡ w → remaining q ≡ suc n → 0 < q.workers
unfolding remaining
alive q n zero i none_left e =
    absurd (omega (arith, i.in_pool, none_left, e, ap length (i.over none_left).1))
alive q n (suc w) i some_left e = omega arith

drains :
    (n : ℕ) (q : Queue)
    → Inv q
    → q.closed ≡ true
    → remaining q ≡ n
    → (q' : Queue) × Works q n q' × (q'.workers ≡ 0)
unfolding remaining
drains zero q i shut e = (q, rest, omega arith)
drains (suc n) q i shut e =
    let (q', s, w, shut') = next q shut (alive q n q.workers i refl e) q.jobs q.running refl refl in
    let (q'', works, over) =
      drains n q' (step-Inv q q' s i) shut' (omega (arith, e, step-remaining q q' s w)) in
    (q'', more s w works, over)

-- Once Shutdown has closed the channel of a queue, whatever went on before, the workers can go on and
-- come to an end: in the steps that remain all of them return.
pub run-drains :
    (workers buffer : ℤ) (accepted started : List Job) (q : Queue)
    → Run (new workers buffer) accepted started q
    → q.closed ≡ true
    → (q' : Queue) × Works q (remaining q) q' × (q'.workers ≡ 0)
run-drains workers buffer accepted started q r shut =
    drains (remaining q) q (run-Inv workers buffer accepted started q r) shut refl
