-- ===== src/Receipt/JobQueue/Tests.antt =====
-- A queue with the default numbers: a job is enqueued and taken, and the queue is shut down.
use baskety.Base.{Bool, ◌+◌, ◌≤◌, ◌≡◌, refl, true, [], ◌∷◌, length, arith}
use baskety.Base.Int.{pos}
use baskety.Outside.{Job, scan_args}
use baskety.Receipt.JobQueue.{
  Queue, new, Run, start, then, send, take, finish, close, exit, sent, taken, finished, exited,
}
use baskety.Receipt.JobQueue.Order.{run-shut_down}
use baskety.Receipt.JobQueue.Accounts.{handled, run_accounts}
use baskety.Table.Order.{count_by}
use baskety.Receipt.JobQueue.Drain.{Works, remaining, Works-remaining, run-drains, more, rest}

abbrev job : Job
job = record { job_type = "process_receipt_scan"; payload = scan_args "x" }

abbrev shut : Queue
unfolding new
shut = record (taken job [] (sent job (new (pos 0) (pos 0)))) { closed = true }

one_job : Run (new (pos 0) (pos 0)) (job ∷ []) (job ∷ []) shut
unfolding new shut
one_job =
    then (then (then start (send job refl (omega arith))) (take job [] refl (omega arith))) close

run_accounts_example :
    (length shut.jobs ≤ 64)
    × (length shut.running ≤ 2)
    × ((p : Job → Bool)
        → count_by p (job ∷ [])
          ≡ count_by p shut.jobs + count_by p shut.running + count_by p (handled one_job))
run_accounts_example = run_accounts (pos 0) (pos 0) (job ∷ []) (job ∷ []) shut one_job

run-drains_example : (q' : Queue) × Works shut (remaining shut) q' × (q'.workers ≡ 0)
unfolding shut
run-drains_example = run-drains (pos 0) (pos 0) (job ∷ []) (job ∷ []) shut one_job refl

abbrev idle : Queue
idle = finished [] [] shut

Works-remaining_example : 1 + remaining idle ≡ remaining shut
unfolding shut
Works-remaining_example = Works-remaining shut idle 1 (more (finish job [] [] refl) refl rest)

abbrev stopped : Queue
stopped = exited 0 (exited 1 idle)

all_done : Run (new (pos 0) (pos 0)) (job ∷ []) (job ∷ []) stopped
unfolding new shut
all_done =
    then (then (then one_job (finish job [] [] refl)) (exit 1 refl refl refl (omega arith)))
      (exit 0 refl refl refl (omega arith))

run-shut_down_example : (stopped.closed ≡ true) × (job ∷ [] ≡ job ∷ []) × (stopped.running ≡ [])
unfolding shut
run-shut_down_example = run-shut_down (pos 0) (pos 0) (job ∷ []) (job ∷ []) stopped all_done refl
