-- ===== src/Receipt/JobQueue/Accounts.antt =====
-- What becomes of the jobs of baskety/internal/receipt/jobqueue.go, and how many there are at a time.
use baskety.Base.{zero, ℕ, suc, ◌+◌, ◌≡◌, ◌≤◌, refl, ap, Bool, List, [], ◌∷◌, ◌++◌, length, arith}
use baskety.Base.Int.{ℤ, pos, negsuc}
use baskety.Outside.{Job}
use baskety.Table.Order.{count_by}
use baskety.Receipt.JobQueue.{
  Queue, new, or_default, Step, send, take, finish, close, exit, takes, Run, start, then,
}
use baskety.Receipt.JobQueue.Order.{run-Inv, run-order}

-- The number that was asked for, where it is positive.
abbrev pub limit : ℕ → ℤ → ℕ
limit default (pos zero) = default
limit default (pos (suc n)) = suc n
limit default (negsuc n) = default

-- The jobs whose handlers have returned.
abbrev pub finishes : {q q' : Queue} → Step q q' → List Job
finishes (send job _ _) = []
finishes (take job rest _ _) = []
finishes (finish job before after _) = job ∷ []
finishes close = []
finishes (exit left _ _ _ _) = []

unfoldable pub handled :
    {q q' : Queue} {accepted started : List Job} → Run q accepted started q' → List Job
handled start = []
handled (then r s) = handled r ++ finishes s

-- The numbers of the queue are those it was made with, or less.
record Sized (buffer workers : ℕ) (q : Queue) : Type 0 where
  same_buffer : q.buffer ≡ buffer
  fewer_workers : q.workers ≤ workers

step-Sized : (b n : ℕ) (q q' : Queue) → Step q q' → Sized b n q → Sized b n q'
step-Sized b n q _ (send job _ _) s = record {
  same_buffer = s.same_buffer;
  fewer_workers = s.fewer_workers;
}
step-Sized b n q _ (take job rest _ _) s = record {
  same_buffer = s.same_buffer;
  fewer_workers = s.fewer_workers;
}
step-Sized b n q _ (finish job before after _) s = record {
  same_buffer = s.same_buffer;
  fewer_workers = s.fewer_workers;
}
step-Sized b n q _ close s = record { same_buffer = s.same_buffer; fewer_workers = s.fewer_workers }
step-Sized b n q _ (exit left _ _ now _) s = record {
  same_buffer = s.same_buffer;
  fewer_workers = omega (arith, s.fewer_workers, now);
}

or_default-limit : (default : ℕ) (n : ℤ) → or_default default n ≡ limit default n
or_default-limit default (pos zero) = refl
or_default-limit default (pos (suc n)) = ground arith
or_default-limit default (negsuc n) = ground arith

run-Sized :
    (workers buffer : ℤ) (accepted started : List Job) (q : Queue)
    → Run (new workers buffer) accepted started q
    → Sized (limit 64 buffer) (limit 2 workers) q
unfolding new
run-Sized workers buffer _ _ _ start = record {
  same_buffer = or_default-limit 64 buffer;
  fewer_workers = omega (arith, or_default-limit 2 workers);
}
run-Sized workers buffer _ _ q (then {accepted} {started} {q'} r s) =
    step-Sized _ _ q' q s (run-Sized workers buffer accepted started q' r)

module _ (p : Job → Bool) where
  count-append : (xs ys : List Job) → count_by p (xs ++ ys) ≡ count_by p xs + count_by p ys
  unfolding count_by
  count-append [] ys = omega arith
  count-append (x ∷ xs) ys = omega (arith, count-append xs ys)

  -- Whatever a worker takes it has, until it is done.
  step-balance :
      (q q' : Queue) (s : Step q q')
      → count_by p (takes s) + count_by p q.running
        ≡ count_by p (finishes s) + count_by p q'.running
  unfolding count_by
  step-balance q _ (send job _ _) = refl
  step-balance q _ (take job rest _ _) = omega arith
  step-balance q _ (finish job before after now) =
      omega
        (arith, ap (count_by p) now, count-append before (job ∷ after), count-append before after)
  step-balance q _ close = refl
  step-balance q _ (exit left _ _ _ _) = refl

  run-balance :
      (workers buffer : ℤ) (accepted started : List Job) (q : Queue)
      (r : Run (new workers buffer) accepted started q)
      → count_by p started ≡ count_by p (handled r) + count_by p q.running
  unfolding new handled count_by
  run-balance workers buffer _ _ _ start = refl
  run-balance workers buffer _ _ q (then {accepted} {started} {q'} r s) = omega (
    arith,
    run-balance workers buffer accepted started q' r,
    step-balance q' q s,
    count-append started (takes s),
    count-append (handled r) (finishes s),
  )

-- However the callers and the workers are scheduled: no more jobs wait than the buffer that was asked
-- for, 64 where that is not positive; no more handlers run than the workers that were asked for, 2
-- where that is not positive; and each job that was accepted waits, or runs, or was handled, so that
-- none is lost and none is handled twice: as many of the accepted jobs pass any test as of those three
-- together.
pub run_accounts :
    (workers buffer : ℤ) (accepted started : List Job) (q : Queue)
    (r : Run (new workers buffer) accepted started q)
    → (length q.jobs ≤ limit 64 buffer)
      × (length q.running ≤ limit 2 workers)
      × ((p : Job → Bool)
          → count_by p accepted ≡ count_by p q.jobs + count_by p q.running + count_by p (handled r))
run_accounts workers buffer accepted started q r =
    let i = run-Inv workers buffer accepted started q r in
    let s = run-Sized workers buffer accepted started q r in
    (
      omega (arith, i.in_buffer, s.same_buffer),
      omega (arith, i.in_pool, s.fewer_workers),
      λ p. omega (
        arith,
        ap (count_by p) (run-order workers buffer accepted started q r),
        count-append p started q.jobs,
        run-balance p workers buffer accepted started q r,
      ),
    )
