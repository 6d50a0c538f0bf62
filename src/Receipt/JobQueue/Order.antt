-- ===== src/Receipt/JobQueue/Order.antt =====
-- The order and the bounds of the channel of baskety/internal/receipt/jobqueue.go.
use mathlib.Core.List.{append_assoc, append-nil}
use baskety.Base.{
  ℕ, zero, suc, ◌+◌, ◌≡◌, ◌≤◌, ◌<◌, refl, ap, ◌∙◌, true, List, [], ◌∷◌, ◌++◌, length, arith,
}
use baskety.Base.Int.{ℤ, pos, negsuc}
use baskety.Outside.{Job}
use baskety.Receipt.JobQueue.{
  Queue, new, or_default, Step, send, take, finish, close, exit, sends, takes, Run, start, then,
}

step-order :
    (q q' : Queue) (s : Step q q') (accepted started : List Job)
    → accepted ≡ started ++ q.jobs
    → accepted ++ sends s ≡ (started ++ takes s) ++ q'.jobs
step-order q _ (send job _ _) accepted started e = rw e (simp (append_assoc, append-nil))
step-order q _ (take job rest now _) accepted started e =
    rw e (rw now (simp (append_assoc, append-nil)))
step-order q _ (finish job before after _) accepted started e =
    rw e (simp (append_assoc, append-nil))
step-order q _ close accepted started e = rw e (simp (append_assoc, append-nil))
step-order q _ (exit left _ _ _ _) accepted started e = rw e (simp (append_assoc, append-nil))

pub run-order :
    (workers buffer : ℤ) (accepted started : List Job) (q : Queue)
    → Run (new workers buffer) accepted started q
    → accepted ≡ started ++ q.jobs
unfolding new
run-order workers buffer _ _ _ start = refl
run-order workers buffer _ _ q (then {accepted} {started} {q'} r s) =
    step-order q' q s accepted started (run-order workers buffer accepted started q' r)

pub length-append : (xs ys : List Job) → length (xs ++ ys) ≡ length xs + length ys
length-append [] ys = omega arith
length-append (x ∷ xs) ys = omega (arith, length-append xs ys)

-- What holds between two steps.
pub record Inv (q : Queue) : Type 0 where
  pub roomy : 0 < q.buffer
  pub in_buffer : length q.jobs ≤ q.buffer
  pub in_pool : length q.running ≤ q.workers
  pub over : q.workers ≡ 0 → (q.closed ≡ true) × (q.jobs ≡ [])

pub step-Inv : (q q' : Queue) → Step q q' → Inv q → Inv q'
step-Inv q _ (send job unshut room) i = record {
  roomy = i.roomy;
  in_buffer = rw length-append (omega arith);
  in_pool = i.in_pool;
  over = λ e. absurd (cc ((i.over e).0, unshut));
}
step-Inv q _ (take job rest now idle) i = record {
  roomy = i.roomy;
  in_buffer = omega (arith, i.in_buffer, ap length now);
  in_pool = idle;
  over = λ e. absurd (omega (arith, e, idle));
}
step-Inv q _ (finish job before after now) i = record {
  roomy = i.roomy;
  in_buffer = i.in_buffer;
  in_pool = omega (
    arith,
    i.in_pool,
    ap length now,
    length-append before (job ∷ after),
    length-append before after,
  );
  over = i.over;
}
step-Inv q _ close i = record {
  roomy = i.roomy;
  in_buffer = i.in_buffer;
  in_pool = i.in_pool;
  over = λ e. (refl, (i.over e).1);
}
step-Inv q _ (exit left shut dry now idle) i = record {
  roomy = i.roomy;
  in_buffer = i.in_buffer;
  in_pool = omega (arith, idle, now);
  over = λ e. (shut, dry);
}

default_positive : (k : ℕ) (n : ℤ) → 0 < k → 0 < or_default k n
default_positive k (pos zero) h = h
default_positive k (pos (suc n)) h = grind arith
default_positive k (negsuc n) h = grind arith

new-Inv : (workers buffer : ℤ) → Inv (new workers buffer)
unfolding new
new-Inv workers buffer = record {
  roomy = default_positive 64 buffer (omega arith);
  in_buffer = omega arith;
  in_pool = omega arith;
  over = λ e. absurd (omega (arith, e, default_positive 2 workers (omega arith)));
}

pub run-Inv :
    (workers buffer : ℤ) (accepted started : List Job) (q : Queue)
    → Run (new workers buffer) accepted started q
    → Inv q
run-Inv workers buffer _ _ _ start = new-Inv workers buffer
run-Inv workers buffer _ _ q (then {accepted} {started} {q'} r s) =
    step-Inv q' q s (run-Inv workers buffer accepted started q' r)

-- Once all workers have returned, which is what Shutdown waits for, the channel is closed, every job
-- that was accepted was taken, in the order in which it was accepted, and no handler runs.
pub run-shut_down :
    (workers buffer : ℤ) (accepted started : List Job) (q : Queue)
    → Run (new workers buffer) accepted started q
    → q.workers ≡ 0
    → (q.closed ≡ true) × (accepted ≡ started) × (q.running ≡ [])
run-shut_down workers buffer accepted started q r e =
    let i = run-Inv workers buffer accepted started q r in
    (
      (i.over e).0,
      run-order workers buffer accepted started q r
          ∙ ap (λ js. started ++ js) (i.over e).1
          ∙ append-nil started,
      none_left q.running (omega (arith, i.in_pool, e)),
    )
  where
    none_left : (js : List Job) → length js ≤ 0 → js ≡ []
    none_left [] h = refl
    none_left (j ∷ js) h = absurd (omega arith)
