-- ===== src/Receipt/JobQueue.antt =====
-- jobqueue.go of baskety/internal/receipt: a channel with a buffer, and the goroutines that serve it.
-- What they do is a step relation, since the scheduler chooses who goes next.
pub mod Order
pub mod Drain
pub mod Accounts
mod Tests
use text.Mathlib.Text.{◌==◌ as str_eq}
use baskety.Base.{
  ℕ, suc, ◌≡◌, ◌<◌, String, Bool, true, false, Option, none, some, List, [], ◌∷◌, ◌++◌, length,
  if◌then◌else◌,
}
use baskety.Base.Int.{ℤ, pos, leb_ℤ, pos_part}
use baskety.Outside.{Payload, Job}
use baskety.World.{M, pure, ignoring}

-- `handlers`, the last registered first.
abbrev pub Handlers : Type 0
Handlers = List (String × (Payload → M (Unit {0})))

unfoldable pub register : String → (Payload → M (Unit {0})) → Handlers → Handlers
register job_type h handlers = (job_type, h) ∷ handlers

unfoldable pub handler_for : Handlers → String → Option (Payload → M (Unit {0}))
handler_for [] job_type = none
handler_for ((t, h) ∷ hs) job_type = if str_eq t job_type then some h else handler_for hs job_type

-- What a worker does with a job: a job without a handler, and an error of the handler, are logged.
abbrev pub handled_by : Option (Payload → M (Unit {0})) → Payload → M (Unit {0})
handled_by none payload = pure tt
handled_by (some h) payload = ignoring (h payload)

unfoldable pub dispatch : Handlers → Job → M (Unit {0})
dispatch handlers job = handled_by (handler_for handlers job.job_type) job.payload

-- The channel, and the goroutines that have not returned.
pub record Queue : Type 0 where
  pub buffer : ℕ
  pub jobs : List Job
  pub closed : Bool
  pub workers : ℕ
  pub running : List Job

abbrev pub or_default : ℕ → ℤ → ℕ
or_default default n = if leb_ℤ n (pos 0) then default else pos_part n

-- `NewInProcessQueue`
unfoldable pub new : ℤ → ℤ → Queue
new workers buffer = record {
  buffer = or_default 64 buffer;
  jobs = [];
  closed = false;
  workers = or_default 2 workers;
  running = [];
}

abbrev pub sent : Job → Queue → Queue
sent job q = record q { jobs = q.jobs ++ job ∷ [] }

abbrev pub taken : Job → List Job → Queue → Queue
taken job rest q = record q { jobs = rest; running = job ∷ q.running }

abbrev pub finished : List Job → List Job → Queue → Queue
finished before after q = record q { running = before ++ after }

abbrev pub exited : ℕ → Queue → Queue
exited left q = record q { workers = left }

-- `send`: Enqueue finds room in the channel. `take`: a worker that is idle receives the next job.
-- `finish`: the handler of a job returns. `close`: Shutdown, once. `exit`: an idle worker finds the
-- channel closed and empty.
pub data Step (q : Queue) : Queue → Type 0 where
  send : (job : Job) → q.closed ≡ false → length q.jobs < q.buffer → Step q (sent job q)
  take :
      (job : Job) (rest : List Job)
      → q.jobs ≡ job ∷ rest
      → length q.running < q.workers
      → Step q (taken job rest q)
  finish :
      (job : Job) (before after : List Job)
      → q.running ≡ before ++ job ∷ after
      → Step q (finished before after q)
  close : Step q (record q { closed = true })
  exit :
      (left : ℕ)
      → q.closed ≡ true
      → q.jobs ≡ []
      → q.workers ≡ suc left
      → length q.running < q.workers
      → Step q (exited left q)

-- What a step puts into the channel, and what it takes out.
abbrev pub sends : {q q' : Queue} → Step q q' → List Job
sends (send job _ _) = job ∷ []
sends (take job rest _ _) = []
sends (finish job before after _) = []
sends close = []
sends (exit left _ _ _ _) = []

abbrev pub takes : {q q' : Queue} → Step q q' → List Job
takes (send job _ _) = []
takes (take job rest _ _) = job ∷ []
takes (finish job before after _) = []
takes close = []
takes (exit left _ _ _ _) = []

-- A run, with the jobs that were accepted and those that a worker took, each in their order.
pub data Run (q : Queue) : List Job → List Job → Queue → Type 0 where
  start : Run q [] [] q
  then :
      {accepted started : List Job} {q' q'' : Queue}
      → Run q accepted started q'
      → (s : Step q' q'') → Run q (accepted ++ sends s) (started ++ takes s) q''
