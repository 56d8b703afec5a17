-- ===== src/Worker/Loop.antt =====
-- jobs.go: what the queue does with the next job, process and retryBackoff. A backoff is a number of
-- seconds. The jobs that a worker has in flight at the same time are run one after the other here.
use gig.Base.{ℕ, ◌^◌, Option, none, some, List, [], ◌∷◌, String, ltb, if◌then◌else◌}
use gig.Base.Result.{Result, ok, err}
use gig.Db.{Db, Job, StoreError}
use gig.Store.Jobs.{claim_job, complete_job, fail_job}

-- How a handler ends: without an error, with one, or by a panic that process recovers from.
pub data Outcome : Type 0 where
  succeeded : Outcome
  returned_error : String → Outcome
  panicked : String → Outcome

-- jobHandler
abbrev pub JobHandler : Type 0
JobHandler = Job → Db → Outcome × Db

-- `if exp > 6 { exp = 6 }` and `1<<uint(exp)` seconds.
abbrev pub retry_backoff : ℕ → ℕ
retry_backoff attempt = let exp = if ltb 6 attempt then 6 else attempt in 2 ^ exp

-- The queue: the handlers by the kind of job, the worker's name, the stale threshold, and what
-- fmt.Errorf makes of a panic and of a kind without a handler.
pub record JobQueue : Type 0 where
  pub handlers : String → Option JobHandler
  pub worker_id : ℕ
  pub stale_threshold : ℕ
  pub panic_text : String → String
  pub no_handler_text : String → String

-- What process does after the handler; the errors of its own calls are only logged.
unfoldable pub settle : JobQueue → Job → Outcome → Db → Db
unfolding fail_job complete_job
settle q job (panicked v) db = (fail_job job.id (q.panic_text v) (retry_backoff job.attempts) db).1
settle q job (returned_error e) db = (fail_job job.id e (retry_backoff job.attempts) db).1
settle q job succeeded db = (complete_job job.id db).1

abbrev pub run_handler : JobQueue → Job → Option JobHandler → Db → Db
run_handler q job none db = (fail_job job.id (q.no_handler_text job.kind) 0 db).1
run_handler q job (some h) db = let (outcome, db1) = h job db in settle q job outcome db1

-- process
unfoldable pub process : JobQueue → Job → Db → Db
unfolding settle fail_job
process q job db = run_handler q job (q.handlers job.kind) db

abbrev pub process_claimed : JobQueue → Result StoreError Job × Db → Db
process_claimed q (ok job, db) = process q job db
process_claimed q (err e, db) = db

-- One round of poll: a claim, and the job that it got.
unfoldable pub poll_once : JobQueue → Db → Db
unfolding claim_job process
poll_once q db = process_claimed q (claim_job q.worker_id q.stale_threshold db)

-- Rounds at the given times, while no call of the database fails.
unfoldable pub poll_at : JobQueue → List ℕ → Db → Db
unfolding poll_once
poll_at q [] db = db
poll_at q (now ∷ times) db = poll_at q times (poll_once q (record db { now = now; faults = [] }))
