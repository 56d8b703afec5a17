-- ===== src/Worker/Round.antt =====
-- One round of the queue of jobs.go for a job whose handler fails.
use gig.Base.{
  All-imp, ℕ, ◌≤◌, Bool, true, false, Option, none, some, List, [], ◌∷◌, All, String, ltb, ◌==◌,
  ==_refl, Bool-cases, update_where, ◌≡◌, refl, ◌∙◌, ◌≢◌, ◌⊎◌, inl, inr, arith,
}
use gig.Base.Result.{ok}
use gig.Db.{Db, Job, JobPayload, job_done, job_dead, statement}
use native.Mathlib.Nat.{pow-le-pow_right}
use gig.Store.Jobs.{is_eligible, next_job, claim, claim_job, has_job_id, is_claimed, fail, fail_job}
use gig.Worker.Loop.{
  Outcome, succeeded, returned_error, panicked, JobHandler, JobQueue, retry_backoff, settle,
  run_handler, process, poll_once,
}

-- A job that is done or dead, and is not the given one.
abbrev pub IsOver : Job → Job → Type 0
IsOver j k = ((k.id == j.id) ≡ false) × ((k.status ≡ job_done) ⊎ (k.status ≡ job_dead))

-- The condition says nothing of the queue, the time and the faults.
abbrev pub IsFree : (Db → Type 0) → Type 0
IsFree I =
    (db : Db) (jobs : List Job) (now : ℕ) (faults : List Bool)
    → I db
    → I (record db { jobs = jobs; now = now; faults = faults })

-- No handler, or one that does not succeed on a job with the payload while the condition holds and no
-- call fails. It keeps the condition and leaves the queue alone; the other tables are its own.
abbrev pub NeverSucceeds : (Db → Type 0) → JobPayload → Option JobHandler → Type 0
NeverSucceeds I wanted none = Unit
NeverSucceeds I wanted (some h) =
    (k : Job) (db : Db)
    → k.payload ≡ wanted
    → db.faults ≡ []
    → I db
    → ((h k db).0 ≢ succeeded)
      × ((h k db).1.jobs ≡ db.jobs)
      × ((h k db).1.now ≡ db.now)
      × ((h k db).1.faults ≡ [])
      × I (h k db).1

pub over_eligible : (now stale : ℕ) (j k : Job) → IsOver j k → is_eligible now stale k ≡ false
over_eligible now stale j k (other, inl e) = rw e refl
over_eligible now stale j k (other, inr e) = rw e refl

pub over_claimed : (i : ℕ) (j k : Job) → IsOver j k → is_claimed i k ≡ false
over_claimed i j k (other, inl e) = rw e (ground arith)
over_claimed i j k (other, inr e) = rw e (ground arith)

pub next_job_over :
    (now stale : ℕ) (j : Job) (rest : List Job)
    → All (IsOver j) rest
    → next_job now stale rest ≡ none
unfolding next_job
next_job_over now stale j [] over = refl
next_job_over now stale j (k ∷ rest) (first, over) =
    rw (over_eligible now stale j k first, next_job_over now stale j rest over) refl

pub update_where_none :
    (p : Job → Bool) (f : Job → Job) (rest : List Job)
    → All (λ k. p k ≡ false) rest
    → update_where p f rest ≡ rest
update_where_none p f [] h = refl
update_where_none p f (k ∷ rest) (first, h) = rw (first, update_where_none p f rest h) refl

pub claim_job_first :
    (worker stale : ℕ) (db : Db) (j : Job) (rest : List Job)
    → db.jobs ≡ j ∷ rest
    → db.faults ≡ []
    → is_eligible db.now stale j ≡ true
    → All (IsOver j) rest
    → claim_job worker stale db
      ≡ (ok (claim worker db.now j), record db { jobs = claim worker db.now j ∷ rest })
unfolding claim_job statement next_job
claim_job_first worker stale db j rest jobs faults eligible over =
    rw
      (
        faults,
        jobs,
        eligible,
        next_job_over db.now stale j rest over,
        ==_refl j.id,
        update_where_none (has_job_id j.id) (claim worker db.now) rest
            (All-imp rest (λ k h. h.0) over),
      )
      refl

-- A retry is never more than 64 seconds away.
pub retry_backoff_bound : (attempt : ℕ) → retry_backoff attempt ≤ 64
retry_backoff_bound attempt = elim (Bool-cases (ltb 6 attempt)) [
  | inl e ↦ rw e (omega arith)
  | inr e ↦ rw e (pow-le-pow_right {n = 2} (omega arith) {j = 6} (grind arith))
]

-- The call on the job at the head of the queue, which is claimed.
pub fail_job_first :
    (cause : String) (backoff : ℕ) (db : Db) (j k : Job) (rest : List Job)
    → db.jobs ≡ k ∷ rest
    → db.faults ≡ []
    → is_claimed k.id k ≡ true
    → All (IsOver j) rest
    → (fail_job k.id cause backoff db).1 ≡ record db { jobs = fail db.now cause backoff k ∷ rest }
unfolding fail_job statement
fail_job_first cause backoff db j k rest jobs faults claimed over =
    rw
      (
        faults,
        jobs,
        claimed,
        update_where_none (is_claimed k.id) (fail db.now cause backoff) rest
            (All-imp rest (λ m h. over_claimed k.id j m h) over),
      )
      refl

module _ (I : Db → Type 0) (free : IsFree I) where
  -- What is left after a failure: the job again, for some text and some backoff, and the condition.
  unfoldable pub LeavesFailed : ℕ → Job → List Job → Db → Type 0
  LeavesFailed now k rest d =
      (cause : String) × (backoff : ℕ) × (backoff ≤ 64)
      × (d.jobs ≡ fail now cause backoff k ∷ rest)
      × I d

  failed_by :
      (cause : String) (backoff : ℕ) (before db : Db) (j k : Job) (rest : List Job)
      → backoff ≤ 64
      → db.jobs ≡ k ∷ rest
      → db.now ≡ before.now
      → db.faults ≡ []
      → is_claimed k.id k ≡ true
      → All (IsOver j) rest
      → I db
      → LeavesFailed before.now k rest (fail_job k.id cause backoff db).1
  unfolding LeavesFailed
  failed_by cause backoff before db j k rest small jobs now faults claimed over holds = (
    cause,
    backoff,
    small,
    rw (fail_job_first cause backoff db j k rest jobs faults claimed over, now) refl,
    rw (fail_job_first cause backoff db j k rest jobs faults claimed over)
        (free db (fail db.now cause backoff k ∷ rest) db.now db.faults holds),
  )

  settle_fails :
      (q : JobQueue) (before db : Db) (j k : Job) (rest : List Job) (outcome : Outcome)
      → outcome ≢ succeeded
      → db.jobs ≡ k ∷ rest
      → db.now ≡ before.now
      → db.faults ≡ []
      → is_claimed k.id k ≡ true
      → All (IsOver j) rest
      → I db
      → LeavesFailed before.now k rest (settle q k outcome db)
  unfolding settle
  settle_fails q before db j k rest succeeded fails jobs now faults claimed over holds =
      absurd (fails refl)
  settle_fails q before db j k rest (returned_error e) fails jobs now faults claimed over holds =
      failed_by e _ before db j k rest (retry_backoff_bound k.attempts) jobs now faults claimed over
        holds
  settle_fails q before db j k rest (panicked v) fails jobs now faults claimed over holds =
      failed_by (q.panic_text v) _ before db j k rest (retry_backoff_bound k.attempts) jobs now
        faults claimed over holds

  process_fails :
      (q : JobQueue) (db : Db) (j k : Job) (rest : List Job) (h : Option JobHandler)
      → NeverSucceeds I k.payload h
      → db.jobs ≡ k ∷ rest
      → db.faults ≡ []
      → is_claimed k.id k ≡ true
      → All (IsOver j) rest
      → I db
      → LeavesFailed db.now k rest (run_handler q k h db)
  process_fails q db j k rest none never jobs faults claimed over holds =
      failed_by (q.no_handler_text k.kind) 0 db db j k rest (omega arith) jobs refl faults claimed
        over holds
  process_fails q db j k rest (some h) never jobs faults claimed over holds =
      let (fails, same_jobs, same_now, no_faults, kept) = never k db refl faults holds in
      settle_fails q db (h k db).1 j k rest (h k db).0 fails (same_jobs ∙ jobs) same_now no_faults
        claimed over kept

  pub poll_once_fails :
      (q : JobQueue) (db : Db) (j : Job) (rest : List Job)
      → NeverSucceeds I j.payload (q.handlers j.kind)
      → db.jobs ≡ j ∷ rest
      → db.faults ≡ []
      → is_eligible db.now q.stale_threshold j ≡ true
      → All (IsOver j) rest
      → I db
      → LeavesFailed db.now (claim q.worker_id db.now j) rest (poll_once q db)
  unfolding poll_once process claim
  poll_once_fails q db j rest never jobs faults eligible over holds =
      rw (claim_job_first q.worker_id q.stale_threshold db j rest jobs faults eligible over) (
        process_fails q (record db { jobs = claim q.worker_id db.now j ∷ rest }) j
          (claim q.worker_id db.now j) rest (q.handlers j.kind) never refl faults (ground arith)
          over (free db (claim q.worker_id db.now j ∷ rest) db.now db.faults holds))
