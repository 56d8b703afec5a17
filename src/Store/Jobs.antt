-- ===== src/Store/Jobs.antt =====
-- store/jobs.go: the job queue in the table `jobs`.
use gig.Base.{
  ℕ, ◌+◌, ◌-◌, Bool, true, false, ◌&&◌, ◌||◌, Option, none, some, List, [], ◌∷◌, ◌++◌, String, ◌==◌,
  ltb, leb, if◌then◌else◌, find, update_where, count_where,
}
use gig.Base.Result.{Result, ok, err}
use gig.Db.{
  Db, StoreError, no_job, not_claimed, Action, statement, Job, JobStatus, job_queued, job_claimed,
  job_done, job_failed, job_dead, JobPayload,
}
use gig.Store.Orders.{before}

-- `if maxAttempts < 1 { maxAttempts = 1 }`
abbrev pub at_least_one : ℕ → ℕ
at_least_one n = if ltb n 1 then 1 else n

-- `if runAt.IsZero() { runAt = time.Now() }`
abbrev pub run_at_or_now : Option ℕ → ℕ → ℕ
run_at_or_now none now = now
run_at_or_now (some t) now = t

pub new_job : ℕ → ℕ → String → JobPayload → Option ℕ → ℕ → Job
new_job id now kind payload run_at max_attempts = record {
  id = id;
  kind = kind;
  payload = payload;
  status = job_queued;
  attempts = 0;
  max_attempts = at_least_one max_attempts;
  run_at = run_at_or_now run_at now;
  locked_by = none;
  locked_at = none;
  last_error = none;
  updated_at = now;
}

unfoldable pub enqueue_job : String → JobPayload → Option ℕ → ℕ → Action StoreError ℕ
unfolding statement new_job
enqueue_job kind payload run_at max_attempts = statement λ db. (
  ok db.next_id,
  record db {
    jobs = db.jobs ++ new_job db.next_id db.now kind payload run_at max_attempts ∷ [];
    next_id = db.next_id + 1;
  },
)

-- The WHERE clause of the claim. `locked_at < now() - stale` compares with a time before the epoch
-- when `now` is less than `stale`, and no row is that old.
abbrev pub is_eligible_in : JobStatus → ℕ → ℕ → Option ℕ → ℕ → Bool
is_eligible_in job_queued now stale locked run_at = leb run_at now
is_eligible_in job_failed now stale locked run_at = leb run_at now
is_eligible_in job_claimed now stale locked run_at = before locked (now - stale)
is_eligible_in job_done now stale locked run_at = false
is_eligible_in job_dead now stale locked run_at = false

abbrev pub is_eligible : ℕ → ℕ → Job → Bool
is_eligible now stale j = is_eligible_in j.status now stale j.locked_at j.run_at

-- `ORDER BY run_at, id`
abbrev pub comes_before : Job → Job → Bool
comes_before a b = ltb a.run_at b.run_at || (a.run_at == b.run_at && ltb a.id b.id)

abbrev pub earlier : Job → Option Job → Option Job
earlier j none = some j
earlier j (some k) = if comes_before k j then some k else some j

-- `LIMIT 1`
unfoldable pub next_job : ℕ → ℕ → List Job → Option Job
next_job now stale [] = none
next_job now stale (j ∷ js) =
    let rest = next_job now stale js in if is_eligible now stale j then earlier j rest else rest

unfoldable pub claim : ℕ → ℕ → Job → Job
claim worker now j = record j {
  status = job_claimed;
  locked_by = some worker;
  locked_at = some now;
  attempts = j.attempts + 1;
  updated_at = now;
}

abbrev pub has_job_id : ℕ → Job → Bool
has_job_id i j = j.id == i

abbrev pub claim_found : ℕ → Option Job → Db → Result StoreError Job × Db
claim_found worker none db = (err no_job, db)
claim_found worker (some j) db = (
  ok (claim worker db.now j),
  record db { jobs = update_where (has_job_id j.id) (claim worker db.now) db.jobs },
)

unfoldable pub claim_job : ℕ → ℕ → Action StoreError Job
unfolding statement next_job claim
claim_job worker stale = statement λ db. claim_found worker (next_job db.now stale db.jobs) db

abbrev pub is_claimed_status : JobStatus → Bool
is_claimed_status job_claimed = true
is_claimed_status _ = false

-- `WHERE id = $1 AND status = 'claimed'`
abbrev pub is_claimed : ℕ → Job → Bool
is_claimed i j = j.id == i && is_claimed_status j.status

pub complete : ℕ → Job → Job
complete now j = record j {
  status = job_done;
  locked_by = none;
  locked_at = none;
  updated_at = now;
}

unfoldable pub complete_job : ℕ → Action StoreError (Unit {0})
unfolding statement complete
complete_job i = statement λ db. (
  if count_where (is_claimed i) db.jobs == 0 then err not_claimed else ok tt,
  record db { jobs = update_where (is_claimed i) (complete db.now) db.jobs },
)

-- The CASE expressions of the failure: dead once the attempts are used up, else again later.
unfoldable pub fail : ℕ → String → ℕ → Job → Job
fail now cause backoff j = record j {
  status = if leb j.max_attempts j.attempts then job_dead else job_failed;
  locked_by = none;
  locked_at = none;
  last_error = some cause;
  run_at = if ltb j.attempts j.max_attempts then now + backoff else j.run_at;
  updated_at = now;
}

abbrev pub status_or_error : Option Job → Result StoreError JobStatus
status_or_error none = err not_claimed
status_or_error (some j) = ok j.status

unfoldable pub fail_job : ℕ → String → ℕ → Action StoreError JobStatus
unfolding statement fail
fail_job i cause backoff = statement λ db.
    let rows = update_where (is_claimed i) (fail db.now cause backoff) db.jobs in
    (
      if count_where (is_claimed i) db.jobs == 0
          then err not_claimed
          else status_or_error (find (has_job_id i) rows),
      record db { jobs = rows },
    )
