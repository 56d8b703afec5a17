-- ===== src/Lifecycle/QueueTests.antt =====
-- The job queue of jobs.go with a payment webhook whose event is missing.
use gig.Base.{◌≡◌, none, some, [], ◌∷◌}
use gig.Db.{Db, Job, job_queued, job_done, webhook_payload}
use gig.Lifecycle.Tests.{empty_shop, registry}
use gig.Worker.Loop.{Outcome, succeeded, JobHandler, JobQueue, returned_error}
use gig.Base.Result.{Result, ok, err}
use gig.Worker.{WorkerError, job_error}
use gig.Worker.Payments.{process_payment_webhook}

-- The job of a payment webhook as registerPaymentJobs registers it.
abbrev outcome_of : Result WorkerError (Unit {0}) → Outcome
outcome_of (ok done) = succeeded
outcome_of (err (job_error cause)) = returned_error cause

abbrev webhook_job : JobHandler
webhook_job job db =
    let (r, db1) = process_payment_webhook registry job.payload db in (outcome_of r, db1)

-- The event of the job was never stored.
abbrev NoEvents : Db → Type 0
NoEvents db = db.webhook_events ≡ []

abbrev queue : JobQueue
queue = record {
  handlers = λ kind. some webhook_job;
  worker_id = 7;
  stale_threshold = 300;
  panic_text = λ v. v;
  no_handler_text = λ kind. kind;
}

abbrev capture_job : Job
capture_job = record {
  id = 1;
  kind = "payment.webhook_process";
  payload = webhook_payload "stripe" "evt_1";
  status = job_queued;
  attempts = 0;
  max_attempts = 2;
  run_at = 1000;
  locked_by = none;
  locked_at = none;
  last_error = none;
  updated_at = 1000;
}

abbrev sent_job : Job
sent_job = record capture_job { id = 2; status = job_done; attempts = 1 }

abbrev queued : Db
queued = record empty_shop { jobs = capture_job ∷ sent_job ∷ [] }
