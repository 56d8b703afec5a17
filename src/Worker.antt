-- ===== src/Worker.antt =====
-- orders.go and payments.go: the jobs that the worker runs.
pub mod Orders
pub mod Payments
pub mod Gap
pub mod Loop
pub mod Round
pub mod Dead
use gig.Base.{String}

-- An error of a job; the queue tries the job again.
pub data WorkerError : Type 0 where
  job_error : String → WorkerError
