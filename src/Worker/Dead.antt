-- ===== src/Worker/Dead.antt =====
-- A job of jobs.go whose handler always fails ends as a dead letter.
use gig.Base.{ℕ, ◌+◌, ◌≤◌, List, [], ◌∷◌, ◌≡◌, ◌⊎◌, arith}
use gig.Db.{Db, Job, job_queued, job_failed, job_dead}

-- A job that waits for its time.
abbrev pub IsWaiting : Job → Type 0
IsWaiting j = (j.status ≡ job_queued) ⊎ (j.status ≡ job_failed)

-- Times of which the first is not before the given one, and each is 64 seconds after the last one.
abbrev pub IsSpaced : ℕ → List ℕ → Type 0
IsSpaced start [] = Unit
IsSpaced start (now ∷ times) = (start ≤ now) × IsSpaced (now + 64) times

IsSpaced-sooner :
    (start sooner : ℕ) (times : List ℕ)
    → sooner ≤ start
    → IsSpaced start times
    → IsSpaced sooner times
IsSpaced-sooner start sooner [] h spaced = tt
IsSpaced-sooner start sooner (now ∷ times) h (first, spaced) = (omega arith, spaced)

-- The job at the head of the queue is dead, with all its attempts used.
abbrev pub EndsDead : Job → List Job → List Job → Type 0
EndsDead j rest jobs =
    (d : Job) × (jobs ≡ d ∷ rest)
    × (d.id ≡ j.id)
    × (d.status ≡ job_dead)
    × (d.attempts ≡ j.max_attempts)
