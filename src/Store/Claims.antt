-- ===== src/Store/Claims.antt =====
-- Which job ClaimJob of store/jobs.go picks: `ORDER BY run_at, id LIMIT 1` over the eligible ones.
use gig.Base.{
  ◌+◌, ◌≤◌, ◌<◌, All-imp, ℕ, ◌≡◌, refl, inl, inr, ◌⊎◌, Bool, true, false, Option, none, some, List,
  [], ◌∷◌, arith, All, if◌then◌else◌, Bool-cases,
}
use gig.Db.{Job, JobStatus, job_queued, job_failed, job_claimed, job_done, job_dead}
use gig.Store.Jobs.{is_eligible_in, is_eligible, comes_before, earlier, next_job}

-- The job stands in the list.
abbrev pub Occurs : Job → List Job → Type 0
Occurs j [] = ⊥
Occurs j (k ∷ ks) = (j ≡ k) ⊎ Occurs j ks

-- A job that may be claimed at a time: it is queued or failed and its time has come, or a worker claimed
-- it longer ago than the stale threshold.
abbrev pub IsDue : ℕ → ℕ → Job → Type 0
IsDue now stale j =
    (((j.status ≡ job_queued) ⊎ (j.status ≡ job_failed)) × (j.run_at ≤ now))
    ⊎ ((j.status ≡ job_claimed) × (t : ℕ) × (j.locked_at ≡ some t) × (t + stale < now))

-- By the time, and at the same time by the number.
abbrev pub IsNotAfter : Job → Job → Type 0
IsNotAfter j k = (j.run_at < k.run_at) ⊎ ((j.run_at ≡ k.run_at) × (j.id ≤ k.id))

-- Nothing is picked when no job is due; else a due job of the queue, which no due job comes before.
abbrev pub IsFirst : ℕ → ℕ → List Job → Option Job → Type 0
IsFirst now stale jobs none = All (λ k. ¬ IsDue now stale k) jobs
IsFirst now stale jobs (some j) =
    IsDue now stale j × Occurs j jobs × All (λ k. IsDue now stale k → IsNotAfter j k) jobs

due_in :
    (s : JobStatus) (now stale : ℕ) (locked : Option ℕ) (run_at : ℕ)
    → is_eligible_in s now stale locked run_at ≡ true
    → (((s ≡ job_queued) ⊎ (s ≡ job_failed)) × (run_at ≤ now))
      ⊎ ((s ≡ job_claimed) × (t : ℕ) × (locked ≡ some t) × (t + stale < now))
due_in job_queued now stale locked run_at e = inl (inl refl, ground arith)
due_in job_failed now stale locked run_at e = inl (inr refl, ground arith)
due_in job_claimed now stale none run_at e = absurd (ground arith)
due_in job_claimed now stale (some t) run_at e = inr (refl, t, refl, ground arith)
due_in job_done now stale locked run_at e = absurd (ground arith)
due_in job_dead now stale locked run_at e = absurd (ground arith)

eligible-IsDue : (now stale : ℕ) (j : Job) → is_eligible now stale j ≡ true → IsDue now stale j
eligible-IsDue now stale j e = due_in j.status now stale j.locked_at j.run_at e

due_eligible : (now stale : ℕ) (j : Job) → IsDue now stale j → is_eligible now stale j ≡ true
due_eligible now stale j (inl (inl e, h)) = rw e (ground arith)
due_eligible now stale j (inl (inr e, h)) = rw e (ground arith)
due_eligible now stale j (inr (e, t, at, h)) = rw (e, at) (ground arith)

not_after : (j k : Job) → comes_before k j ≡ false → IsNotAfter j k
not_after j k e = ground arith

-- The same, said by the tests of the model.
abbrev IsPicked : ℕ → ℕ → List Job → Option Job → Type 0
IsPicked now stale jobs none = All (λ k. is_eligible now stale k ≡ false) jobs
IsPicked now stale jobs (some j) =
    (is_eligible now stale j ≡ true)
    × Occurs j jobs
    × All (λ k. is_eligible now stale k ≡ true → comes_before k j ≡ false) jobs

-- `comes_before` is a strict order whose negation is transitive.
comes_before_irrefl : (j : Job) → comes_before j j ≡ false
comes_before_irrefl j = ground arith

comes_before_asym : (j k : Job) → comes_before k j ≡ true → comes_before j k ≡ false
comes_before_asym j k h = ground arith

comes_before_trans :
    (m k j : Job) → comes_before m k ≡ false → comes_before k j ≡ false → comes_before m j ≡ false
comes_before_trans m k j h g = ground arith

picked :
    (now stale : ℕ) (j : Job) (js : List Job) (r : Option Job) (b : Bool)
    → is_eligible now stale j ≡ b
    → IsPicked now stale js r
    → IsPicked now stale (j ∷ js) (if b then earlier j r else r)
picked now stale j js none true e h =
    (e, inl refl, (λ q. comes_before_irrefl j, All-imp js (λ k off on. absurd (grind arith)) h))
picked now stale j js (some k) true e h = elim (Bool-cases (comes_before k j)) [
  | inl sooner ↦ rw sooner (h.0, inr h.1, (λ q. comes_before_asym j k sooner, h.2))
  | inr later ↦ rw later (
    e,
    inl refl,
    (
      λ q. comes_before_irrefl j,
      All-imp js (λ m late on. comes_before_trans m k j (late on) later) h.2,
    ),
  )
]
picked now stale j js none false e h = (e, h)
picked now stale j js (some k) false e h = (h.0, inr h.1, (λ on. absurd (grind arith), h.2))

next_job-IsPicked :
    (now stale : ℕ) (jobs : List Job) → IsPicked now stale jobs (next_job now stale jobs)
unfolding next_job
next_job-IsPicked now stale [] = tt
next_job-IsPicked now stale (j ∷ js) =
    picked now stale j js (next_job now stale js) (is_eligible now stale j) refl
      (next_job-IsPicked now stale js)

not-IsDue : (now stale : ℕ) (k : Job) → is_eligible now stale k ≡ false → ¬ IsDue now stale k
not-IsDue now stale k off due = let on = due_eligible now stale k due in ground arith

IsFirst-of :
    (now stale : ℕ) (jobs : List Job) (r : Option Job)
    → IsPicked now stale jobs r
    → IsFirst now stale jobs r
IsFirst-of now stale jobs none h = All-imp jobs (λ k off. not-IsDue now stale k off) h
IsFirst-of now stale jobs (some j) (on, occurs, late) = (
  eligible-IsDue now stale j on,
  occurs,
  All-imp jobs (λ k later due. not_after j k (later (due_eligible now stale k due))) late,
)

-- The job that ClaimJob picks is due: it is queued or failed and its time has come, or it was claimed
-- longer ago than the stale threshold. It is in the queue, and no due job of the queue has an earlier
-- time, or the same time and a smaller number; none is picked only when no job is due.
pub next_job-IsFirst :
    (now stale : ℕ) (jobs : List Job) → IsFirst now stale jobs (next_job now stale jobs)
next_job-IsFirst now stale jobs =
    IsFirst-of now stale jobs (next_job now stale jobs) (next_job-IsPicked now stale jobs)
