-- ===== src/Limits/Cleaning.antt =====
-- Cleanup of services/ratelimit.go is not seen in the answers of Allow.
use gig.Base.{
  ℕ, ◌+◌, ◌≤◌, ◌<◌, Bool, true, List, [], ◌∷◌, Option, none, some, leb, Bool-cases, ◌≡◌, refl, ap,
  inl, inr, arith,
}
use gig.Base.Text.{Bytes, bytes_eq}
use gig.Limits.{
  Bucket, RateLimiter, put_bucket, is_expired, start_window, count_event, allow, keep_unexpired,
  cleanup, Event, asked, cleaned, run,
}

abbrev pub time_of : Event → ℕ
time_of (asked now key) = now
time_of (cleaned now) = now

-- The times of the events do not go back.
abbrev pub IsOrdered : ℕ → List Event → Type 0
IsOrdered now [] = Unit
IsOrdered now (e ∷ events) = (now ≤ time_of e) × IsOrdered (time_of e) events

unfoldable pub without_cleaning : List Event → List Event
without_cleaning [] = []
without_cleaning (asked now key ∷ events) = asked now key ∷ without_cleaning events
without_cleaning (cleaned now ∷ events) = without_cleaning events

-- Two buckets that no later call tells apart: the same, or one removed and the other expired.
data Alike (now : ℕ) : Option Bucket → Option Bucket → Type 0 where
  same : (b : Option Bucket) → Alike now b b
  removed : (b : Bucket) → b.reset < now → Alike now none (some b)

Alike-later : (now later : ℕ) (a b : Option Bucket) → now ≤ later → Alike now a b → Alike later a b
Alike-later now later a b h (same x) = same x
Alike-later now later a b h (removed x p) = removed x (omega arith)

record Related (now : ℕ) (a b : RateLimiter) : Type 0 where
  windows : a.window ≡ b.window
  limits : a.limit ≡ b.limit
  alike : (k : Bytes) → Alike now (a.buckets k) (b.buckets k)

put_bucket-Related :
    (now later : ℕ) (key : Bytes) (x y : Bucket) (a b : RateLimiter)
    → x ≡ y
    → now ≤ later
    → Related now a b
    → Related later (put_bucket key x a) (put_bucket key y b)
unfolding put_bucket
put_bucket-Related now later key x y a b p h r = record {
  windows = r.windows;
  limits = r.limits;
  alike = λ k. elim (Bool-cases (bytes_eq k key)) [
    | inl e ↦ rw (e, p) (same (some y))
    | inr e ↦ rw e (Alike-later now later (a.buckets k) (b.buckets k) h (r.alike k))
  ];
}

Agree : ℕ → (Bool × RateLimiter) → (Bool × RateLimiter) → Type 0
Agree later p q = (p.0 ≡ q.0) × Related later p.1 q.1

start_window-Agree :
    (now later : ℕ) (key : Bytes) (a b : RateLimiter)
    → now ≤ later
    → Related now a b
    → Agree later (start_window later key a) (start_window later key b)
unfolding Agree
start_window-Agree now later key a b h r = (
  refl,
  put_bucket-Related now later key _ _ a b
      (ap (λ w. record { count = 1; reset = later + w }) r.windows) h r,
)

count_event-Agree :
    (now later : ℕ) (key : Bytes) (a b : RateLimiter) (x y : Option Bucket)
    → now ≤ later
    → Related now a b
    → Alike now x y
    → Agree later (count_event later key a x) (count_event later key b y)
unfolding Agree
count_event-Agree now later key a b x y h r (same none) = start_window-Agree now later key a b h r
count_event-Agree now later key a b x y h r (same (some c)) =
    elim (Bool-cases (is_expired later c)) [
      | inl e ↦ rw e (start_window-Agree now later key a b h r)
      | inr e ↦
          rw e (ap (leb (c.count + 1)) r.limits, put_bucket-Related now later key _ _ a b refl h r)
    ]
count_event-Agree now later key a b x y h r (removed c p) =
    let e : is_expired later c ≡ true = ground arith in
    rw e (start_window-Agree now later key a b h r)

keep_unexpired-Alike :
    (now later : ℕ) (x y : Option Bucket)
    → now ≤ later
    → Alike now x y
    → Alike later (keep_unexpired later x) y
keep_unexpired-Alike now later x y h (same none) = same none
keep_unexpired-Alike now later x y h (same (some c)) = elim (Bool-cases (is_expired later c)) [
  | inl e ↦ rw e (removed c (grind arith))
  | inr e ↦ rw e (same (some c))
]
keep_unexpired-Alike now later x y h (removed c p) = removed c (omega arith)

cleanup-Related :
    (now later : ℕ) (a b : RateLimiter)
    → now ≤ later
    → Related now a b
    → Related later (cleanup later a) b
unfolding cleanup
cleanup-Related now later a b h r = record {
  windows = r.windows;
  limits = r.limits;
  alike = λ k. keep_unexpired-Alike now later (a.buckets k) (b.buckets k) h (r.alike k);
}

allow-Agree :
    (now later : ℕ) (key : Bytes) (a b : RateLimiter)
    → now ≤ later
    → Related now a b
    → Agree later (allow later key a) (allow later key b)
unfolding allow
allow-Agree now later key a b h r =
    count_event-Agree now later key a b (a.buckets key) (b.buckets key) h r (r.alike key)

run-Related :
    (now : ℕ) (events : List Event) (a b : RateLimiter)
    → IsOrdered now events
    → Related now a b
    → (run events a).0 ≡ (run (without_cleaning events) b).0
unfolding run without_cleaning Agree
run-Related now [] a b ordered r = refl
run-Related now (asked later key ∷ events) a b (h, ordered) r =
    let (answer, r1) = allow-Agree now later key a b h r in
    rw (answer, run-Related later events (allow later key a).1 (allow later key b).1 ordered r1)
      refl
run-Related now (cleaned later ∷ events) a b (h, ordered) r =
    run-Related later events (cleanup later a) b ordered (cleanup-Related now later a b h r)

-- At times that do not go back, the answers of Allow are those of a limiter that is never cleaned.
pub run-without_cleaning :
    (now : ℕ) (events : List Event) (rl : RateLimiter)
    → IsOrdered now events
    → (run events rl).0 ≡ (run (without_cleaning events) rl).0
run-without_cleaning now events rl ordered =
    run-Related now events rl rl ordered
      (record { windows = refl; limits = refl; alike = λ k. same (rl.buckets k) })
