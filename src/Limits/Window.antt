-- ===== src/Limits/Window.antt =====
-- How many events of a key the limiter of services/ratelimit.go allows in one window.
use gig.Base.{
  ℕ, zero, suc, ◌+◌, ◌≤◌, Bool, false, ◌&&◌, List, [], ◌∷◌, Option, none, some, if◌then◌else◌, leb,
  Bool-cases, ◌≡◌, refl, ap, inl, inr, arith,
}
use Prim.Native.Nat.{min}
use gig.Base.Text.{Bytes, bytes_eq, bytes_eq_iff}
use mathlib.Core.Path.{subst}
use gig.Limits.{
  Bucket, RateLimiter, put_bucket, is_expired, count_event, allow, cleanup, Event, asked, cleaned,
  run,
}
use gig.Limits.Cleaning.{time_of}

-- How often the key is asked for, and how often it is allowed.
unfoldable pub asked_for : Bytes → List Event → ℕ
asked_for key [] = 0
asked_for key (asked now k ∷ events) =
    let n = asked_for key events in if bytes_eq key k then suc n else n
asked_for key (cleaned now ∷ events) = asked_for key events

unfoldable pub allowed_for : Bytes → List Event → List Bool → ℕ
allowed_for key [] answers = 0
allowed_for key (asked now k ∷ events) [] = 0
allowed_for key (asked now k ∷ events) (answer ∷ answers) =
    let n = allowed_for key events answers in if bytes_eq key k && answer then suc n else n
allowed_for key (cleaned now ∷ events) answers = allowed_for key events answers

-- All events lie between two times.
abbrev pub IsWithin : ℕ → ℕ → List Event → Type 0
IsWithin lo hi [] = Unit
IsWithin lo hi (e ∷ events) = (lo ≤ time_of e) × (time_of e ≤ hi) × IsWithin lo hi events

-- `used` events of the key are counted, in a bucket that lasts until `hi` at least.
Counts : ℕ → Bytes → RateLimiter → ℕ → Type 0
Counts hi key rl zero = rl.buckets key ≡ none
Counts hi key rl (suc n) =
    (b : Bucket) × (rl.buckets key ≡ some b) × (b.count ≡ suc n) × (hi ≤ b.reset)

put_bucket_same :
    (key : Bytes) (b : Bucket) (rl : RateLimiter) → (put_bucket key b rl).buckets key ≡ some b
unfolding put_bucket
put_bucket_same key b rl = rw ((bytes_eq_iff key key).1 refl) refl

-- A call for the key answers whether the limit is reached, and counts one more.
allow-Counts :
    (lo hi now : ℕ) (key : Bytes) (rl : RateLimiter) (used : ℕ)
    → 1 ≤ rl.limit
    → hi ≤ lo + rl.window
    → lo ≤ now
    → now ≤ hi
    → Counts hi key rl used
    → ((allow now key rl).0 ≡ leb (suc used) rl.limit)
      × Counts hi key (allow now key rl).1 (suc used)
unfolding allow Counts
allow-Counts lo hi now key rl zero positive wide after before h =
    rw h (ground arith, (_, put_bucket_same key _ rl, refl, omega arith))
allow-Counts lo hi now key rl (suc n) positive wide after before (b, found, count, lasts) =
    let live : is_expired now b ≡ false = ground arith in
    rw (found, live)
      (ap (λ c. leb c rl.limit) (omega arith), (_, put_bucket_same key _ rl, omega arith, lasts))

put_bucket-Counts :
    (hi used : ℕ) (key other : Bytes) (b : Bucket) (rl : RateLimiter)
    → bytes_eq key other ≡ false
    → Counts hi key rl used
    → Counts hi key (put_bucket other b rl) used
unfolding Counts put_bucket
put_bucket-Counts hi zero key other b rl e h = rw e h
put_bucket-Counts hi (suc n) key other b rl e h = rw e h

count_event-Counts :
    (hi now used : ℕ) (key other : Bytes) (rl : RateLimiter) (found : Option Bucket)
    → bytes_eq key other ≡ false
    → Counts hi key rl used
    → Counts hi key (count_event now other rl found).1 used
count_event-Counts hi now used key other rl none e h = put_bucket-Counts hi used key other _ rl e h
count_event-Counts hi now used key other rl (some b) e h = elim (Bool-cases (is_expired now b)) [
  | inl p ↦ rw p (put_bucket-Counts hi used key other _ rl e h)
  | inr p ↦ rw p (put_bucket-Counts hi used key other _ rl e h)
]

cleanup-Counts :
    (hi now used : ℕ) (key : Bytes) (rl : RateLimiter)
    → now ≤ hi
    → Counts hi key rl used
    → Counts hi key (cleanup now rl) used
unfolding Counts cleanup
cleanup-Counts hi now zero key rl before h = rw h refl
cleanup-Counts hi now (suc n) key rl before (b, found, count, lasts) =
    let live : is_expired now b ≡ false = ground arith in rw (found, live) (b, refl, count, lasts)

count_event_fixed :
    (now : ℕ) (key : Bytes) (rl : RateLimiter) (found : Option Bucket)
    → ((count_event now key rl found).1.limit ≡ rl.limit)
      × ((count_event now key rl found).1.window ≡ rl.window)
unfolding put_bucket
count_event_fixed now key rl none = (refl, refl)
count_event_fixed now key rl (some b) = elim (Bool-cases (is_expired now b)) [
  | inl p ↦ rw p (refl, refl)
  | inr p ↦ rw p (refl, refl)
]

allow_fixed :
    (now : ℕ) (key : Bytes) (rl : RateLimiter)
    → ((allow now key rl).1.limit ≡ rl.limit) × ((allow now key rl).1.window ≡ rl.window)
unfolding allow
allow_fixed now key rl = count_event_fixed now key rl (rl.buckets key)

tally :
    (used calls allowed limit : ℕ)
    → allowed + min (suc used) limit ≡ min (suc used + calls) limit
    → (if leb (suc used) limit then suc allowed else allowed) + min used limit
      ≡ min (used + suc calls) limit
tally used calls allowed limit h = ground arith

Counted : ℕ → ℕ → Bytes → RateLimiter → ℕ → Bytes → Type 0
Counted hi now key rl used k =
    ((allow now k rl).0 ≡ leb (suc used) rl.limit) × Counts hi key (allow now k rl).1 (suc used)

run-Counts :
    (lo hi used : ℕ) (key : Bytes) (events : List Event) (rl : RateLimiter)
    → 1 ≤ rl.limit
    → hi ≤ lo + rl.window
    → IsWithin lo hi events
    → Counts hi key rl used
    → allowed_for key events (run events rl).0 + min used rl.limit
      ≡ min (used + asked_for key events) rl.limit
unfolding run asked_for allowed_for allow cleanup Counted
run-Counts lo hi used key [] rl positive wide within h = omega arith
run-Counts lo hi used key (cleaned now ∷ events) rl positive wide (after, before, within) h =
    run-Counts lo hi used key events (cleanup now rl) positive wide within
      (cleanup-Counts hi now used key rl before h)
run-Counts lo hi used key (asked now k ∷ events) rl positive wide (after, before, within) h =
    let next = (allow now k rl).1 in
    let (limit, window) = allow_fixed now k rl in
    elim (Bool-cases (bytes_eq key k)) [
      | inl e ↦
          let (answer, counted) =
            subst (λ k. Counted hi now key rl used k) ((bytes_eq_iff key k).0 e)
              (allow-Counts lo hi now key rl used positive wide after before h) in
          let rest =
            run-Counts lo hi (suc used) key events next (omega (arith, limit))
              (omega (arith, window)) within counted in
          rw (e, answer)
            (tally used (asked_for key events) (allowed_for key events (run events next).0) rl.limit
              (subst
                (λ l.
                  allowed_for key events (run events next).0 + min (suc used) l
                  ≡ min (suc used + asked_for key events) l)
                limit rest))
      | inr e ↦
          let rest =
            run-Counts lo hi used key events next (omega (arith, limit)) (omega (arith, window))
              within (count_event-Counts hi now used key k rl (rl.buckets k) e h) in
          rw e (
            subst
              (λ l.
                allowed_for key events (run events next).0 + min used l
                ≡ min (used + asked_for key events) l)
              limit rest)
    ]

-- Within one window, from a state without a bucket for the key, with calls for other keys and
-- cleanings in between: of the events for the key as many are allowed as were asked for, up to the
-- limit.
pub run-allowed_for :
    (lo hi : ℕ) (key : Bytes) (events : List Event) (rl : RateLimiter)
    → 1 ≤ rl.limit
    → hi ≤ lo + rl.window
    → IsWithin lo hi events
    → rl.buckets key ≡ none
    → allowed_for key events (run events rl).0 ≡ min (asked_for key events) rl.limit
unfolding Counts
run-allowed_for lo hi key events rl positive wide within fresh =
    omega (arith, run-Counts lo hi 0 key events rl positive wide within fresh)
