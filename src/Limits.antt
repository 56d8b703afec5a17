-- ===== src/Limits.antt =====
-- services/ratelimit.go: the fixed-window limiter. A time is a number of nanoseconds. The map of
-- buckets is a function from keys, and the counts stay far below 2 ^ 63, so they do not wrap.
mod Window
mod Cleaning
mod Tests
use gig.Base.{
  ℕ, zero, suc, ◌+◌, Bool, true, false, not, List, [], ◌∷◌, ◌++◌, Option, none, some, ltb, leb,
  if◌then◌else◌,
}
use gig.Base.Int.{ℤ, pos, negsuc}
use gig.Base.Text.{Bytes, bytes_eq}

-- bucket
pub record Bucket : Type 0 where
  pub count : ℕ
  pub reset : ℕ

-- RateLimiter
pub record RateLimiter : Type 0 where
  pub window : ℕ
  pub limit : ℕ
  pub buckets : Bytes → Option Bucket

-- `if limit < 1 { limit = 1 }`
abbrev pub positive_limit : ℤ → ℕ
positive_limit (pos n) = if ltb n 1 then 1 else n
positive_limit (negsuc n) = 1

abbrev pub new_rate_limiter : ℤ → ℕ → RateLimiter
new_rate_limiter l w = record { window = w; limit = positive_limit l; buckets = λ key. none }

-- `rl.buckets[key] = b`
unfoldable pub put_bucket : Bytes → Bucket → RateLimiter → RateLimiter
put_bucket key b rl = record rl { buckets = λ k. if bytes_eq k key then some b else rl.buckets k }

-- `now.After(b.reset)`
abbrev pub is_expired : ℕ → Bucket → Bool
is_expired now b = ltb b.reset now

abbrev pub start_window : ℕ → Bytes → RateLimiter → Bool × RateLimiter
start_window now key rl = (true, put_bucket key (record { count = 1; reset = now + rl.window }) rl)

abbrev pub count_event : ℕ → Bytes → RateLimiter → Option Bucket → Bool × RateLimiter
count_event now key rl none = start_window now key rl
count_event now key rl (some b) =
    if is_expired now b
    then start_window now key rl
    else (leb (b.count + 1) rl.limit, put_bucket key (record b { count = b.count + 1 }) rl)

-- Allow
unfoldable pub allow : ℕ → Bytes → RateLimiter → Bool × RateLimiter
unfolding put_bucket
allow now key rl = count_event now key rl (rl.buckets key)

abbrev pub keep_unexpired : ℕ → Option Bucket → Option Bucket
keep_unexpired now none = none
keep_unexpired now (some b) = if is_expired now b then none else some b

-- Cleanup
unfoldable pub cleanup : ℕ → RateLimiter → RateLimiter
cleanup now rl = record rl { buckets = λ k. keep_unexpired now (rl.buckets k) }

-- What is asked of a limiter.
pub data Event : Type 0 where
  asked : ℕ → Bytes → Event
  cleaned : ℕ → Event

-- The answers to a sequence of events, and the limiter after it.
unfoldable pub run : List Event → RateLimiter → List Bool × RateLimiter
unfolding allow cleanup
run [] rl = ([], rl)
run (asked now key ∷ events) rl =
    let (answer, rl1) = allow now key rl in
    let (answers, rl2) = run events rl1 in (answer ∷ answers, rl2)
run (cleaned now ∷ events) rl = run events (cleanup now rl)
