-- ===== src/Limits/Tests.antt =====
-- The limiter of services/ratelimit.go on two keys: two events in ten nanoseconds.
use gig.Base.{List, [], ◌∷◌, ◌≡◌, refl, arith}
use gig.Base.Int.{pos}
use gig.Base.Text.{Bytes}
use gig.Limits.{Event, asked, cleaned, RateLimiter, new_rate_limiter, run}
use gig.Limits.Cleaning.{without_cleaning, run-without_cleaning}
use gig.Limits.Window.{asked_for, allowed_for, run-allowed_for}
use Prim.Native.Nat.{min}

abbrev two_in_ten : RateLimiter
two_in_ten = new_rate_limiter (pos 2) 10

abbrev alice : Bytes
alice = b'a' ∷ []

abbrev bob : Bytes
bob = b'b' ∷ []

abbrev busy : List Event
busy = asked 100 alice ∷ asked 102 bob ∷ asked 103 alice ∷ cleaned 104 ∷ asked 105 alice ∷ []

run-without_cleaning_example : (run busy two_in_ten).0 ≡ (run (without_cleaning busy) two_in_ten).0
run-without_cleaning_example =
    run-without_cleaning 0 busy two_in_ten
      (omega arith, (omega arith, (omega arith, (omega arith, (omega arith, tt)))))

run-allowed_for_example :
    allowed_for alice busy (run busy two_in_ten).0 ≡ min (asked_for alice busy) 2
run-allowed_for_example =
    run-allowed_for 100 110 alice busy two_in_ten (omega arith) (omega arith)
      (
        omega arith,
        omega arith,
        (
          omega arith,
          omega arith,
          (omega arith, omega arith, (omega arith, omega arith, (omega arith, omega arith, tt))),
        ),
      )
      refl
