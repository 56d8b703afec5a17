-- ===== src/Ledger/Tests.antt =====
-- The ledger's theorems on concrete entries.
use gig.Base.{◌≡◌, ◌≢◌, ◌↔◌, refl, Bool, true, false, none, some, List, [], ◌∷◌, ◌++◌, All, arith}
use gig.Base.Int.{pos, ◌+ℤ◌, ◌-ℤ◌, ◌≤ℤ◌, ◌<ℤ◌, wrap64, IsInt64}
use gig.Base.Text.{Bytes, codes, bytes_eq}
use gig.Base.Result.{ok}
use gig.Ledger.{
  provider_clearing, platform_revenue, seller_pending, seller_available, refunds, debit, credit,
  Entry, entry, seller_account, validate, payment_captured, earnings_released, refund_issued,
}
use gig.Ledger.Net.{net, account_net, amount_at, IsPostable}
use gig.Ledger.Validate.{validate_iff}
use gig.Ledger.Capture.{
  payment_captured_iff, payment_captured-account_net, earnings_released_iff,
  earnings_released-account_net,
}
use gig.Ledger.Refund.{refund_issued_iff, refund_reverses_capture, refund_reverses_release}

abbrev usd : Bytes
usd = codes "usd"

-- A payment of 100.00 of which 10.00 is the fee.
abbrev captured_entries : List Entry
captured_entries =
    entry provider_clearing none debit (pos 10000) usd (some 7) (codes "payment captured")
    ∷ entry platform_revenue none credit (pos 1000) usd (some 7) (codes "platform fee")
    ∷ entry seller_pending (some 2) credit (pos 9000) usd (some 7)
        (codes "seller payable, pending acceptance")
    ∷ []

abbrev released_entries : List Entry
released_entries =
    entry seller_pending (some 2) debit (pos 9000) usd (some 7) (codes "seller earnings released")
    ∷ entry seller_available (some 2) credit (pos 9000) usd (some 7)
        (codes "seller earnings available")
    ∷ []

captured : payment_captured 7 2 (pos 10000) (pos 1000) usd ≡ ok captured_entries
unfolding payment_captured validate wrap64 ◌+ℤ◌ ◌-ℤ◌ bytes_eq
captured = refl

released : earnings_released 7 2 (pos 10000 -ℤ pos 1000) usd ≡ ok released_entries
unfolding earnings_released validate wrap64 ◌+ℤ◌ ◌-ℤ◌ bytes_eq
released = refl

abbrev refund_entries : Bool → List Entry
refund_entries available =
    entry refunds none debit (pos 10000) usd (some 7) (codes "refund issued")
    ∷ entry provider_clearing none credit (pos 10000) usd (some 7) (codes "refund routed to buyer")
    ∷ entry platform_revenue none debit (pos 1000) usd (some 7) (codes "platform fee refunded")
    ∷ entry (seller_account available) (some 2) debit (pos 9000) usd (some 7)
        (codes "seller payable refunded")
    ∷ entry refunds none credit (pos 10000) usd (some 7)
        (codes "refund funded from fee/payable shares")
    ∷ []

refunded_pending :
    refund_issued 7 2 (pos 10000) (pos 1000) (pos 10000 -ℤ pos 1000) false usd
    ≡ ok (refund_entries false)
unfolding refund_issued validate wrap64 ◌+ℤ◌ ◌-ℤ◌ bytes_eq
refunded_pending = refl

refunded_available :
    refund_issued 7 2 (pos 10000) (pos 1000) (pos 10000 -ℤ pos 1000) true usd
    ≡ ok (refund_entries true)
unfolding refund_issued validate wrap64 ◌+ℤ◌ ◌-ℤ◌ bytes_eq
refunded_available = refl

gross_fits : IsInt64 (pos 10000)
gross_fits = omega arith

fee_fits : IsInt64 (pos 1000)
fee_fits = omega arith

rest_fits : IsInt64 (pos 9000)
rest_fits = omega arith

validate_iff_example : (validate captured_entries ≡ ok tt) ↔ (
    (captured_entries ≢ [])
    × All IsPostable captured_entries
    × ((c : Bytes) → wrap64 (net c captured_entries) ≡ pos 0))
validate_iff_example = validate_iff captured_entries

payment_captured_iff_example :
    ((es : List Entry) × (payment_captured 7 2 (pos 10000) (pos 1000) usd ≡ ok es))
    ↔ ((pos 0 <ℤ pos 10000) × (pos 0 ≤ℤ pos 1000) × (pos 1000 ≤ℤ pos 10000))
payment_captured_iff_example =
    payment_captured_iff 7 2 (pos 10000) (pos 1000) usd gross_fits fee_fits

payment_captured-account_net_example :
    account_net (seller_pending, some 2, usd) captured_entries
    ≡ amount_at (seller_pending, some 2, usd) provider_clearing none usd (pos 0 -ℤ pos 10000)
      +ℤ (amount_at (seller_pending, some 2, usd) platform_revenue none usd (pos 1000)
          +ℤ amount_at
              (seller_pending, some 2, usd)
              seller_pending
              (some 2)
              usd
              (pos 10000 -ℤ pos 1000))
payment_captured-account_net_example =
    payment_captured-account_net 7 2 (pos 10000) (pos 1000) usd gross_fits fee_fits captured_entries
      captured (seller_pending, some 2, usd)

earnings_released_iff_example :
    ((es : List Entry) × (earnings_released 7 2 (pos 9000) usd ≡ ok es)) ↔ (pos 0 <ℤ pos 9000)
earnings_released_iff_example = earnings_released_iff 7 2 (pos 9000) usd

earnings_released-account_net_example :
    account_net (seller_available, some 2, usd) released_entries
    ≡ amount_at
        (seller_available, some 2, usd)
        seller_pending
        (some 2)
        usd
        (pos 0 -ℤ (pos 10000 -ℤ pos 1000))
      +ℤ amount_at
          (seller_available, some 2, usd)
          seller_available
          (some 2)
          usd
          (pos 10000 -ℤ pos 1000)
earnings_released-account_net_example =
    earnings_released-account_net 7 2 (pos 10000 -ℤ pos 1000) usd released_entries released
      (seller_available, some 2, usd)

refund_issued_iff_example :
    ((es : List Entry) × (refund_issued 7 2 (pos 10000) (pos 1000) (pos 9000) true usd ≡ ok es)) ↔ (
      (pos 0 <ℤ pos 10000)
      × (pos 0 ≤ℤ pos 1000)
      × (pos 0 ≤ℤ pos 9000)
      × (pos 1000 +ℤ pos 9000 ≡ pos 10000))
refund_issued_iff_example =
    refund_issued_iff 7 2 (pos 10000) (pos 1000) (pos 9000) true usd gross_fits fee_fits rest_fits

refund_reverses_capture_example :
    account_net (seller_pending, some 2, usd) (captured_entries ++ refund_entries false) ≡ pos 0
refund_reverses_capture_example =
    refund_reverses_capture 7 2 (pos 10000) (pos 1000) usd gross_fits fee_fits captured_entries
      (refund_entries false) captured refunded_pending (seller_pending, some 2, usd)

refund_reverses_release_example :
    account_net
      (seller_available, some 2, usd)
      (captured_entries ++ (released_entries ++ refund_entries true))
    ≡ pos 0
refund_reverses_release_example =
    refund_reverses_release 7 2 (pos 10000) (pos 1000) usd gross_fits fee_fits captured_entries
      released_entries (refund_entries true) captured released refunded_available
      (seller_available, some 2, usd)
