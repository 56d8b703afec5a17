-- ===== src/Handlers/Earnings.antt =====
-- releaseSellerEarnings of handlers/orders.go, which orders.go repeats for the worker.
use gig.Base.{if◌then◌else◌}
use gig.Base.Int.{pos, ◌-ℤ◌, leb_ℤ, wrap64}
use gig.Base.Text.{to_lower}
use gig.Base.Result.{Result, ok, err}
use gig.Status.{succeeded, payment_eq}
use gig.Ledger.{Entry, LedgerError, earnings_released}
use gig.Base.{List}
use gig.Db.{Order, PaymentIntent, Action, branch, pure, ignore}
use gig.Store.Payments.{latest_payment_intent_for_order}
use gig.Store.Ledger.{post_ledger_entries}

-- The entries are built first; an error of that is logged, and so is one of posting them.
abbrev pub post_built : {E : Type 0} → Result LedgerError (List Entry) → Action E (Unit {0})
post_built (ok es) = ignore (post_ledger_entries es)
post_built (err e) = pure tt

abbrev pub release_payable : {E : Type 0} → Order → PaymentIntent → Action E (Unit {0})
release_payable o intent =
    let payable = wrap64 (o.total_minor_units -ℤ o.platform_fee_minor_units) in
    if payment_eq intent.status succeeded
    then (if leb_ℤ payable (pos 0)
        then pure tt
        else post_built (earnings_released o.id o.seller_id payable (to_lower o.currency)))
    else pure tt

unfoldable pub release_seller_earnings : {E : Type 0} → Order → Action E (Unit {0})
release_seller_earnings o =
    branch (latest_payment_intent_for_order o.id) (release_payable o) (λ _. pure tt)
