-- ===== src/Handlers/Payouts.antt =====
-- The payouts of handlers/payments.go: adminPayoutsPause, adminPayoutApprove and adminPayoutComplete.
use gig.Base.{ℕ, Bool, not, Option, none, some, [], if◌then◌else◌}
use gig.Base.Text.{Bytes, trim_space, is_empty}
use gig.Db.{
  Payout, payout_needs_manual_review, payout_ready, payout_completed, ◌>>=◌, ◌>>◌, pure, guard,
  branch,
}
use gig.Store.Payouts.{get_payout, transition_payout, set_payouts_paused}
use gig.Handlers.Response.{server_error, flash_error, Handler, or_render, audit}
use gig.Handlers.Access.{path_id}
use gig.Handlers.Orders.{form_or}
use gig.Handlers.Checkout.{is_high_value}

-- The form says whether to pause. The setting has no number, so that the audit entry names 0.
unfoldable pub admin_payouts_pause : ℕ → Option Bool → Handler (Unit {0})
admin_payouts_pause admin form = do
  paused ← form_or form server_error
  or_render (set_payouts_paused paused)
  audit (some admin) "payouts.pause_toggled" 0

-- `if payout, err := ...; err == nil && services.IsHighValue(payout.AmountMinor)`
abbrev pub alert_high_value : ℕ → Payout → Handler (Unit {0})
alert_high_value i p =
    if is_high_value p.amount_minor then audit none "fraud.high_value_alert" i else pure tt

unfoldable pub admin_payout_approve : ℕ → Option ℕ → Handler (Unit {0})
admin_payout_approve admin path = do
  i ← path_id path
  or_render (transition_payout i payout_needs_manual_review payout_ready (some admin) [])
  audit (some admin) "payout.approved" i
  branch (get_payout i) (alert_high_value i) (λ e. pure tt)

unfoldable pub admin_payout_complete : ℕ → Option ℕ → Option Bytes → Handler (Unit {0})
admin_payout_complete admin path form = do
  i ← path_id path
  text ← form_or form server_error
  let hash = trim_space text
  guard (not (is_empty hash)) (flash_error "A transaction hash is required.")
  or_render (transition_payout i payout_ready payout_completed (some admin) hash)
  audit (some admin) "payout.completed" i
