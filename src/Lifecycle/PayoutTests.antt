-- ===== src/Lifecycle/PayoutTests.antt =====
-- A payout that is approved and then completed by an administrator.
use gig.Base.{ℕ, Bool, none, some, List, [], ◌∷◌}
use gig.Base.Int.{pos}
use gig.Base.Text.{codes}
use gig.Db.{Db, Payout, payout_needs_manual_review}
use gig.Lifecycle.Payouts.{
  KeepsPayout, payout_at, PayoutRequest, approve, complete, run_payouts, run_payouts-KeepsPayout,
}
use gig.Lifecycle.Tests.{empty_shop}

abbrev asked_payout : Payout
asked_payout = record {
  id = 4;
  seller_id = 7;
  wallet_id = 1;
  amount_minor = pos 250000;
  currency = b'U' ∷ b'S' ∷ b'D' ∷ [];
  network = codes "base";
  asset = codes "usdc";
  status = payout_needs_manual_review;
  tx_hash = [];
  reviewed_by = none;
  created_at = 100;
  executed_at = none;
  updated_at = 100;
}

abbrev with_payout : Db
with_payout = record empty_shop { payouts = asked_payout ∷ [] }

abbrev review : List (ℕ × List Bool × PayoutRequest)
review =
    (200, [], approve 1 (some 4)) ∷ (300, [], complete 1 (some 4) (some (b'0' ∷ b'x' ∷ []))) ∷ []

run_payouts-KeepsPayout_example :
    KeepsPayout (payout_at 4 with_payout) (payout_at 4 (run_payouts review with_payout))
run_payouts-KeepsPayout_example = run_payouts-KeepsPayout 4 review with_payout
