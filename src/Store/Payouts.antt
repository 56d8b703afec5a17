-- ===== src/Store/Payouts.antt =====
-- store/wallets.go: the payouts, and the flag that pauses them.
use gig.Base.{
  ℕ, ◌+◌, Bool, true, false, ◌&&◌, Option, none, some, [], ◌∷◌, ◌++◌, ◌==◌, if◌then◌else◌, find,
  update_where, count_where,
}
use gig.Base.Int.{ℤ}
use gig.Base.Text.{Bytes, is_empty}
use gig.Base.Result.{Result, ok, err}
use gig.Db.{
  StoreError, not_found, Action, statement, Payout, PayoutStatus, payout_queued,
  payout_needs_manual_review, payout_ready, payout_completed, payout_canceled,
}

abbrev pub has_payout_id : ℕ → Payout → Bool
has_payout_id i p = p.id == i

abbrev pub is_payout_status : PayoutStatus → PayoutStatus → Bool
is_payout_status payout_queued payout_queued = true
is_payout_status payout_needs_manual_review payout_needs_manual_review = true
is_payout_status payout_ready payout_ready = true
is_payout_status payout_completed payout_completed = true
is_payout_status payout_canceled payout_canceled = true
is_payout_status _ _ = false

abbrev pub payout_or_not_found : Option Payout → Result StoreError Payout
payout_or_not_found none = err not_found
payout_or_not_found (some p) = ok p

abbrev pub new_payout : ℕ → ℕ → ℕ → ℕ → ℤ → Bytes → Bytes → Bytes → PayoutStatus → Payout
new_payout id now seller wallet amount currency network asset initial = record {
  id = id;
  seller_id = seller;
  wallet_id = wallet;
  amount_minor = amount;
  currency = currency;
  network = network;
  asset = asset;
  status = initial;
  tx_hash = [];
  reviewed_by = none;
  created_at = now;
  executed_at = none;
  updated_at = now;
}

-- CreatePayout
unfoldable pub create_payout :
    ℕ → ℕ → ℤ → Bytes → Bytes → Bytes → PayoutStatus → Action StoreError ℕ
unfolding statement
create_payout seller wallet amount currency network asset initial = statement λ db. (
  ok db.next_id,
  record db {
    payouts =
        db.payouts
        ++ new_payout db.next_id db.now seller wallet amount currency network asset initial ∷ [];
    next_id = db.next_id + 1;
  },
)

-- GetPayout
unfoldable pub get_payout : ℕ → Action StoreError Payout
unfolding statement
get_payout i = statement λ db. (payout_or_not_found (find (has_payout_id i) db.payouts), db)

-- `COALESCE($4, reviewed_by)`
abbrev pub coalesce : Option ℕ → Option ℕ → Option ℕ
coalesce none old = old
coalesce (some a) old = some a

-- The SET clause.
unfoldable pub move_payout : ℕ → PayoutStatus → Option ℕ → Bytes → Payout → Payout
move_payout now to reviewer hash p = record p {
  status = to;
  reviewed_by = coalesce reviewer p.reviewed_by;
  tx_hash = if is_empty hash then p.tx_hash else hash;
  executed_at = if is_payout_status to payout_completed then some now else p.executed_at;
  updated_at = now;
}

-- `WHERE id = $1 AND status = $2`
abbrev pub is_payout_in : ℕ → PayoutStatus → Payout → Bool
is_payout_in i from p = p.id == i && is_payout_status from p.status

-- TransitionPayout
unfoldable pub transition_payout :
    ℕ → PayoutStatus → PayoutStatus → Option ℕ → Bytes → Action StoreError (Unit {0})
unfolding statement move_payout
transition_payout i from to reviewer hash = statement λ db. (
  if count_where (is_payout_in i from) db.payouts == 0 then err not_found else ok tt,
  record db {
    payouts = update_where (is_payout_in i from) (move_payout db.now to reviewer hash) db.payouts;
  },
)

-- SetPayoutsPaused
unfoldable pub set_payouts_paused : Bool → Action StoreError (Unit {0})
unfolding statement
set_payouts_paused paused = statement λ db. (ok tt, record db { payouts_paused = paused })
