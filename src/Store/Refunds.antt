-- ===== src/Store/Refunds.antt =====
-- store/payments.go: refunds.
use gig.Base.{
  ℕ, ◌+◌, Bool, ◌&&◌, ◌||◌, not, Option, [], ◌∷◌, ◌++◌, String, ◌==◌, if◌then◌else◌, find,
  update_where, count_where,
}
use gig.Base.Int.{ℤ}
use gig.Base.Text.{Bytes}
use gig.Base.Result.{ok, err}
use gig.Status.{PaymentStatus, pending, succeeded, failed as payment_failed, payment_eq}
use gig.Db.{StoreError, duplicate, failed, Action, statement, Refund}
use gig.Store.Orders.{or_not_found}

-- The unique index idx_refunds_order_not_failed of migrations/0011_refund_dedup.sql.
abbrev pub blocks_refund : ℕ → Refund → Bool
blocks_refund order r = r.order_id == order && not (payment_eq r.status payment_failed)

unfoldable pub create_refund : ℕ → ℕ → Option ℕ → Bytes → ℤ → Bytes → Action StoreError ℕ
unfolding statement
create_refund order intent requested_by reason amount currency = statement λ db.
    if count_where (blocks_refund order) db.refunds == 0
    then (
      ok db.next_id,
      record db {
        refunds =
            db.refunds
            ++ record {
              id = db.next_id;
              order_id = order;
              payment_intent_id = intent;
              requested_by = requested_by;
              reason = reason;
              amount_minor = amount;
              currency = currency;
              status = pending;
              provider_ref = "";
            }
              ∷ [];
        next_id = db.next_id + 1;
      },
    )
    else (err duplicate, db)

unfoldable pub get_refund_for_order : ℕ → Action StoreError Refund
unfolding statement
get_refund_for_order order = statement λ db. or_not_found (find (blocks_refund order) db.refunds) db

-- The constraint refunds_status_check of migrations/0006_payments.sql.
abbrev pub is_refund_status : PaymentStatus → Bool
is_refund_status s = payment_eq s pending || (payment_eq s succeeded || payment_eq s payment_failed)

abbrev pub has_refund_id : ℕ → Refund → Bool
has_refund_id i r = r.id == i

unfoldable pub set_refund_status : ℕ → PaymentStatus → String → Action StoreError (Unit {0})
unfolding statement
set_refund_status i to ref = statement λ db.
    if is_refund_status to || count_where (has_refund_id i) db.refunds == 0
    then (
      ok tt,
      record db {
        refunds =
            update_where (has_refund_id i) (λ r. record r { status = to; provider_ref = ref })
              db.refunds;
      },
    )
    else (err failed, db)
