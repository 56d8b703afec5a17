-- ===== src/Db/Rows.antt =====
-- The rows of the tables: the structs of store/*.go. Texts that are only compared are `String`s,
-- those that are trimmed, cut or lowered are bytes. Times are numbers.
use gig.Base.{ℕ, Bool, Option, String}
use gig.Base.Int.{ℤ}
use gig.Base.Text.{Bytes}
use gig.Status.{OrderStatus, PaymentStatus}
use gig.Ledger.{AccountKind, Direction}

pub record Order : Type 0 where
  pub id : ℕ
  pub buyer_id : ℕ
  pub seller_id : ℕ
  pub gig_id : ℕ
  pub status : OrderStatus
  pub requirements : Bytes
  pub revisions_used : ℕ
  pub revisions_allowed : ℕ
  pub subtotal_minor_units : ℤ
  pub platform_fee_minor_units : ℤ
  pub total_minor_units : ℤ
  pub currency : Bytes
  pub paid_at : Option ℕ
  pub delivered_at : Option ℕ
  pub accepted_at : Option ℕ
  pub cancelled_at : Option ℕ
  pub closed_at : Option ℕ
  pub created_at : ℕ
  pub updated_at : ℕ

pub data ItemKind : Type 0 where
  package_item addon_item : ItemKind

pub record OrderItemInput : Type 0 where
  pub kind : ItemKind
  pub name : Bytes
  pub description : Bytes
  pub price_minor_units : ℤ
  pub currency : Bytes
  pub delivery_days : Option ℕ

pub record OrderItem : Type 0 where
  pub id : ℕ
  pub order_id : ℕ
  pub item : OrderItemInput

pub record Delivery : Type 0 where
  pub id : ℕ
  pub order_id : ℕ
  pub seller_id : ℕ
  pub version : ℕ
  pub message : Bytes
  pub created_at : ℕ

pub record RevisionRequest : Type 0 where
  pub id : ℕ
  pub order_id : ℕ
  pub buyer_id : ℕ
  pub reason : Bytes
  pub created_at : ℕ

pub data CancellationStatus : Type 0 where
  cancellation_pending cancellation_approved cancellation_declined : CancellationStatus

pub record CancellationRequest : Type 0 where
  pub id : ℕ
  pub order_id : ℕ
  pub requested_by : ℕ
  pub reason : Bytes
  pub status : CancellationStatus
  pub resolved_at : Option ℕ
  pub created_at : ℕ

pub data DisputeStatus : Type 0 where
  dispute_open dispute_resolved : DisputeStatus

pub record Dispute : Type 0 where
  pub id : ℕ
  pub order_id : ℕ
  pub opened_by : ℕ
  pub reason : Bytes
  pub status : DisputeStatus
  pub decision : Bytes
  pub resolved_by : Option ℕ
  pub resolved_at : Option ℕ
  pub created_at : ℕ

pub record Review : Type 0 where
  pub id : ℕ
  pub order_id : ℕ
  pub gig_id : ℕ
  pub buyer_id : ℕ
  pub seller_id : ℕ
  pub rating : ℕ
  pub body : Bytes

pub data AttachmentKind : Type 0 where
  attachment_delivery attachment_dispute : AttachmentKind

pub record OrderAttachment : Type 0 where
  pub id : ℕ
  pub order_id : ℕ
  pub uploader_id : ℕ
  pub kind : AttachmentKind
  pub file_path : String
  pub file_name : String

pub record OrderMessage : Type 0 where
  pub id : ℕ
  pub order_id : ℕ
  pub sender_id : ℕ
  pub body : Bytes
  pub is_info_request : Bool

pub record PaymentIntent : Type 0 where
  pub id : ℕ
  pub order_id : ℕ
  pub provider : String
  pub provider_ref : String
  pub charge_ref : String
  pub method : String
  pub status : PaymentStatus
  pub amount_minor : ℤ
  pub currency : Bytes
  pub idempotency_key : String
  pub checkout_url : String
  pub expires_at : Option ℕ
  pub succeeded_at : Option ℕ
  pub failed_at : Option ℕ
  pub canceled_at : Option ℕ
  pub created_at : ℕ
  pub updated_at : ℕ

pub record PaymentAttempt : Type 0 where
  pub id : ℕ
  pub payment_intent_id : ℕ
  pub provider_status : PaymentStatus
  pub failure_code : String
  pub failure_message : String

pub data WebhookStatus : Type 0 where
  webhook_received webhook_processed webhook_failed : WebhookStatus

pub record WebhookEvent : Type 0 where
  pub id : ℕ
  pub provider : String
  pub event_id : String
  pub event_type : String
  pub payload : Bytes
  pub status : WebhookStatus
  pub attempts : ℕ

pub record Refund : Type 0 where
  pub id : ℕ
  pub order_id : ℕ
  pub payment_intent_id : ℕ
  pub requested_by : Option ℕ
  pub reason : Bytes
  pub amount_minor : ℤ
  pub currency : Bytes
  pub status : PaymentStatus
  pub provider_ref : String

pub record LedgerAccount : Type 0 where
  pub id : ℕ
  pub kind : AccountKind
  pub owner_id : Option ℕ
  pub currency : Bytes

pub record LedgerEntry : Type 0 where
  pub id : ℕ
  pub transaction_group : ℕ
  pub account_id : ℕ
  pub direction : Direction
  pub amount_minor : ℤ
  pub currency : Bytes
  pub order_id : Option ℕ
  pub description : Bytes

-- Of a seller's onboarding, what the payment provider reports.
pub record SellerOnboarding : Type 0 where
  pub stripe_account_id : String
  pub charges_enabled : Bool
  pub payouts_enabled : Bool

pub data JobStatus : Type 0 where
  job_queued job_claimed job_done job_failed job_dead : JobStatus

-- The payloads that the modelled callers enqueue.
pub data JobPayload : Type 0 where
  no_payload : JobPayload
  webhook_payload : String → String → JobPayload
  email_payload : ℕ → JobPayload

pub record Job : Type 0 where
  pub id : ℕ
  pub kind : String
  pub payload : JobPayload
  pub status : JobStatus
  pub attempts : ℕ
  pub max_attempts : ℕ
  pub run_at : ℕ
  pub locked_by : Option ℕ
  pub locked_at : Option ℕ
  pub last_error : Option String
  pub updated_at : ℕ

pub record Notification : Type 0 where
  pub id : ℕ
  pub user_id : ℕ
  pub kind : String
  pub order_id : ℕ

pub record AuditEntry : Type 0 where
  pub id : ℕ
  pub actor : Option ℕ
  pub action : String
  pub target_id : ℕ

pub data PayoutStatus : Type 0 where
  payout_queued payout_needs_manual_review payout_ready payout_completed payout_canceled :
      PayoutStatus

pub record Payout : Type 0 where
  pub id : ℕ
  pub seller_id : ℕ
  pub wallet_id : ℕ
  pub amount_minor : ℤ
  pub currency : Bytes
  pub network : Bytes
  pub asset : Bytes
  pub status : PayoutStatus
  pub tx_hash : Bytes
  pub reviewed_by : Option ℕ
  pub created_at : ℕ
  pub executed_at : Option ℕ
  pub updated_at : ℕ
