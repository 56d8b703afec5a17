-- ===== src/Providers.antt =====
-- The interface of providers/provider.go and the registry of providers/registry.go. The adapters
-- behind it call outside services: a `Provider` stands for one, with any answers, and `none` is an
-- error.
use gig.Base.{ℕ, Bool, Option, String}
use gig.Base.Int.{ℤ}
use gig.Base.Text.{Bytes}
use gig.Status.{PaymentStatus}

-- A provider's view of one payment.
pub record Payment : Type 0 where
  pub status : PaymentStatus
  pub charge_ref : String
  pub failure_code : String
  pub failure_reason : String

pub record Account : Type 0 where
  pub account_id : String
  pub charges_enabled : Bool
  pub payouts_enabled : Bool

-- What a webhook's payload says.
pub record ParsedEvent : Type 0 where
  pub provider : String
  pub provider_ref : String
  pub account : Option Account
  pub payment : Option Payment

pub record Session : Type 0 where
  pub provider_ref : String
  pub checkout_url : String
  pub expires_at : Option ℕ

pub record RefundResult : Type 0 where
  pub status : PaymentStatus
  pub provider_ref : String

pub record Provider : Type 0 where
  pub name : String
  pub parse_event : Bytes → Option ParsedEvent
  pub fetch_payment : String → Option Payment
  pub create_payment : ℕ → ℤ → Bytes → String → Option Session
  pub refund : String → ℤ → Bytes → Bytes → String → Option RefundResult

-- The providers that the operator has set up.
abbrev pub Registry : Type 0
Registry = String → Option Provider
