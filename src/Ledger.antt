-- ===== src/Ledger.antt =====
-- ledger/ledger.go: the double-entry postings of a business event, and the check that they balance.
-- Amounts are int64, so each sum and difference is wrapped as the machine wraps it.
pub mod Net
pub mod Validate
pub mod Capture
pub mod Refund
mod Tests
use gig.Base.{
  ℕ, ◌≡◌, Bool, true, false, ◌||◌, Option, none, some, List, [], ◌∷◌, ◌++◌, arith, if◌then◌else◌,
}
use gig.Base.Int.{ℤ, pos, ◌+ℤ◌, ◌-ℤ◌, leb_ℤ, ltb_ℤ, eqb_ℤ, wrap64}
use gig.Base.Text.{Bytes, bytes_eq, codes}
use gig.Base.Result.{Result, ok, err, ◌>>=◌, ◌>>◌, fail_if}

pub data AccountKind : Type 0 where
  platform_revenue seller_pending seller_available refunds reserves provider_clearing : AccountKind

-- A direction is a text; `other` is any but the two that are posted.
pub data Direction : Type 0 where
  debit credit : Direction
  other : Bytes → Direction

pub record Entry : Type 0 where
  pub account_kind : AccountKind
  pub owner_id : Option ℕ
  pub direction : Direction
  pub amount_minor : ℤ
  pub currency : Bytes
  pub order_id : Option ℕ
  pub description : Bytes

pub data LedgerError : Type 0 where
  gross_not_positive fee_out_of_range amount_not_positive shares_mismatch : LedgerError
  reason_required empty entry_not_positive bad_direction unbalanced : LedgerError

-- The map `balances`, in the order in which its keys were first written.
abbrev pub Balances : Type 0
Balances = List (Bytes × ℤ)

abbrev pub lookup : Bytes → Balances → Option ℤ
lookup c [] = none
lookup c ((k, v) ∷ m) = if bytes_eq c k then some v else lookup c m

-- A read of a missing key gives 0.
abbrev pub get : Bytes → Balances → ℤ
get c m = elim (lookup c m) [ none ↦ pos 0 | some v ↦ v ]

abbrev pub insert : Bytes → ℤ → Balances → Balances
insert c v [] = (c, v) ∷ []
insert c v ((k, w) ∷ m) = if bytes_eq c k then (k, v) ∷ m else (k, w) ∷ insert c v m

-- The `switch` on an entry's direction.
abbrev pub post_direction : Direction → Bytes → ℤ → Balances → Result LedgerError Balances
post_direction debit c a m = ok (insert c (wrap64 (get c m -ℤ a)) m)
post_direction credit c a m = ok (insert c (wrap64 (get c m +ℤ a)) m)
post_direction (other _) c a m = err bad_direction

-- The body of the first loop of `Validate`.
pub validate_entry : Entry → Balances → Result LedgerError Balances
validate_entry e m = do
  fail_if (leb_ℤ e.amount_minor (pos 0)) entry_not_positive
  post_direction e.direction e.currency e.amount_minor m

pub validate_loop : List Entry → Balances → Result LedgerError Balances
validate_loop [] m = ok m
validate_loop (e ∷ es) m = validate_entry e m >>= λ m'. validate_loop es m'

-- The second loop: the order of the keys decides only which currency the error names.
pub all_zero : Balances → Bool
all_zero [] = true
all_zero ((_, v) ∷ m) = if eqb_ℤ v (pos 0) then all_zero m else false

unfoldable pub validate : List Entry → Result LedgerError (Unit {0})
unfolding validate_loop validate_entry all_zero
validate [] = err empty
validate (e ∷ es) = do
  balances ← validate_loop (e ∷ es) []
  if all_zero balances then ok tt else err unbalanced

-- `return entries, Validate(entries)`, whose callers drop the entries on an error.
abbrev pub validated : List Entry → Result LedgerError (List Entry)
validated es = validate es >> ok es

-- An entry literal of the functions below.
abbrev pub entry : AccountKind → Option ℕ → Direction → ℤ → Bytes → Option ℕ → Bytes → Entry
entry kind owner dir amount currency order desc = record {
  account_kind = kind;
  owner_id = owner;
  direction = dir;
  amount_minor = amount;
  currency = currency;
  order_id = order;
  description = desc;
}

-- `if cond { entries = append(entries, e) }`
abbrev pub append_if : Bool → Entry → List Entry
append_if true e = e ∷ []
append_if false e = []

unfoldable pub payment_captured : ℕ → ℕ → ℤ → ℤ → Bytes → Result LedgerError (List Entry)
payment_captured order seller gross fee currency = do
  fail_if (leb_ℤ gross (pos 0)) gross_not_positive
  fail_if (ltb_ℤ fee (pos 0) || ltb_ℤ gross fee) fee_out_of_range
  let payable = wrap64 (gross -ℤ fee)
  validated (
      entry provider_clearing none debit gross currency (some order) (codes "payment captured")
      ∷ (append_if (ltb_ℤ (pos 0) fee)
            (entry platform_revenue none credit fee currency (some order) (codes "platform fee"))
          ++ append_if (ltb_ℤ (pos 0) payable) (
              entry seller_pending (some seller) credit payable currency (some order)
                (codes "seller payable, pending acceptance"))))

unfoldable pub earnings_released : ℕ → ℕ → ℤ → Bytes → Result LedgerError (List Entry)
earnings_released order seller amount currency = do
  fail_if (leb_ℤ amount (pos 0)) amount_not_positive
  validated (
      entry seller_pending (some seller) debit amount currency (some order)
        (codes "seller earnings released")
      ∷ entry seller_available (some seller) credit amount currency (some order)
          (codes "seller earnings available")
      ∷ [])

-- The account that a refund draws the seller's share from.
abbrev pub seller_account : Bool → AccountKind
seller_account true = seller_available
seller_account false = seller_pending

unfoldable pub refund_issued : ℕ → ℕ → ℤ → ℤ → ℤ → Bool → Bytes → Result LedgerError (List Entry)
refund_issued order seller amount fee_refund payable_refund funds_available currency = do
  fail_if (leb_ℤ amount (pos 0)) amount_not_positive
  let shares = wrap64 (fee_refund +ℤ payable_refund)
  fail_if (if eqb_ℤ shares amount then false else true) shares_mismatch
  validated (
      entry refunds none debit amount currency (some order) (codes "refund issued")
      ∷ entry provider_clearing none credit amount currency (some order)
          (codes "refund routed to buyer")
      ∷ (append_if (ltb_ℤ (pos 0) fee_refund) (
            entry platform_revenue none debit fee_refund currency (some order)
              (codes "platform fee refunded"))
          ++ (append_if (ltb_ℤ (pos 0) payable_refund) (
                entry (seller_account funds_available) (some seller) debit payable_refund currency
                  (some order) (codes "seller payable refunded"))
              ++ entry refunds none credit shares currency (some order)
                  (codes "refund funded from fee/payable shares")
                ∷ [])))

unfoldable pub manual_adjustment :
    AccountKind
    → Option ℕ
    → AccountKind
    → Option ℕ
    → ℤ
    → Bytes
    → Option ℕ
    → Bytes
    → Result LedgerError (List Entry)
manual_adjustment from_kind from_owner to_kind to_owner amount currency order reason = do
  fail_if (leb_ℤ amount (pos 0)) amount_not_positive
  fail_if (bytes_eq reason []) reason_required
  let desc = codes "manual adjustment: " ++ reason
  validated (
      entry from_kind from_owner debit amount currency order desc
      ∷ entry to_kind to_owner credit amount currency order desc
      ∷ [])
