-- ===== src/Handlers/Adjustment.antt =====
-- adminLedgerAdjust of handlers/admin.go: an administrator's posting between two accounts.
use gig.Base.{ℕ, not, ◌||◌, Option, none, some, List}
use gig.Base.Int.{ℤ, pos, leb_ℤ}
use gig.Base.Text.{Bytes, trim_space, is_empty, to_lower}
use gig.Base.Result.{Result, ok, err}
use gig.Ledger.{AccountKind, Entry, LedgerError, manual_adjustment}
use gig.Db.{◌>>=◌, ◌>>◌, pure, raise, guard}
use gig.Store.Ledger.{post_ledger_entries}
use gig.Handlers.Response.{server_error, flash_error, Handler, or_render, audit}
use gig.Handlers.Orders.{form_or}

-- The form: a kind is `none` when its text is no kind of account, an amount when it is no number.
pub record Adjustment : Type 0 where
  pub from_kind : Option AccountKind
  pub to_kind : Option AccountKind
  pub amount : Option ℤ
  pub currency : Bytes
  pub reason : Bytes
  pub from_owner : Option ℕ
  pub to_owner : Option ℕ
  pub order_id : Option ℕ

abbrev pub positive_amount : Option ℤ → Handler ℤ
positive_amount none = raise (flash_error "A positive amount is required.")
positive_amount (some n) = do
  guard (not (leb_ℤ n (pos 0))) (flash_error "A positive amount is required.")
  pure n

-- The table refuses an account of another kind.
abbrev pub known_kind : Option AccountKind → Handler AccountKind
known_kind none = raise server_error
known_kind (some kind) = pure kind

abbrev pub balanced_or_flash : Result LedgerError (List Entry) → Handler (List Entry)
balanced_or_flash (ok es) = pure es
balanced_or_flash (err e) = raise (flash_error "Adjustment does not balance.")

unfoldable pub admin_ledger_adjust : ℕ → Option Adjustment → Handler (Unit {0})
admin_ledger_adjust admin form = do
  a ← form_or form server_error
  amount ← positive_amount a.amount
  let currency = to_lower (trim_space a.currency)
  let reason = trim_space a.reason
  guard (not (is_empty currency || is_empty reason))
      (flash_error "Currency and reason are required.")
  from_kind ← known_kind a.from_kind
  to_kind ← known_kind a.to_kind
  entries ← balanced_or_flash (
      manual_adjustment from_kind a.from_owner to_kind a.to_owner amount currency a.order_id reason)
  group ← or_render (post_ledger_entries entries)
  audit (some admin) "ledger.manual_adjustment" group
