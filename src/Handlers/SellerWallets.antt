-- ===== src/Handlers/SellerWallets.antt =====
-- handlers/wallets.go: a seller submits a wallet, confirms it by the link in a mail, and requests a
-- payout. The pages are left out, and so is the mail.
use gig.Base.{
  ℕ, Bool, true, false, not, ◌&&◌, ◌||◌, Option, none, some, List, [], ◌∷◌, String, length, leb,
  ◌==◌, if◌then◌else◌,
}
use gig.Base.Int.{ℤ, pos, ◌-ℤ◌, leb_ℤ, wrap64}
use gig.Base.Text.{Bytes, bytes_eq, codes, trim_space, to_lower, is_empty}
use gig.Ledger.{seller_available}
use gig.Ledger.Net.{kind_code}
use gig.Db.{
  StoreError, not_found, Action, ◌>>=◌, ◌>>◌, pure, raise, guard, branch, ignore, User,
  SellerWallet, Payout, PayoutStatus, payout_queued, payout_needs_manual_review, payout_ready,
  payout_completed, payout_canceled, wallet_confirmation, success, failure,
}
use gig.Wallets.{is_payout_eligible}
use gig.Store.Balances.{
  AccountBalance, seller_balances, list_payouts_by_seller, get_wallet, add_pending_wallet,
  confirm_wallet_row,
}
use gig.Store.Payouts.{create_payout}
use gig.Store.Sessions.{get_auth_token, use_auth_token}
use gig.Handlers.Response.{
  Handler, page_not_found, server_error, flash_error, or_render, or_answer, audit,
}
use gig.Handlers.Amounts.{is_digit, parse_dollars_to_minor}
use gig.Handlers.Checkout.{is_high_value, read_time}
use gig.Handlers.Session.{Crypto, AccountSettings, Visitor, mail_token, flash_on}

pub record WalletForm : Type 0 where
  pub network : Bytes
  pub asset : Bytes
  pub address : Bytes

-- The number of the wallet is 0 where the form has none.
pub record PayoutForm : Type 0 where
  pub wallet_id : ℕ
  pub amount : Bytes

abbrev pub is_hex_digit : ℕ → Bool
is_hex_digit b = is_digit b || ((leb b'a' b && leb b b'f') || (leb b'A' b && leb b b'F'))

abbrev pub all_hex : Bytes → Bool
all_hex [] = true
all_hex (b ∷ s) = is_hex_digit b && all_hex s

-- evmAddressPattern
unfoldable pub evm_address_pattern : Bytes → Bool
evm_address_pattern (z ∷ x ∷ s) = z == b'0' && (x == b'x' && (length s == 40 && all_hex s))
evm_address_pattern _ = false

-- `s.flashError(r, ...)` and a redirect.
abbrev pub refuse : {A : Type 0} → Visitor → String → Handler A
refuse v text = flash_on v.session failure (codes text) >> raise (flash_error text)

abbrev pub require : Visitor → Bool → String → Handler (Unit {0})
require v true text = pure tt
require v false text = refuse v text

-- nonTerminalPayoutStatuses
abbrev pub is_in_flight : PayoutStatus → Bool
is_in_flight payout_queued = true
is_in_flight payout_needs_manual_review = true
is_in_flight payout_ready = true
is_in_flight payout_completed = false
is_in_flight payout_canceled = false

-- strings.EqualFold on ASCII texts.
unfoldable pub equal_fold : Bytes → Bytes → Bool
unfolding bytes_eq to_lower
equal_fold a b = bytes_eq (to_lower a) (to_lower b)

-- `for _, b := range balances`
unfoldable pub last_available : Bytes → ℤ → List AccountBalance → ℤ
unfolding equal_fold
last_available currency available [] = available
last_available currency available (b ∷ bs) =
    last_available currency
      (if kind_code b.kind == kind_code seller_available && equal_fold b.currency currency
        then b.balance_minor
        else available)
      bs

-- `for _, p := range payouts`
unfoldable pub less_in_flight : Bytes → ℤ → List Payout → ℤ
unfolding equal_fold wrap64 ◌-ℤ◌
less_in_flight currency available [] = available
less_in_flight currency available (p ∷ ps) =
    less_in_flight currency
      (if equal_fold p.currency currency && is_in_flight p.status
        then wrap64 (available -ℤ p.amount_minor)
        else available)
      ps

-- availablePayoutBalance
unfoldable pub available_payout_balance : ℕ → Bytes → Action StoreError ℤ
unfolding ◌>>=◌ last_available less_in_flight
available_payout_balance seller currency = do
  balances ← seller_balances seller
  payouts ← list_payouts_by_seller seller 200
  pure (less_in_flight currency (last_available currency (pos 0) balances) payouts)

abbrev pub usd : Bytes
usd = b'U' ∷ b'S' ∷ b'D' ∷ []

-- `err != nil || amountMinor <= 0`
abbrev pub positive_amount : Visitor → Option ℤ → Handler ℤ
positive_amount v none = refuse v "Enter a valid payout amount."
positive_amount v (some amount) =
    if leb_ℤ amount (pos 0) then refuse v "Enter a valid payout amount." else pure amount

-- `err != nil || wallet.UserID != u.ID`
unfoldable pub own_wallet : Visitor → User → ℕ → Handler SellerWallet
unfolding ◌>>=◌
own_wallet v u i =
    branch (get_wallet i)
      (λ w. if w.user_id == u.id then pure w else refuse v "That wallet is not on your account.")
      (λ e. refuse v "That wallet is not on your account.")

abbrev pub initial_status : ℤ → PayoutStatus
initial_status amount = if is_high_value amount then payout_needs_manual_review else payout_queued

abbrev pub payout_notice : ℤ → Bytes
payout_notice amount =
    if is_high_value amount
    then codes "Payout requested. This amount needs admin review before it is queued for execution."
    else codes "Payout requested and queued."

-- What submitPayoutRequest does once the amount and the wallet are known.
unfoldable pub queue_payout : Visitor → User → SellerWallet → ℕ → ℤ → Handler ℕ
unfolding ◌>>=◌ is_payout_eligible available_payout_balance audit
queue_payout v u w i amount = do
  now ← read_time
  require v (is_payout_eligible now w)
      "That wallet is not confirmed and past its cooling-off period yet."
  available ← or_render (available_payout_balance u.id usd)
  require v (leb_ℤ amount available) "That amount is more than your available balance."
  id ← or_render (create_payout u.id i amount usd w.network w.asset (initial_status amount))
  audit (some u.id) "payout.requested" id
  flash_on v.session success (payout_notice amount)
  pure id

-- submitPayoutRequest; `enabled` says that s.Wallet is configured.
unfoldable pub submit_payout_request : Bool → Visitor → User → Option PayoutForm → Handler ℕ
unfolding ◌>>=◌ own_wallet queue_payout
submit_payout_request enabled v u form = do
  guard enabled page_not_found
  f ← or_answer form server_error
  amount ← positive_amount v (parse_dollars_to_minor f.amount)
  w ← own_wallet v u f.wallet_id
  queue_payout v u w f.wallet_id amount

module _ (c : Crypto) (cfg : AccountSettings) where
  -- `encrypt` is s.Wallet.Encrypt, `none` where no key is configured.
  unfoldable pub submit_wallet :
      Option (Bytes → Option Bytes) → Visitor → User → Option WalletForm → Handler (Unit {0})
  unfolding ◌>>=◌ trim_space bytes_eq evm_address_pattern to_lower audit
  submit_wallet wallet v u form = do
    encrypt ← or_answer wallet page_not_found
    f ← or_answer form server_error
    let network = trim_space f.network
    let asset = trim_space f.asset
    let text = trim_space f.address
    require v (bytes_eq network (codes "base") || bytes_eq network (codes "polygon"))
        "Choose a supported network."
    require v (bytes_eq asset (codes "usdc") || bytes_eq asset (codes "usdt"))
        "Choose a supported asset."
    require v (evm_address_pattern text) "That does not look like a valid wallet address."
    let address = to_lower text
    encrypted ← or_answer (encrypt address) server_error
    id ← or_render (add_pending_wallet u.id network asset encrypted (c.sha256_hex address))
    token ← or_render (mail_token c cfg v.request.mailed_token u.id wallet_confirmation)
    audit (some u.id) "wallet.submitted" id
    flash_on v.session success (codes "Check your email to confirm this wallet.")

  abbrev pub unconfirmed : Visitor → StoreError → Handler (Unit {0})
  unconfirmed v not_found = refuse v "This wallet was already confirmed or replaced."
  unconfirmed v _ = raise server_error

  -- `err != nil || wallet.UserID != tok.UserID || (u != nil && wallet.UserID != u.ID)`
  unfoldable pub linked_wallet : Visitor → User → ℕ → ℕ → Handler SellerWallet
  unfolding ◌>>=◌
  linked_wallet v u owner i =
      branch (get_wallet i)
        (λ w.
          if w.user_id == owner && w.user_id == u.id
          then pure w
          else refuse v "That confirmation link does not match this wallet.")
        (λ e. refuse v "That confirmation link does not match this wallet.")

  -- confirmWallet, with the token and the number of the link.
  unfoldable pub confirm_wallet_link : Visitor → User → Bytes → ℕ → Handler (Unit {0})
  unfolding ◌>>=◌ trim_space audit linked_wallet
  confirm_wallet_link v u text i = do
    let token = trim_space text
    require v (not (is_empty token) && not (i == 0)) "That confirmation link is invalid."
    tok ←
        branch (get_auth_token wallet_confirmation (c.sha256_hex token)) pure
          (λ e. refuse v "That confirmation link is invalid or expired.")
    w ← linked_wallet v u tok.user_id i
    branch (confirm_wallet_row i cfg.wallet_change_cooldown) pure (unconfirmed v)
    ignore (use_auth_token tok.id)
    audit (some tok.user_id) "wallet.confirmed" i
    audit none "fraud.wallet_change_alert" i
    flash_on v.session success (codes "Wallet confirmed.")
