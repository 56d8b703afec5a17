-- ===== src/Accounts/WalletRequests.antt =====
-- The requests of handlers/wallets.go sign nobody in.
use gig.Base.{ℕ, Bool, true, false, Option, none, some, String, ◌≡◌, refl, arith}
use gig.Base.Int.{ℤ}
use gig.Base.Text.{Bytes}
use gig.Db.{StoreError, not_found, User, PayoutStatus, SellerWallet}
use gig.Db.Keeps.{Keeps, Keeps-statement, keeps_rules}
use gig.Wallets.{confirm_found, Wallets}
use gig.Store.Balances.{
  seller_balances, list_payouts_by_seller, add_pending_wallet, confirm_wallet_row, wallets_of,
}
use gig.Store.Payouts.{create_payout}
use gig.Handlers.Session.{Crypto, AccountSettings, Visitor}
use gig.Handlers.SellerWallets.{
  WalletForm, PayoutForm, refuse, require, positive_amount, own_wallet, available_payout_balance,
  queue_payout, submit_payout_request, submit_wallet, unconfirmed, linked_wallet,
  confirm_wallet_link,
}
use gig.Accounts.Sessions.{
  Holds, quiet, session_rules, or_answer-Keeps, read_time-Keeps, audit-Keeps, flash_on-Keeps,
}
use gig.Accounts.Quiet.{mail_token-Keeps}

confirm_found-same :
    (i cooldown : ℕ) (w : Option SellerWallet) (t : Wallets)
    → (confirm_found i cooldown w t).1.next_id ≡ t.next_id
confirm_found-same i cooldown none t = refl
confirm_found-same i cooldown (some w) t = refl

module _ (u : ℕ) where
  add_pending_wallet-Keeps :
      (i : ℕ) (network asset encrypted fingerprint : Bytes)
      → Keeps (Holds u) (add_pending_wallet i network asset encrypted fingerprint)
  unfolding add_pending_wallet Holds
  add_pending_wallet-Keeps i network asset encrypted fingerprint =
      Keeps-statement _ (λ d rest h. h) (record { at = λ db h. (h.0, omega arith) })

  confirm_wallet_row-Keeps : (i cooldown : ℕ) → Keeps (Holds u) (confirm_wallet_row i cooldown)
  unfolding confirm_wallet_row
  confirm_wallet_row-Keeps i cooldown =
      quiet u _ (λ db. (refl, confirm_found-same i cooldown _ (wallets_of db)))

  create_payout-Keeps :
      (seller wallet : ℕ) (amount : ℤ) (currency network asset : Bytes) (s : PayoutStatus)
      → Keeps (Holds u) (create_payout seller wallet amount currency network asset s)
  unfolding create_payout Holds
  create_payout-Keeps seller wallet amount currency network asset s =
      Keeps-statement _ (λ d rest h. h) (record { at = λ db h. (h.0, omega arith) })

  seller_balances-Keeps : (seller : ℕ) → Keeps (Holds u) (seller_balances seller)
  unfolding seller_balances
  seller_balances-Keeps seller = quiet u _ (λ db. (refl, refl))

  list_payouts_by_seller-Keeps :
      (seller limit : ℕ) → Keeps (Holds u) (list_payouts_by_seller seller limit)
  unfolding list_payouts_by_seller
  list_payouts_by_seller-Keeps seller limit = quiet u _ (λ db. (refl, refl))

  available-Keeps :
      (seller : ℕ) (currency : Bytes) → Keeps (Holds u) (available_payout_balance seller currency)
  unfolding available_payout_balance
  available-Keeps seller currency =
      search (session_rules, seller_balances-Keeps, list_payouts_by_seller-Keeps) depth 30

  module _ (v : Visitor) where
    refuse-Keeps : {A : Type 0} (text : String) → Keeps {A = A} (Holds u) (refuse v text)
    refuse-Keeps text = search session_rules depth 30

    require-Keeps : (b : Bool) (text : String) → Keeps (Holds u) (require v b text)
    require-Keeps true text = search session_rules
    require-Keeps false text = refuse-Keeps text

    positive_amount-Keeps : (o : Option ℤ) → Keeps (Holds u) (positive_amount v o)
    positive_amount-Keeps none = refuse-Keeps _
    positive_amount-Keeps (some amount) = search (session_rules, refuse-Keeps) depth 30

    own_wallet-Keeps : (x : User) (i : ℕ) → Keeps (Holds u) (own_wallet v x i)
    unfolding own_wallet
    own_wallet-Keeps x i = search (session_rules, refuse-Keeps) depth 30

    queue_payout-Keeps :
        (x : User) (w : SellerWallet) (i : ℕ) (amount : ℤ)
        → Keeps (Holds u) (queue_payout v x w i amount)
    unfolding queue_payout
    queue_payout-Keeps x w i amount =
        search
          (
            keeps_rules, read_time-Keeps, require-Keeps, available-Keeps, create_payout-Keeps,
            audit-Keeps, flash_on-Keeps,
          )
          depth 40 fits 8000

    pub submit_payout_request-Keeps :
        (enabled : Bool) (x : User) (form : Option PayoutForm)
        → Keeps (Holds u) (submit_payout_request enabled v x form)
    unfolding submit_payout_request
    submit_payout_request-Keeps enabled x form =
        search
          (
            keeps_rules, or_answer-Keeps, positive_amount-Keeps, own_wallet-Keeps,
            queue_payout-Keeps,
          )
          depth 40 fits 8000

  module _ (c : Crypto) (cfg : AccountSettings) (v : Visitor) (x : User) where
    pub submit_wallet-Keeps :
        (encrypt : Option (Bytes → Option Bytes)) (form : Option WalletForm)
        → Keeps (Holds u) (submit_wallet c cfg encrypt v x form)
    unfolding submit_wallet
    submit_wallet-Keeps encrypt form =
        search (session_rules, require-Keeps, add_pending_wallet-Keeps, mail_token-Keeps) depth 40
          fits 8000

    unconfirmed-Keeps : (e : StoreError) → Keeps (Holds u) (unconfirmed c cfg v e)
    unconfirmed-Keeps not_found = refuse-Keeps v _
    unconfirmed-Keeps e = search session_rules

    linked_wallet-Keeps : (owner i : ℕ) → Keeps (Holds u) (linked_wallet c cfg v x owner i)
    unfolding linked_wallet
    linked_wallet-Keeps owner i = search (session_rules, refuse-Keeps) depth 30

    pub confirm_wallet_link-Keeps :
        (text : Bytes) (i : ℕ) → Keeps (Holds u) (confirm_wallet_link c cfg v x text i)
    unfolding confirm_wallet_link
    confirm_wallet_link-Keeps text i =
        search
          (
            session_rules, require-Keeps, refuse-Keeps, linked_wallet-Keeps,
            confirm_wallet_row-Keeps, unconfirmed-Keeps,
          )
          depth 40 fits 8000
