-- ===== src/Lifecycle/WalletTests.antt =====
-- Wallets and payouts of a seller at small inputs.
use gig.Base.{
  ℕ, Bool, true, false, Option, none, some, List, [], ◌∷◌, length, ◌≤◌, ◌==◌, ◌≡◌, ◌⊎◌, refl, arith,
  count_where,
}
use gig.Base.Int.{pos, ◌+ℤ◌, ◌-ℤ◌, IsInt64}
use gig.Base.Text.{Bytes, codes, trim_space, is_empty}
use gig.Ledger.{seller_available, credit}
use gig.Db.{Db, User, Payout, payout_queued, payout_ready, SellerWallet, LedgerEntry}
use gig.Wallets.{wallet_confirmed, wallet_pending}
use gig.Handlers.Session.{Visitor, visitor, flash_on}
use gig.Handlers.Amounts.{parse_dollars_to_minor}
use gig.Handlers.SellerWallets.{
  PayoutForm, WalletForm, submit_wallet, confirm_wallet_link, submit_payout_request, usd,
  equal_fold, last_available,
}
use gig.Store.Balances.{
  balances_of, get_wallet, seller_balances, list_payouts_by_seller, add_pending_wallet,
}
use gig.Handlers.Payouts.{admin_payout_complete}
use gig.Store.Sessions.{set_flash, get_auth_token, create_auth_token}
use gig.Store.Orders.{write_audit}
use gig.Store.Payouts.{create_payout}
use gig.Handlers.Checkout.{read_time}
use gig.Accounts.Unconfirmed.{
  WalletRequest, submits, opens_link, run_wallets, run_wallets-NoneConfirmed,
}
use gig.Accounts.Links.{NoneConfirmed}
use gig.Accounts.Available.{promised, weight}
use gig.Accounts.Overdraw.{submit_payout_request-IsCovered}
use gig.Accounts.Reads.{ledger_balance, IsCovered}
use gig.Accounts.Freed.{admin_payout_complete-frees}
use gig.Lifecycle.AccountTests.{toy, settings, alice, anonymous, site, browser}

abbrev pending_wallet : SellerWallet
pending_wallet = record {
  id = 4;
  user_id = 7;
  network = codes "base";
  asset = codes "usdc";
  address_encrypted = [];
  address_fingerprint = [];
  status = wallet_pending;
  confirmed_at = none;
  eligible_at = none;
  created_at = 50;
  updated_at = 50;
}

abbrev by_alice : Visitor
by_alice = visitor browser (some anonymous) (some alice)

abbrev submission : WalletForm
submission = record {
  network = codes "polygon";
  asset = codes "usdt";
  address = codes "0x00112233445566778899aabbccddeeff00112233";
}

abbrev attempts : List (ℕ × List Bool × Visitor × User × WalletRequest)
attempts =
    (200, [], by_alice, alice, submits (some submission))
    ∷ (300, [], by_alice, alice, opens_link (codes "mailed") 20)
    ∷ []

abbrev wallet_site : Db
wallet_site = record site { seller_wallets = pending_wallet ∷ [] }

abbrev seal : Option (Bytes → Option Bytes)
seal = some (λ s. some s)

-- The pending wallet is stored, and its token is not.
submitted :
    (length (run_wallets toy settings seal attempts wallet_site).seller_wallets ≡ 2)
    × (length (run_wallets toy settings seal attempts wallet_site).auth_tokens ≡ 0)
unfolding run_wallets confirm_wallet_link get_auth_token submit_wallet add_pending_wallet
    create_auth_token flash_on set_flash
submitted = (refl, refl)

run_wallets-NoneConfirmed_example :
    NoneConfirmed (run_wallets toy settings seal attempts wallet_site)
    × ((run_wallets toy settings seal attempts wallet_site).payouts ≡ wallet_site.payouts)
run_wallets-NoneConfirmed_example =
    run_wallets-NoneConfirmed toy settings seal attempts wallet_site (tt, (refl, tt))

-- A seller with 3000 cents available, 1000 of them promised, and a wallet for payouts.
abbrev queued : Payout
queued = record {
  id = 5;
  seller_id = 7;
  wallet_id = 4;
  amount_minor = pos 1000;
  currency = usd;
  network = codes "base";
  asset = codes "usdc";
  status = payout_queued;
  tx_hash = [];
  reviewed_by = none;
  created_at = 60;
  executed_at = none;
  updated_at = 60;
}

abbrev earnings : LedgerEntry
earnings = record {
  id = 3;
  transaction_group = 1;
  account_id = 2;
  direction = credit;
  amount_minor = pos 3000;
  currency = codes "usd";
  order_id = some 1;
  description = [];
}

abbrev till : Db
till = record wallet_site {
  seller_wallets =
      record pending_wallet {
        status = wallet_confirmed;
        confirmed_at = some 50;
        eligible_at = some 90;
      }
      ∷ [];
  ledger_accounts =
      record { id = 2; kind = seller_available; owner_id = some 7; currency = codes "usd" } ∷ [];
  ledger_entries = earnings ∷ [];
  payouts = queued ∷ [];
  now = 100;
}

abbrev twenty_dollars : Option PayoutForm
twenty_dollars = some record { wallet_id = 4; amount = codes "20" }

twenty : parse_dollars_to_minor (codes " 20 ") ≡ some (pos 2000)
unfolding parse_dollars_to_minor
twenty = refl

-- A sign in front of the cents is read, and so is an amount that 64 bits cannot hold.
lenient :
    (parse_dollars_to_minor (codes "1.+5") ≡ some (pos 105))
    × (parse_dollars_to_minor (codes "-0.50") ≡ some (pos 50))
    × (parse_dollars_to_minor (codes "184467440737095517") ≡ some (pos 84))
unfolding parse_dollars_to_minor
lenient = (refl, refl, refl)

granted : length (submit_payout_request true by_alice alice twenty_dollars till).1.payouts ≡ 2
unfolding submit_payout_request parse_dollars_to_minor get_wallet read_time seller_balances
    list_payouts_by_seller create_payout write_audit flash_on set_flash
granted = refl

few : count_where (λ p. p.seller_id == 7) till.payouts ≤ 200
few = omega arith

fits : IsInt64 (ledger_balance 7 till)
unfolding last_available balances_of ◌+ℤ◌
fits = omega arith

fits_less : IsInt64 (ledger_balance 7 till -ℤ promised usd 7 till.payouts)
unfolding last_available balances_of promised ◌-ℤ◌ ◌+ℤ◌ weight
fits_less = omega arith

submit_payout_request-IsCovered_example :
    ((submit_payout_request true by_alice alice twenty_dollars till).1.payouts ≡ till.payouts)
    ⊎ IsCovered 7
        (ledger_balance 7 till)
        till.payouts
        (submit_payout_request true by_alice alice twenty_dollars till).1.payouts
submit_payout_request-IsCovered_example =
    submit_payout_request-IsCovered true by_alice alice twenty_dollars till few fits fits_less

filled : is_empty (trim_space (codes "0xabc")) ≡ false
unfolding trim_space
filled = refl

same_currency : equal_fold usd usd ≡ true
unfolding equal_fold
same_currency = refl

abbrev ready : Payout
ready = record queued { status = payout_ready }

abbrev ready_till : Db
ready_till = record till { payouts = ready ∷ [] }

admin_payout_complete-frees_example :
    (ledger_balance 7
        (admin_payout_complete 1
          (some 5)
          (some (codes "0xabc"))
          (record ready_till { faults = [] })).1
      ≡ ledger_balance 7 ready_till)
    × (promised usd 7
            (admin_payout_complete 1
              (some 5)
              (some (codes "0xabc"))
              (record ready_till { faults = [] })).1.payouts
          +ℤ pos 1000
        ≡ promised usd 7 ready_till.payouts)
admin_payout_complete-frees_example =
    admin_payout_complete-frees 1 5 (codes "0xabc") ready ready_till filled refl refl same_currency
