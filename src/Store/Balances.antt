-- ===== src/Store/Balances.antt =====
-- What a request for a payout reads: SellerBalances of store/ledger.go, and ListPayoutsBySeller and the
-- wallets of store/wallets.go. Groups and payouts of one time have no order in SQL: here groups come as
-- their accounts do, and of two payouts of one time the later row first.
use gig.Base.{
  ℕ, zero, suc, Bool, true, false, ◌&&◌, none, some, List, [], ◌∷◌, ltb, leb, ◌==◌, if◌then◌else◌,
  find,
}
use gig.Base.Int.{ℤ, pos, ◌+ℤ◌, ◌-ℤ◌, pos_part, neg_part}
use gig.Base.Text.{Bytes}
use gig.Base.Result.{Result, ok, err}
use gig.Ledger.{AccountKind, Direction, credit, debit, other, seller_pending, seller_available}
use gig.Db.{
  Db, StoreError, not_found, failed, Action, statement, LedgerAccount, LedgerEntry, Payout,
  SellerWallet,
}
use gig.Wallets.{
  Wallets, WalletError, wallet_not_found, has_wallet_id, create_pending_wallet, confirm_wallet,
}
use gig.Store.Orders.{or_not_found}

-- AccountBalance
pub record AccountBalance : Type 0 where
  pub kind : AccountKind
  pub currency : Bytes
  pub balance_minor : ℤ

-- `CASE WHEN e.direction = 'credit' THEN e.amount_minor_units ELSE -e.amount_minor_units END`
abbrev pub signed_amount : Direction → ℤ → ℤ
signed_amount credit amount = amount
signed_amount debit amount = pos 0 -ℤ amount
signed_amount (other d) amount = pos 0 -ℤ amount

-- The sum over the postings of an account, or 0.
unfoldable pub account_sum : ℕ → List LedgerEntry → ℤ
account_sum i [] = pos 0
account_sum i (e ∷ es) =
    let rest = account_sum i es in
    if e.account_id == i then signed_amount e.direction e.amount_minor +ℤ rest else rest

-- `a.owner_id = $1 AND a.kind IN ('seller_pending', 'seller_available')`
abbrev pub is_seller_kind : AccountKind → Bool
is_seller_kind seller_pending = true
is_seller_kind seller_available = true
is_seller_kind _ = false

abbrev pub is_account_of : ℕ → LedgerAccount → Bool
is_account_of seller a =
    elim a.owner_id [ none ↦ false | some o ↦ o == seller ] && is_seller_kind a.kind

unfoldable pub balances_of : ℕ → List LedgerEntry → List LedgerAccount → List AccountBalance
unfolding account_sum
balances_of seller es [] = []
balances_of seller es (a ∷ as_) =
    let rest = balances_of seller es as_ in
    if is_account_of seller a
    then record { kind = a.kind; currency = a.currency; balance_minor = account_sum a.id es } ∷ rest
    else rest

-- A sum that no int64 holds cannot be scanned.
abbrev pub fits_int64 : ℤ → Bool
fits_int64 z = ltb (pos_part z) 0x8000000000000000 && leb (neg_part z) 0x8000000000000000

abbrev pub all_fit : List AccountBalance → Bool
all_fit [] = true
all_fit (b ∷ bs) = fits_int64 b.balance_minor && all_fit bs

-- SellerBalances
unfoldable pub seller_balances : ℕ → Action StoreError (List AccountBalance)
unfolding statement balances_of
seller_balances seller = statement λ db.
    let bs = balances_of seller db.ledger_entries db.ledger_accounts in
    (if all_fit bs then ok bs else err failed, db)

-- `ORDER BY created_at DESC`
unfoldable pub insert_newest : Payout → List Payout → List Payout
insert_newest p [] = p ∷ []
insert_newest p (q ∷ qs) =
    let later = insert_newest p qs in
    if ltb p.created_at q.created_at then q ∷ later else p ∷ q ∷ qs

unfoldable pub newest_of : ℕ → List Payout → List Payout → List Payout
unfolding insert_newest
newest_of seller sorted [] = sorted
newest_of seller sorted (p ∷ ps) =
    newest_of seller (if p.seller_id == seller then insert_newest p sorted else sorted) ps

-- `LIMIT $2`
unfoldable pub first_rows : {A : Type 0} → ℕ → List A → List A
first_rows zero xs = []
first_rows (suc n) [] = []
first_rows (suc n) (x ∷ xs) = x ∷ first_rows n xs

-- ListPayoutsBySeller
unfoldable pub list_payouts_by_seller : ℕ → ℕ → Action StoreError (List Payout)
unfolding statement newest_of first_rows
list_payouts_by_seller seller limit =
    statement λ db. (ok (first_rows limit (newest_of seller [] db.payouts)), db)

-- GetWallet
unfoldable pub get_wallet : ℕ → Action StoreError SellerWallet
unfolding statement
get_wallet i = statement λ db. or_not_found (find (has_wallet_id i) db.seller_wallets) db

abbrev pub wallets_of : Db → Wallets
wallets_of db = record { seller_wallets = db.seller_wallets; next_id = db.next_id; now = db.now }

abbrev pub with_wallets : Db → Wallets → Db
with_wallets db t = record db { seller_wallets = t.seller_wallets; next_id = t.next_id }

-- CreatePendingWallet as a call
unfoldable pub add_pending_wallet : ℕ → Bytes → Bytes → Bytes → Bytes → Action StoreError ℕ
unfolding statement create_pending_wallet
add_pending_wallet user network asset encrypted fingerprint = statement λ db.
    let (i, t) = create_pending_wallet user network asset encrypted fingerprint (wallets_of db) in
    (ok i, with_wallets db t)

abbrev pub wallet_result : Result WalletError (Unit {0}) → Result StoreError (Unit {0})
wallet_result (ok u) = ok u
wallet_result (err wallet_not_found) = err not_found

-- ConfirmWallet as a call
unfoldable pub confirm_wallet_row : ℕ → ℕ → Action StoreError (Unit {0})
unfolding statement confirm_wallet
confirm_wallet_row i cooldown = statement λ db.
    let (r, t) = confirm_wallet i cooldown (wallets_of db) in (wallet_result r, with_wallets db t)
