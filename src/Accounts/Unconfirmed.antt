-- ===== src/Accounts/Unconfirmed.antt =====
-- The wallets of handlers/wallets.go under the constraint on the kinds of tokens in
-- migrations/0002_identity.sql: what submitWallet, confirmWallet and submitPayoutRequest can do.
use gig.Base.{ℕ, Bool, true, false, Option, none, some, List, [], ◌∷◌, ◌≡◌, refl}
use gig.Base.Text.{Bytes}
use gig.Base.Result.{Result, ok, err}
use gig.Db.{Db, User, Payout}
use gig.Db.Leads.{Outcome}
use gig.Handlers.Response.{Response}
use gig.Handlers.Session.{Crypto, AccountSettings, Visitor}
use gig.Handlers.SellerWallets.{
  WalletForm, PayoutForm, submit_payout_request, submit_wallet, confirm_wallet_link,
}
use gig.Accounts.Links.{
  Holds, NoneConfirmed, submit_payout_request-Leads, submit_wallet-Keeps, confirm_wallet_link-Leads,
}

-- A seller submits a wallet, opens the link of a mail, or requests a payout.
pub data WalletRequest : Type 0 where
  submits : Option WalletForm → WalletRequest
  opens_link : Bytes → ℕ → WalletRequest
  requests : Option PayoutForm → WalletRequest

module _ (c : Crypto) (cfg : AccountSettings) (encrypt : Option (Bytes → Option Bytes)) where
  unfoldable pub run_wallet : Visitor → User → WalletRequest → Db → Db
  run_wallet v x (submits form) db = (submit_wallet c cfg encrypt v x form db).1
  run_wallet v x (opens_link text i) db = (confirm_wallet_link c cfg v x text i db).1
  run_wallet v x (requests form) db =
      (submit_payout_request (elim encrypt [ none ↦ false | some f ↦ true ]) v x form db).1

  -- Each with its time, the faults that its calls meet, and whoever makes it.
  unfoldable pub run_wallets : List (ℕ × List Bool × Visitor × User × WalletRequest) → Db → Db
  unfolding run_wallet
  run_wallets [] db = db
  run_wallets ((now, faults, v, x, r) ∷ rest) db =
      run_wallets rest (run_wallet v x r (record db { now = now; faults = faults }))

  error_keeps :
      {A : Type 0} (payouts0 : List Payout) (r : Result Response A) (db : Db)
      → Outcome (λ _ _. ⊥) (Holds payouts0) r db
      → Holds payouts0 db
  error_keeps payouts0 (ok a) db h = absurd h
  error_keeps payouts0 (err e) db h = h

  run_wallet-Holds :
      (payouts0 : List Payout) (v : Visitor) (x : User) (r : WalletRequest) (db : Db)
      → Holds payouts0 db
      → Holds payouts0 (run_wallet v x r db)
  unfolding run_wallet
  run_wallet-Holds payouts0 v x (submits form) db h =
      (submit_wallet-Keeps payouts0 c cfg v x encrypt form).at db h
  run_wallet-Holds payouts0 v x (opens_link text i) db h =
      error_keeps payouts0 _ _ ((confirm_wallet_link-Leads payouts0 c cfg v x text i).at db h)
  run_wallet-Holds payouts0 v x (requests form) db h =
      error_keeps payouts0 _ _ ((submit_payout_request-Leads payouts0 _ v x form).at db h)

  run_wallets-Holds :
      (payouts0 : List Payout) (rs : List (ℕ × List Bool × Visitor × User × WalletRequest))
      (db : Db)
      → Holds payouts0 db
      → Holds payouts0 (run_wallets rs db)
  unfolding run_wallets Holds
  run_wallets-Holds payouts0 [] db h = h
  run_wallets-Holds payouts0 ((now, faults, v, x, r) ∷ rest) db h =
      run_wallets-Holds payouts0 rest _
        (run_wallet-Holds payouts0 v x r (record db { now = now; faults = faults }) h)

  -- From tables without a token for a wallet and without a confirmed wallet, whatever is submitted, opened
  -- and requested, by whomever, at any times and under any faults of the database: there is never such a
  -- token nor a confirmed wallet, and no payout is added.
  pub run_wallets-NoneConfirmed :
      (rs : List (ℕ × List Bool × Visitor × User × WalletRequest)) (db : Db)
      → NoneConfirmed db
      → NoneConfirmed (run_wallets rs db) × ((run_wallets rs db).payouts ≡ db.payouts)
  unfolding Holds
  run_wallets-NoneConfirmed rs db h = run_wallets-Holds db.payouts rs db (h, refl)
