-- ===== src/Accounts/Untouched.antt =====
-- The calls of handlers/wallets.go that write neither payouts nor postings.
use gig.Base.{ℕ, Option, none, some, List, String, find, ◌≡◌, refl}
use gig.Db.{
  Db, StoreError, Action, statement, User, SellerWallet, Payout, LedgerEntry, LedgerAccount, Flash,
}
use gig.Db.Keeps.{Keeps, Keeps-statement, keeps_rules}
use gig.Store.Orders.{or_not_found, write_audit}
use gig.Store.Sessions.{set_flash}
use gig.Store.Balances.{get_wallet}
use gig.Handlers.Session.{Visitor}
use gig.Handlers.SellerWallets.{own_wallet}
use gig.Accounts.Notes.{refuse-Keeps}

-- Conditions on the payouts and the postings, which no other call writes.
module _ (I : List Payout → List LedgerEntry → List LedgerAccount → Type 0) where
  unfoldable pub Quiet : Db → Type 0
  Quiet d = I d.payouts d.ledger_entries d.ledger_accounts

  quiet :
      {A : Type 0} (f : Action StoreError A)
      → ((db : Db)
          → ((f db).1.payouts ≡ db.payouts)
            × ((f db).1.ledger_entries ≡ db.ledger_entries)
            × ((f db).1.ledger_accounts ≡ db.ledger_accounts))
      → Keeps Quiet (statement f)
  unfolding Quiet
  quiet f same =
      Keeps-statement _ (λ d rest h. h)
        (record { at = λ db h. rw ((same db).0, (same db).1, (same db).2) h })

  pub set_flash-Keeps : (i : ℕ) (f : Option Flash) → Keeps Quiet (set_flash i f)
  unfolding set_flash
  set_flash-Keeps i f = quiet _ (λ db. (refl, refl, refl))

  pub write_audit-Keeps :
      (actor : Option ℕ) (action : String) (i : ℕ) → Keeps Quiet (write_audit actor action i)
  unfolding write_audit
  write_audit-Keeps actor action i = quiet _ (λ db. (refl, refl, refl))

  get_wallet-Keeps : (i : ℕ) → Keeps Quiet (get_wallet i)
  unfolding get_wallet Quiet
  get_wallet-Keeps i =
      Keeps-statement _ (λ d rest h. h)
        (record { at = λ db h. same (find _ db.seller_wallets) db h })
    where
      same : (o : Option SellerWallet) (db : Db) → Quiet db → Quiet (or_not_found o db).1
      same none db h = h
      same (some w) db h = h

  pub own_wallet-Keeps : (v : Visitor) (y : User) (i : ℕ) → Keeps Quiet (own_wallet v y i)
  unfolding own_wallet
  own_wallet-Keeps v y i =
      search (keeps_rules, get_wallet-Keeps, refuse-Keeps Quiet set_flash-Keeps) depth 30
