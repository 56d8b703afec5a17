-- ===== src/Accounts/Reads.antt =====
-- What submitPayoutRequest of handlers/wallets.go reads before it adds a payout.
use gig.Base.{
  ℕ, Bool, true, false, Option, none, some, List, [], ◌∷◌, ◌++◌, String, Bool-cases, ◌≡◌, ◌⊎◌, inl,
  inr, refl, ap, ◌∙◌, if◌then◌else◌,
}
use gig.Base.Int.{ℤ, pos, ◌<ℤ◌, ◌≤ℤ◌, leb_ℤ}
use gig.Base.Result.{ok, err}
use gig.Db.{
  Db, StoreError, Action, ◌>>=◌, ◌>>◌, pure, raise, guard, branch, catch, statement, Session, User,
  SellerWallet, Payout, PayoutStatus, LedgerEntry, LedgerAccount, Flash, FlashKind,
}
use gig.Db.Keeps.{Keeps}
use gig.Db.Leads.{
  Leads, Leads-Keeps, Leads-bind, Leads-branch, Leads-pure, Leads-raise, Leads-statement, Leads-pre,
  Leads-post, Outcome,
}
use gig.Store.Balances.{
  AccountBalance, seller_balances, balances_of, all_fit, list_payouts_by_seller, newest_of,
  first_rows,
}
use gig.Handlers.Response.{Handler, server_error, or_render}
use gig.Handlers.Session.{Visitor}
use gig.Handlers.SellerWallets.{
  usd, refuse, require, positive_amount, last_available, less_in_flight, available_payout_balance,
}
use gig.Accounts.Available.{promised}
use gig.Accounts.Notes.{flash_on-Keeps}
use gig.Accounts.Untouched.{Quiet, set_flash-Keeps}

-- The balance that the ledger has for the seller's payouts.
abbrev pub ledger_balance : ℕ → Db → ℤ
ledger_balance seller db =
    last_available usd (pos 0) (balances_of seller db.ledger_entries db.ledger_accounts)

-- A payout of the seller, of a positive amount, is added, and all that is promised is covered.
abbrev pub IsCovered : ℕ → ℤ → List Payout → List Payout → Type 0
IsCovered seller balance before after =
    (p : Payout) × (after ≡ before ++ p ∷ [])
    × (p.seller_id ≡ seller)
    × (pos 0 <ℤ p.amount_minor)
    × (promised usd seller after ≤ℤ balance)

module _ (x : User) (before : List Payout) (es : List LedgerEntry)
    (accounts : List LedgerAccount) where
  unfoldable pub Untouched : List Payout → List LedgerEntry → List LedgerAccount → Type 0
  Untouched ps e a = (ps ≡ before) × (e ≡ es) × (a ≡ accounts)

  abbrev pub own_balance : ℤ
  own_balance = last_available usd (pos 0) (balances_of x.id es accounts)

  unfoldable pub Settled : List Payout → List LedgerEntry → List LedgerAccount → Type 0
  Settled ps e a = (ps ≡ before) ⊎ IsCovered x.id own_balance before ps

  unfoldable pub Before : Db → Type 0
  Before = Quiet Untouched

  unfoldable pub After : Db → Type 0
  After = Quiet Settled

  pub settled : (d : Db) → Before d → After d
  unfolding Untouched Settled Quiet Before After
  settled d h = inl h.0

  pub kept : {A : Type 0} (m : Handler A) → Keeps Before m → Leads Before (λ _. Before) After m
  kept m k = Leads-Keeps m settled k

  refused :
      {A : Type 0} {Q : A → Db → Type 0} (v : Visitor) (text : String)
      → Leads Before Q After (refuse v text)
  unfolding Before
  refused {Q = Q} v text =
      Leads-bind {Q = λ _. Before} {Q' = Q} _ _
        (kept _ (flash_on-Keeps Before (set_flash-Keeps Untouched) v.session _ _))
        (λ _. Leads-pre _ settled (Leads-raise _))

  pub require-Leads :
      (v : Visitor) (b : Bool) (text : String)
      → Leads Before (λ _ d. Before d × (b ≡ true)) After (require v b text)
  require-Leads v true text = Leads-pure tt (λ d h. (h, refl))
  require-Leads v false text = refused v text

  -- A fact that is known beforehand.
  pub carried :
      {A : Type 0} {Q : A → Db → Type 0} (C : Type 0) (m : Handler A)
      → Leads Before Q After m
      → Leads (λ d. Before d × C) (λ a d. Q a d × C) After m
  carried {Q = Q} C m k = record {
    at = λ db h. (Leads-post {Q' = λ a d. Q a d × C} m (λ a d q. (q, h.1)) k).at db h.0;
  }

  pub positive_amount-Leads :
      (v : Visitor) (o : Option ℤ)
      → Leads Before (λ a d. Before d × (leb_ℤ a (pos 0) ≡ false)) After (positive_amount v o)
  positive_amount-Leads v none = refused v "Enter a valid payout amount."
  positive_amount-Leads v (some a) = elim (Bool-cases (leb_ℤ a (pos 0))) [
    | inl e ↦ rw e (refused v "Enter a valid payout amount.")
    | inr e ↦ rw e (Leads-pure a (λ d h. (h, e)))
  ]

  balances_read :
      (bs : List AccountBalance) (db : Db)
      → bs ≡ balances_of x.id es accounts
      → Before db
      → Outcome
          (λ r d. Before d × (r ≡ balances_of x.id es accounts))
          Before
          (if all_fit bs then ok bs else err gig.Db.failed)
          db
  balances_read bs db e h = elim (Bool-cases (all_fit bs)) [
    | inl fit ↦ rw fit (h, e)
    | inr unfit ↦ rw unfit h
  ]

  unfoldable pub listed : List Payout
  listed = first_rows 200 (newest_of x.id [] before)

  balances-Leads :
      Leads Before
        (λ r d. Before d × (r ≡ balances_of x.id es accounts))
        Before
        (seller_balances x.id)
  unfolding seller_balances Before Quiet Untouched
  balances-Leads =
      Leads-statement _ (λ d rest h. h) (λ d h. h)
        (record {
          at = λ db h.
              balances_read (balances_of x.id db.ledger_entries db.ledger_accounts) db
                (rw (h.1, h.2) refl) h;
        })

  rows-Leads :
      (C : Type 0)
      → Leads
          (λ d. Before d × C)
          (λ r d. (Before d × C) × (r ≡ listed))
          Before
          (list_payouts_by_seller x.id 200)
  unfolding list_payouts_by_seller Before Quiet Untouched listed
  rows-Leads C =
      Leads-statement _ (λ d rest h. h) (λ d h. h.0) (record { at = λ db h. (h, rw h.0.0 refl) })

  available-Leads :
      Leads Before
        (λ a d. Before d × (a ≡ less_in_flight usd own_balance listed))
        Before
        (available_payout_balance x.id usd)
  unfolding available_payout_balance
  available-Leads = Leads-bind _ _ balances-Leads λ bs.
      Leads-bind _ _ (rows-Leads (bs ≡ balances_of x.id es accounts)) λ ps. Leads-pure _ (λ d h. (
        h.0.0,
        ap (λ q. less_in_flight usd (last_available usd (pos 0) q) ps) h.0.1
            ∙ ap (less_in_flight usd own_balance) h.1,
      ))

  pub rendered :
      Leads Before
        (λ a d. Before d × (a ≡ less_in_flight usd own_balance listed))
        After
        (or_render (available_payout_balance x.id usd))
  unfolding catch
  rendered =
      Leads-branch (available_payout_balance x.id usd) pure (λ e. raise server_error)
        available-Leads (λ a. Leads-pure a (λ d h. h))
        (λ e. Leads-pre _ settled (Leads-raise server_error))
