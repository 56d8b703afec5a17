-- ===== src/Accounts/Overdraw.antt =====
-- submitPayoutRequest of handlers/wallets.go: what a request adds to the payouts.
use gig.Base.{
  ℕ, ◌≤◌, ◌==◌, ==_refl, Bool, true, false, Option, some, List, [], ◌∷◌, ◌++◌, count_where, ◌≡◌,
  ◌⊎◌, inl, inr, refl, ◌∙◌, arith,
}
use gig.Base.Int.{ℤ, pos, ◌-ℤ◌, leb_ℤ, wrap64, IsInt64}
use gig.Wallets.{is_payout_eligible}
use gig.Db.{
  Db, StoreError, Action, ◌>>=◌, ◌>>◌, pure, raise, guard, branch, catch, statement, Session, User,
  SellerWallet, Payout, PayoutStatus, LedgerEntry, LedgerAccount, Flash, FlashKind,
}
use gig.Db.Keeps.{Keeps, keeps_rules}
use gig.Db.Leads.{
  Leads, Leads-Keeps, Leads-bind, Leads-branch, Leads-pure, Leads-raise, Leads-statement, Leads-pre,
  outcome_both,
}
use gig.Store.Payouts.{create_payout, new_payout}
use gig.Handlers.Response.{Response, Handler, server_error, or_render, or_answer, audit}
use gig.Handlers.Amounts.{parse_dollars_to_minor}
use gig.Handlers.Checkout.{read_time}
use gig.Handlers.Session.{Visitor, flash_on}
use gig.Handlers.SellerWallets.{
  PayoutForm, usd, queue_payout, less_in_flight, submit_payout_request, initial_status,
  payout_notice,
}
use gig.Accounts.Available.{promised, less_in_flight-promised}
use gig.Accounts.Notes.{read_time-Keeps, or_answer-Keeps, audit-Keeps, flash_on-Keeps}
use gig.Accounts.Untouched.{Quiet, set_flash-Keeps, write_audit-Keeps, own_wallet-Keeps}
use gig.Accounts.Promise.{covered, promised-append_one, weight-new_payout}
use gig.Accounts.Reads.{
  ledger_balance, IsCovered, own_balance, Before, After, kept, require-Leads, carried,
  positive_amount-Leads, listed, rendered, Untouched, Settled,
}

module _ (x : User) (before : List Payout) (es : List LedgerEntry)
    (accounts : List LedgerAccount) where
  module _ (few : count_where (λ p. p.seller_id == x.id) before ≤ 200)
      (fits : IsInt64 (own_balance x before es accounts))
      (fits_less : IsInt64 ((own_balance x before es accounts) -ℤ promised usd x.id before)) where
    added :
        (w : SellerWallet) (i : ℕ) (amount available : ℤ) (id now : ℕ)
        → leb_ℤ amount (pos 0) ≡ false
        → available
          ≡ less_in_flight usd (own_balance x before es accounts) (listed x before es accounts)
        → leb_ℤ amount available ≡ true
        → IsCovered x.id (own_balance x before es accounts) before (
            before
            ++ new_payout id now x.id i amount usd w.network w.asset (initial_status amount) ∷ [])
    unfolding listed
    added w i amount available id now positive e enough = (
      new_payout id now x.id i amount usd w.network w.asset (initial_status amount),
      refl,
      refl,
      ground (arith, positive),
      rw
          (
            promised-append_one x.id before
                (new_payout id now x.id i amount usd w.network w.asset (initial_status amount))
                (==_refl x.id),
            weight-new_payout id now x.id i amount w.network w.asset,
          )
          (covered amount (own_balance x before es accounts) (promised usd x.id before) fits_less (
            let same : available
                ≡ wrap64 ((own_balance x before es accounts) -ℤ promised usd x.id before) =
              e
              ∙ less_in_flight-promised usd x.id (own_balance x before es accounts) before few
                  fits in
            rw same at enough)),
    )

    create_payout-Leads :
        (w : SellerWallet) (i : ℕ) (amount available : ℤ)
        → leb_ℤ amount (pos 0) ≡ false
        → Leads
            (λ d.
              (Before x before es accounts d × (leb_ℤ amount available ≡ true))
              × (available
                  ≡ less_in_flight usd
                      (own_balance x before es accounts)
                      (listed x before es accounts)))
            (λ _. (After x before es accounts))
            (After x before es accounts)
            (or_render (create_payout x.id i amount usd w.network w.asset (initial_status amount)))
    unfolding create_payout catch Before After Quiet Untouched Settled
    create_payout-Leads w i amount available positive =
        Leads-branch (create_payout x.id i amount usd w.network w.asset (initial_status amount))
          pure (λ e. raise server_error)
          (Leads-statement _ (λ d rest h. h) (λ d h. inl h.0.0.0)
            (record {
              at = λ db h.
                  inr
                    (rw h.0.0.0 (added w i amount available db.next_id db.now positive h.1 h.0.1));
            }))
          (λ id. Leads-pure id (λ d h. h)) (λ e. Leads-raise server_error)

    tail-Keeps :
        (v : Visitor) (id : ℕ) (amount : ℤ)
        → Keeps (After x before es accounts) (do
          audit (some x.id) "payout.requested" id
          flash_on v.session gig.Db.success (payout_notice amount)
          pure id)
    unfolding After
    tail-Keeps v id amount =
        search
          (
            keeps_rules,
            audit-Keeps (After x before es accounts),
            write_audit-Keeps (Settled x before es accounts),
            flash_on-Keeps (After x before es accounts)
                (set_flash-Keeps (Settled x before es accounts)),
          )
          depth 30

    queue_payout-Leads :
        (v : Visitor) (w : SellerWallet) (i : ℕ) (amount : ℤ)
        → leb_ℤ amount (pos 0) ≡ false
        → Leads
            (Before x before es accounts)
            (λ _. (After x before es accounts))
            (After x before es accounts)
            (queue_payout v x w i amount)
    unfolding queue_payout Before
    queue_payout-Leads v w i amount positive =
        Leads-bind read_time _
          (kept x before es accounts read_time (read_time-Keeps (Before x before es accounts)))
          λ now.
            Leads-bind _ _
              (require-Leads x before es accounts v (is_payout_eligible now w)
                "That wallet is not confirmed and past its cooling-off period yet.")
              λ _.
                Leads-bind _ _ (Leads-pre _ (λ d h. h.0) (rendered x before es accounts))
                  λ available.
                    Leads-bind _ _
                      (carried x before es accounts
                        (available
                          ≡ less_in_flight usd (own_balance x before es accounts)
                              (listed x before es accounts))
                        _
                        ((require-Leads x before es accounts) v (leb_ℤ amount available)
                          "That amount is more than your available balance."))
                      λ _.
                        Leads-bind _ _ (create_payout-Leads w i amount available positive)
                          λ id. Leads-Keeps _ (λ d h. h) (tail-Keeps v id amount)

    submit_payout_request-Leads :
        (enabled : Bool) (v : Visitor) (form : Option PayoutForm)
        → Leads
            (Before x before es accounts)
            (λ _. (After x before es accounts))
            (After x before es accounts)
            (submit_payout_request enabled v x form)
    unfolding submit_payout_request Before
    submit_payout_request-Leads enabled v form =
        Leads-bind _ _
          (kept x before es accounts (guard enabled gig.Handlers.Response.page_not_found)
            (search keeps_rules))
          λ _.
            Leads-bind _ _
              (kept x before es accounts _ (or_answer-Keeps (Before x before es accounts) form _))
              λ f.
                Leads-bind _ _
                  (positive_amount-Leads x before es accounts v (parse_dollars_to_minor f.amount))
                  λ amount.
                    Leads-bind _ _
                      (carried x before es accounts (leb_ℤ amount (pos 0) ≡ false) _ (
                        kept x before es accounts _
                          (own_wallet-Keeps (Untouched x before es accounts) v x f.wallet_id)))
                      λ w. record {
                        at = λ db h. (queue_payout-Leads v w f.wallet_id amount h.1).at db h.0;
                      }

-- For a user with at most 200 payouts, if the ledger's balance and what it leaves over what is promised fit
-- an int64: a request for a payout, under any faults of the database, leaves the payouts as they were or
-- adds one at the end, of the user, of a positive amount, and the user's payouts in USD that are neither
-- completed nor canceled then sum up to at most the ledger's balance.
pub submit_payout_request-IsCovered :
    (enabled : Bool) (v : Visitor) (x : User) (form : Option PayoutForm) (db : Db)
    → count_where (λ p. p.seller_id == x.id) db.payouts ≤ 200
    → IsInt64 (ledger_balance x.id db)
    → IsInt64 (ledger_balance x.id db -ℤ promised usd x.id db.payouts)
    → ((submit_payout_request enabled v x form db).1.payouts ≡ db.payouts)
      ⊎ IsCovered x.id
          (ledger_balance x.id db)
          db.payouts
          (submit_payout_request enabled v x form db).1.payouts
unfolding After Before Quiet Untouched Settled
submit_payout_request-IsCovered enabled v x form db few fits fits_less =
    outcome_both (After x db.payouts db.ledger_entries db.ledger_accounts)
      (submit_payout_request enabled v x form db).0 (submit_payout_request enabled v x form db).1
      ((submit_payout_request-Leads x db.payouts db.ledger_entries db.ledger_accounts few fits
          fits_less enabled v form).at
        db (refl, refl, refl))
