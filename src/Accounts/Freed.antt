-- ===== src/Accounts/Freed.antt =====
-- adminPayoutComplete of handlers/payments.go against availablePayoutBalance of handlers/wallets.go.
use gig.Base.{
  ℕ, ◌+◌, ◌==◌, ==_refl, Bool, true, false, not, ◌&&◌, Option, none, some, List, [], ◌∷◌, find,
  update_where, count_where, Bool-cases, and_split, ◌≡◌, inl, inr, refl, sym, ap, ◌∙◌, arith,
  if◌then◌else◌,
}
use gig.Base.Int.{ℤ, pos, ◌+ℤ◌, int_laws, +ℤ_parts, eq_of_parts}
use gig.Base.Text.{Bytes, is_empty, trim_space}
use gig.Db.{Db, Payout, PayoutStatus, payout_ready, payout_completed, ◌>>=◌}
use gig.Store.Payouts.{is_payout_in, is_payout_status, move_payout, transition_payout}
use gig.Store.Orders.{write_audit}
use gig.Db.Table.{find-passes}
use gig.Handlers.Response.{audit}
use gig.Handlers.Payouts.{admin_payout_complete}
use gig.Handlers.SellerWallets.{usd, equal_fold, is_in_flight}
use gig.Accounts.Available.{weight, promised}
use gig.Accounts.Reads.{ledger_balance}

unhit :
    (q : Payout → Bool) (f : Payout → Payout) (ps : List Payout)
    → count_where q ps ≡ 0
    → update_where q f ps ≡ ps
unhit q f [] h = refl
unhit q f (p ∷ ps) h = elim (Bool-cases (q p)) [
  | inl e ↦ absurd (omega (arith, rw e at h))
  | inr e ↦ rw e (ap (λ xs. p ∷ xs) (unhit q f ps (rw e at h)))
]

module _ (i seller now : ℕ) (reviewer : Option ℕ) (hash : Bytes) where
  abbrev is_hit : Payout → Bool
  is_hit = is_payout_in i payout_ready

  abbrev complete : Payout → Payout
  complete = move_payout now payout_completed reviewer hash

  completed_weight : (p : Payout) → weight usd (complete p) ≡ pos 0
  unfolding weight move_payout
  completed_weight p = ground arith

  one_less : (t w : ℤ) → (pos 0 +ℤ t) +ℤ w ≡ w +ℤ t
  one_less t w = omega int_laws

  later_less : (v t w r : ℤ) → t +ℤ w ≡ r → (v +ℤ t) +ℤ w ≡ v +ℤ r
  later_less v t w r e = omega (int_laws, ap gig.Base.Int.pos_part e, ap gig.Base.Int.neg_part e)

  abbrev weight_of : Option Payout → ℤ
  weight_of none = pos 0
  weight_of (some p) = weight usd p

  abbrev owned : Option Payout → Bool
  owned none = false
  owned (some p) = p.seller_id == seller

  promised-update_where :
      (ps : List Payout) (p : Payout)
      → count_where is_hit ps ≡ 1
      → find is_hit ps ≡ some p
      → (p.seller_id == seller) ≡ true
      → promised usd seller (update_where is_hit complete ps) +ℤ weight usd p
        ≡ promised usd seller ps
  unfolding promised move_payout
  promised-update_where [] p one found own = absurd (omega (arith, one))
  promised-update_where (q ∷ ps) p one found own = elim (Bool-cases (is_hit q)) [
    | inl e ↦
        let same : some q ≡ some p = rw e at found in
        let weighs : weight usd q ≡ weight usd p = ap weight_of same in
        let mine : (q.seller_id == seller) ≡ true = ap owned same ∙ own in
        let alone : count_where is_hit ps ≡ 0 = omega (arith, rw e at one) in
        rw (e, mine, completed_weight q, unhit is_hit complete ps alone, weighs)
          (one_less (promised usd seller ps) (weight usd p))
    | inr e ↦ elim (Bool-cases (q.seller_id == seller)) [
      | inl mine ↦
          rw (e, mine)
            (later_less (weight usd q) (promised usd seller (update_where is_hit complete ps))
              (weight usd p) (promised usd seller ps)
              (promised-update_where ps p (rw e at one) (rw e at found) own))
      | inr other ↦ rw (e, other) (promised-update_where ps p (rw e at one) (rw e at found) own)
    ]
  ]

ready_flies : (s : PayoutStatus) → is_payout_status payout_ready s ≡ true → is_in_flight s ≡ true
ready_flies s e = ground arith

weight_ready :
    (p : Payout)
    → equal_fold p.currency usd ≡ true
    → is_in_flight p.status ≡ true
    → weight usd p ≡ p.amount_minor
unfolding weight
weight_ready p currency flies = rw (currency, flies) refl

-- What the request writes, but for the audit log.
abbrev Completed : ℕ → ℕ → Bytes → Db → Db → Type 0
Completed admin i hash db after =
    (after.payouts
      ≡ update_where (is_payout_in i payout_ready)
          (move_payout db.now payout_completed (some admin) (trim_space hash)) db.payouts)
    × (after.ledger_entries ≡ db.ledger_entries)
    × (after.ledger_accounts ≡ db.ledger_accounts)

completed :
    (admin i : ℕ) (hash : Bytes) (db : Db)
    → is_empty (trim_space hash) ≡ false
    → count_where (is_payout_in i payout_ready) db.payouts ≡ 1
    → Completed admin i hash db
        (admin_payout_complete admin (some i) (some hash) (record db { faults = [] })).1
unfolding admin_payout_complete ◌>>=◌ transition_payout audit write_audit
completed admin i hash db filled one = rw (filled, one) (refl, refl, refl)

-- While no call of the database fails: an administrator completes a payout in USD that is ready and the
-- only ready one with its number, with a hash that is not blank. Then the ledger's balance of its seller
-- is what it was, and what is promised of it is less by the payout's amount: the money that was paid out
-- may be requested again.
pub admin_payout_complete-frees :
    (admin i : ℕ) (hash : Bytes) (p : Payout) (db : Db)
    → is_empty (trim_space hash) ≡ false
    → count_where (is_payout_in i payout_ready) db.payouts ≡ 1
    → find (is_payout_in i payout_ready) db.payouts ≡ some p
    → equal_fold p.currency usd ≡ true
    → (ledger_balance p.seller_id
          (admin_payout_complete admin (some i) (some hash) (record db { faults = [] })).1
        ≡ ledger_balance p.seller_id db)
      × (promised usd p.seller_id
              (admin_payout_complete admin
                (some i)
                (some hash)
                (record db { faults = [] })).1.payouts
            +ℤ p.amount_minor
          ≡ promised usd p.seller_id db.payouts)
admin_payout_complete-frees admin i hash p db filled one found currency =
    let (moved, entries, accounts) = completed admin i hash db filled one in
    let passes : is_in_flight p.status ≡ true =
      ready_flies p.status
        (and_split _ _ (find-passes (is_payout_in i payout_ready) db.payouts p found)).1 in
    (
      rw (entries, accounts) refl,
      rw moved (
          rw (weight_ready p currency passes) at (
            promised-update_where i p.seller_id db.now (some admin) (trim_space hash) db.payouts p
              one found (==_refl p.seller_id))),
    )
