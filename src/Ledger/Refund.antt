-- ===== src/Ledger/Refund.antt =====
-- The postings of a refund and of a manual adjustment, and the reversal of a capture by a refund.
use gig.Base.{
  ℕ, ◌≡◌, refl, sym, ◌∙◌, ap, ◌↔◌, inl, inr, Bool, true, false, none, some, List, [], ◌∷◌, ◌++◌,
  arith, if◌then◌else◌, Bool-cases,
}
use gig.Base.Int.{
  ℤ, pos, negsuc, ◌+ℤ◌, ◌-ℤ◌, ◌≤ℤ◌, ◌<ℤ◌, leb_ℤ, ltb_ℤ, eqb_ℤ, wrap64, wrap64_id, IsInt64, int_laws,
}
use gig.Base.Text.{Bytes, bytes_eq, bytes_eq_iff, codes}
use gig.Base.Result.{ok}
use gig.Ledger.{
  platform_revenue, refunds, provider_clearing, debit, credit, Entry, entry, append_if,
  seller_account, validate, payment_captured, earnings_released, refund_issued,
}
use gig.Ledger.Net.{
  net, net-append_if, Account, amount_at, account_net, account_net-append, account_net-append_if,
  debit_if,
}
use gig.Ledger.Validate.{validate_iff}
use gig.Ledger.Capture.{
  validated_balanced, All-append_if, payment_captured_iff, payment_captured-account_net,
  earnings_released-account_net, payable-IsInt64,
}

-- The check that entries balance refuses a share below 0, also where the int64 sum of the shares
-- has wrapped round to the amount.
shares_decide :
    (amount fee payable : ℤ)
    → IsInt64 amount
    → IsInt64 fee
    → IsInt64 payable
    → pos 0 <ℤ amount
    → wrap64 (fee +ℤ payable) ≡ amount
    → wrap64 (
        amount
        -ℤ ((if ltb_ℤ (pos 0) fee then fee else pos 0)
            +ℤ (if ltb_ℤ (pos 0) payable then payable else pos 0)))
      ≡ pos 0
    → (pos 0 <ℤ amount) × (pos 0 ≤ℤ fee) × (pos 0 ≤ℤ payable) × (fee +ℤ payable ≡ amount)
unfolding wrap64 ◌+ℤ◌ ◌-ℤ◌
shares_decide (negsuc a) fee payable ia ja ka p w z = absurd (omega arith)
shares_decide (pos a) (pos f) (pos q) ia ja ka p w z = (p, omega arith, omega arith, ground arith)
shares_decide (pos a) (pos f) (negsuc q) ia ja ka p w z = absurd (ground arith)
shares_decide (pos a) (negsuc f) (pos q) ia ja ka p w z = absurd (ground arith)
shares_decide (pos a) (negsuc f) (negsuc q) ia ja ka p w z = absurd (ground arith)

module _ (order seller : ℕ) (amount fee payable : ℤ) (available : Bool) (currency : Bytes)
    (amount_int : IsInt64 amount) (fee_int : IsInt64 fee) (payable_int : IsInt64 payable) where
  abbrev IsRefundable : Type 0
  IsRefundable = (pos 0 <ℤ amount) × (pos 0 ≤ℤ fee) × (pos 0 ≤ℤ payable) × (fee +ℤ payable ≡ amount)

  abbrev issued : Entry
  issued = entry refunds none debit amount currency (some order) (codes "refund issued")

  abbrev routed : Entry
  routed =
      entry provider_clearing none credit amount currency (some order)
        (codes "refund routed to buyer")

  abbrev fee_entry : Entry
  fee_entry =
      entry platform_revenue none debit fee currency (some order) (codes "platform fee refunded")

  abbrev payable_entry : Entry
  payable_entry =
      entry (seller_account available) (some seller) debit payable currency (some order)
        (codes "seller payable refunded")

  abbrev funded : Entry
  funded =
      entry refunds none credit (wrap64 (fee +ℤ payable)) currency (some order)
        (codes "refund funded from fee/payable shares")

  abbrev drawn : List Entry
  drawn =
      append_if (ltb_ℤ (pos 0) fee) fee_entry
      ++ (append_if (ltb_ℤ (pos 0) payable) payable_entry ++ funded ∷ [])

  abbrev all_postings : List Entry
  all_postings = issued ∷ routed ∷ drawn

  cancels :
      (t : Bool)
      → fee +ℤ payable ≡ amount
      → (if t then pos 0 -ℤ amount else pos 0)
          +ℤ ((if t then amount else pos 0)
              +ℤ ((if t then pos 0 -ℤ fee else pos 0)
                  +ℤ ((if t then pos 0 -ℤ payable else pos 0)
                      +ℤ ((if t then amount else pos 0) +ℤ pos 0))))
        ≡ pos 0
  cancels true h = rw (← h) (omega int_laws)
  cancels false h = omega int_laws

  shares_wrap : IsRefundable → wrap64 (fee +ℤ payable) ≡ amount
  shares_wrap h = rw (h.3) (wrap64_id amount amount_int)

  drawn_account :
      IsRefundable
      → (a : Account)
      → account_net a drawn ≡ account_net a (fee_entry ∷ payable_entry ∷ funded ∷ [])
  drawn_account h a =
      rw (account_net-append_if a fee_entry _ h.1)
        (rw (account_net-append_if a payable_entry (funded ∷ []) h.2))

  drawn_net : IsRefundable → (c : Bytes) → net c all_postings ≡ pos 0
  drawn_net h c = rw (net-append_if c fee_entry _ h.1) (
      rw (net-append_if c payable_entry (funded ∷ []) h.2)
        (rw (shares_wrap h) (cancels (bytes_eq c currency) h.3)))

  refund_runs :
      IsRefundable
      → refund_issued order seller amount fee payable available currency ≡ ok all_postings
  unfolding refund_issued
  refund_runs h =
      let t1 : leb_ℤ amount (pos 0) ≡ false = ground arith in
      let t2 : eqb_ℤ (wrap64 (fee +ℤ payable)) amount ≡ true = rw (shares_wrap h) (ground arith) in
      rw (t1, t2)
        (validated_balanced issued (routed ∷ drawn)
          (
            (h.0, tt),
            (
              (h.0, tt),
              All-append_if fee_entry _ (omega arith, tt)
                  (All-append_if payable_entry (funded ∷ []) (omega arith, tt)
                    ((rw (shares_wrap h) h.0, tt), tt)),
            ),
          )
          (drawn_net h))

  passed_tests :
      {es : List Entry}
      → refund_issued order seller amount fee payable available currency ≡ ok es
      → (pos 0 <ℤ amount) × (wrap64 (fee +ℤ payable) ≡ amount) × (validate all_postings ≡ ok tt)
  unfolding refund_issued
  passed_tests h = ground arith

  sum_of_shares : (t u : Bool) → ℤ
  sum_of_shares t u =
      (pos 0 -ℤ amount)
      +ℤ (amount
          +ℤ ((if t then pos 0 -ℤ fee else pos 0)
              +ℤ ((if u then pos 0 -ℤ payable else pos 0) +ℤ wrap64 (fee +ℤ payable))))

  net_by_tests :
      net currency all_postings ≡ sum_of_shares (ltb_ℤ (pos 0) fee) (ltb_ℤ (pos 0) payable)
  unfolding sum_of_shares
  net_by_tests =
      let same : bytes_eq currency currency ≡ true = (bytes_eq_iff currency currency).1 refl in
      elim (Bool-cases (ltb_ℤ (pos 0) fee)) [
        | inl t ↦ elim (Bool-cases (ltb_ℤ (pos 0) payable)) [
          | inl u ↦ rw (t, u, same) (omega int_laws)
          | inr u ↦ rw (t, u, same) (omega int_laws)
        ]
        | inr t ↦ elim (Bool-cases (ltb_ℤ (pos 0) payable)) [
          | inl u ↦ rw (t, u, same) (omega int_laws)
          | inr u ↦ rw (t, u, same) (omega int_laws)
        ]
      ]

  sum_simplified :
      (t u : Bool)
      → wrap64 (fee +ℤ payable) ≡ amount
      → sum_of_shares t u ≡ amount -ℤ ((if t then fee else pos 0) +ℤ (if u then payable else pos 0))
  unfolding sum_of_shares
  sum_simplified true true h = rw h (omega int_laws)
  sum_simplified true false h = rw h (omega int_laws)
  sum_simplified false true h = rw h (omega int_laws)
  sum_simplified false false h = rw h (omega int_laws)

  refund_needs :
      {es : List Entry}
      → refund_issued order seller amount fee payable available currency ≡ ok es
      → IsRefundable
  refund_needs h =
      let (positive, shares, valid) = passed_tests h in
      let zero = ((validate_iff all_postings).0 valid).2 currency in
      let sum =
        ap wrap64 (
          sym (sum_simplified (ltb_ℤ (pos 0) fee) (ltb_ℤ (pos 0) payable) shares)
          ∙ sym net_by_tests)
        ∙ zero in
      shares_decide amount fee payable amount_int fee_int payable_int positive shares sum

-- For int64 amounts a refund is posted exactly when its amount is positive, neither share is
-- negative and the two shares add up to the amount, without wrapping.
pub refund_issued_iff :
    (order seller : ℕ) (amount fee payable : ℤ) (available : Bool) (currency : Bytes)
    → IsInt64 amount
    → IsInt64 fee
    → IsInt64 payable
    → ((es : List Entry) × (refund_issued order seller amount fee payable available currency
          ≡ ok es))
      ↔ ((pos 0 <ℤ amount) × (pos 0 ≤ℤ fee) × (pos 0 ≤ℤ payable) × (fee +ℤ payable ≡ amount))
refund_issued_iff order seller amount fee payable available currency ia ja ka = (
  λ (es, h). refund_needs order seller amount fee payable available currency ia ja ka h,
  λ h. (_, refund_runs order seller amount fee payable available currency ia ja ka h),
)

refund_issued-account_net :
    (order seller : ℕ) (amount fee payable : ℤ) (available : Bool) (currency : Bytes)
    → IsInt64 amount
    → IsInt64 fee
    → IsInt64 payable
    → (es : List Entry) → refund_issued order seller amount fee payable available currency ≡ ok es
    → (a : Account)
    → account_net a es
      ≡ amount_at a provider_clearing none currency amount
        -ℤ (amount_at a platform_revenue none currency fee
            +ℤ amount_at a (seller_account available) (some seller) currency payable)
refund_issued-account_net order seller amount fee payable available currency ia ja ka es h a =
    let need = refund_needs order seller amount fee payable available currency ia ja ka h in
    let run = refund_runs order seller amount fee payable available currency ia ja ka need in
    let e : es ≡ all_postings order seller amount fee payable available currency ia ja ka = cc in
    rw e (
      rw (drawn_account order seller amount fee payable available currency ia ja ka need a) (
        rw (shares_wrap order seller amount fee payable available currency ia ja ka need)
          (simp debit_if (omega int_laws))))

-- A capture followed by a refund of the whole gross amount with the capture's own shares, drawn
-- from the seller's pending account in the capture's currency, leaves every account as it was.
pub refund_reverses_capture :
    (order seller : ℕ) (gross fee : ℤ) (currency : Bytes)
    → IsInt64 gross
    → IsInt64 fee
    → (captured refunded : List Entry)
    → payment_captured order seller gross fee currency ≡ ok captured
    → refund_issued order seller gross fee (gross -ℤ fee) false currency ≡ ok refunded
    → (a : Account) → account_net a (captured ++ refunded) ≡ pos 0
refund_reverses_capture order seller gross fee currency ia ja captured refunded hc hr a =
    rw
      (
        account_net-append a captured refunded,
        payment_captured-account_net order seller gross fee currency ia ja captured hc a,
        refund_issued-account_net order seller gross fee (gross -ℤ fee) false currency ia ja
            (difference_int64 hc) refunded hr a,
      )
      (simp debit_if (omega int_laws))
  where
    difference_int64 :
        payment_captured order seller gross fee currency ≡ ok captured → IsInt64 (gross -ℤ fee)
    difference_int64 q =
        payable-IsInt64 gross fee ia
          ((payment_captured_iff order seller gross fee currency ia ja).0 (captured, q))

-- Once the earnings of an order have been released, a full refund drawn from the seller's
-- available account undoes the capture and the release together: every account is as it was.
pub refund_reverses_release :
    (order seller : ℕ) (gross fee : ℤ) (currency : Bytes)
    → IsInt64 gross
    → IsInt64 fee
    → (captured released refunded : List Entry)
    → payment_captured order seller gross fee currency ≡ ok captured
    → earnings_released order seller (gross -ℤ fee) currency ≡ ok released
    → refund_issued order seller gross fee (gross -ℤ fee) true currency ≡ ok refunded
    → (a : Account) → account_net a (captured ++ (released ++ refunded)) ≡ pos 0
refund_reverses_release order seller gross fee currency ia ja captured released refunded hc hl hr
      a =
    rw
      (
        account_net-append a captured (released ++ refunded),
        account_net-append a released refunded,
        payment_captured-account_net order seller gross fee currency ia ja captured hc a,
        earnings_released-account_net order seller (gross -ℤ fee) currency released hl a,
        refund_issued-account_net order seller gross fee (gross -ℤ fee) true currency ia ja
            (difference_int64 hc) refunded hr a,
      )
      (simp debit_if (omega int_laws))
  where
    difference_int64 :
        payment_captured order seller gross fee currency ≡ ok captured → IsInt64 (gross -ℤ fee)
    difference_int64 q =
        payable-IsInt64 gross fee ia
          ((payment_captured_iff order seller gross fee currency ia ja).0 (captured, q))
