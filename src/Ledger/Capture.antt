-- ===== src/Ledger/Capture.antt =====
-- The postings of a captured payment and of released earnings.
use mathlib.Core.List.{append-nil}
use gig.Base.{
  ℕ, ◌≡◌, ◌∙◌, ap, ◌↔◌, inl, inr, Bool, true, false, ◌||◌, none, some, List, [], ◌∷◌, ◌++◌, All,
  arith, if◌then◌else◌, Bool-cases,
}
use gig.Base.Int.{
  ℤ, pos, ◌+ℤ◌, ◌-ℤ◌, ◌≤ℤ◌, ◌<ℤ◌, leb_ℤ, ltb_ℤ, wrap64, wrap64_id, IsInt64, int_laws,
}
use gig.Base.Text.{Bytes, bytes_eq, codes}
use gig.Base.Result.{ok}
use gig.Ledger.{
  platform_revenue, seller_pending, seller_available, provider_clearing, debit, credit, Entry,
  entry, append_if, validated, payment_captured, earnings_released,
}
use gig.Ledger.Net.{
  net, IsPostable, net-append_if, Account, amount_at, account_net, account_net-append_if,
  net-append_if_last, account_net-append_if_last,
}
use gig.Ledger.Validate.{validate_iff}

-- Entries whose signed amounts add up to nothing in each currency pass the check.
pub validated_balanced :
    (e : Entry) (es : List Entry)
    → All IsPostable (e ∷ es)
    → ((c : Bytes) → net c (e ∷ es) ≡ pos 0)
    → validated (e ∷ es) ≡ ok (e ∷ es)
validated_balanced e es all zero = rw (
    (validate_iff (e ∷ es)).1
      (λ q. cc, all, λ c. ap wrap64 (zero c) ∙ wrap64_id (pos 0) (ground arith)))

pub All-append_if :
    (e : Entry) (es : List Entry)
    → IsPostable (record e { amount_minor = pos 1 })
    → All IsPostable es
    → All IsPostable (append_if (ltb_ℤ (pos 0) e.amount_minor) e ++ es)
All-append_if e es p h = elim (Bool-cases (ltb_ℤ (pos 0) e.amount_minor)) [
  | inl kept ↦ rw kept ((ground arith, p.1), h)
  | inr left_out ↦ rw left_out h
]

pub All-append_if_last :
    (e : Entry)
    → IsPostable (record e { amount_minor = pos 1 })
    → All IsPostable (append_if (ltb_ℤ (pos 0) e.amount_minor) e)
All-append_if_last e p = rw (← append-nil (append_if _ e)) (All-append_if e [] p tt)

pub payable-IsInt64 :
    (gross fee : ℤ)
    → IsInt64 gross
    → (pos 0 <ℤ gross) × (pos 0 ≤ℤ fee) × (fee ≤ℤ gross)
    → IsInt64 (gross -ℤ fee)
unfolding ◌-ℤ◌
payable-IsInt64 gross fee i h = ground arith

module _ (order seller : ℕ) (gross fee : ℤ) (currency : Bytes) (gross_int : IsInt64 gross)
    (fee_int : IsInt64 fee) where
  abbrev fee_entry : Entry
  fee_entry = entry platform_revenue none credit fee currency (some order) (codes "platform fee")

  abbrev payable_entry : Entry
  payable_entry =
      entry seller_pending (some seller) credit (gross -ℤ fee) currency (some order)
        (codes "seller payable, pending acceptance")

  abbrev clearing_entry : Entry
  clearing_entry =
      entry provider_clearing none debit gross currency (some order) (codes "payment captured")

  abbrev posted : List Entry
  posted =
      append_if (ltb_ℤ (pos 0) fee) fee_entry
      ++ append_if (ltb_ℤ (pos 0) (gross -ℤ fee)) payable_entry

  abbrev IsCapturable : Type 0
  IsCapturable = (pos 0 <ℤ gross) × (pos 0 ≤ℤ fee) × (fee ≤ℤ gross)

  payable_nonneg : IsCapturable → pos 0 ≤ℤ gross -ℤ fee
  payable_nonneg h = omega int_laws

  payable_wrap : IsCapturable → wrap64 (gross -ℤ fee) ≡ gross -ℤ fee
  payable_wrap h = wrap64_id (gross -ℤ fee) (payable-IsInt64 gross fee gross_int h)

  cancels :
      (t : Bool)
      → (if t then pos 0 -ℤ gross else pos 0)
          +ℤ ((if t then fee else pos 0) +ℤ ((if t then gross -ℤ fee else pos 0) +ℤ pos 0))
        ≡ pos 0
  cancels true = omega int_laws
  cancels false = omega int_laws

  posted-net : IsCapturable → (c : Bytes) → net c (clearing_entry ∷ posted) ≡ pos 0
  posted-net h c =
      rw (net-append_if c fee_entry _ h.1)
        (rw (net-append_if_last c payable_entry (payable_nonneg h)) (cancels (bytes_eq c currency)))

  posted_account :
      IsCapturable
      → (a : Account) → account_net a posted ≡ account_net a (fee_entry ∷ payable_entry ∷ [])
  posted_account h a =
      rw (account_net-append_if a fee_entry _ h.1)
        (rw (account_net-append_if_last a payable_entry (payable_nonneg h)))

  capture_runs :
      IsCapturable → payment_captured order seller gross fee currency ≡ ok (clearing_entry ∷ posted)
  unfolding payment_captured
  capture_runs h =
      let t1 : leb_ℤ gross (pos 0) ≡ false = ground arith in
      let t2 : (ltb_ℤ fee (pos 0) || ltb_ℤ gross fee) ≡ false = ground arith in
      rw (t1, t2, payable_wrap h)
        (validated_balanced clearing_entry posted
          (
            (h.0, tt),
            All-append_if fee_entry (append_if (ltb_ℤ (pos 0) (gross -ℤ fee)) payable_entry)
                (omega arith, tt) (All-append_if_last payable_entry (omega arith, tt)),
          )
          (posted-net h))

  capture_needs :
      {es : List Entry} → payment_captured order seller gross fee currency ≡ ok es → IsCapturable
  unfolding payment_captured
  capture_needs h = ground arith

  captured_entries :
      {es : List Entry}
      → payment_captured order seller gross fee currency ≡ ok es
      → es ≡ clearing_entry ∷ posted
  captured_entries h = let run = capture_runs (capture_needs h) in cc

-- For int64 amounts a capture is posted exactly when the gross amount is positive and the fee lies
-- between 0 and the gross amount.
pub payment_captured_iff :
    (order seller : ℕ) (gross fee : ℤ) (currency : Bytes)
    → IsInt64 gross
    → IsInt64 fee
    → ((es : List Entry) × (payment_captured order seller gross fee currency ≡ ok es))
      ↔ ((pos 0 <ℤ gross) × (pos 0 ≤ℤ fee) × (fee ≤ℤ gross))
payment_captured_iff order seller gross fee currency hg hf = (
  λ (es, h). capture_needs order seller gross fee currency hg hf h,
  λ h. (_, capture_runs order seller gross fee currency hg hf h),
)

-- A posted capture takes the gross amount out of the clearing account and puts the fee into the
-- platform's revenue and the rest into the seller's pending earnings, all in the capture's
-- currency; it adds nothing to any other account.
pub payment_captured-account_net :
    (order seller : ℕ) (gross fee : ℤ) (currency : Bytes)
    → IsInt64 gross
    → IsInt64 fee
    → (es : List Entry) → payment_captured order seller gross fee currency ≡ ok es
    → (a : Account)
    → account_net a es
      ≡ amount_at a provider_clearing none currency (pos 0 -ℤ gross)
        +ℤ (amount_at a platform_revenue none currency fee
            +ℤ amount_at a seller_pending (some seller) currency (gross -ℤ fee))
payment_captured-account_net order seller gross fee currency hg hf es h a =
    rw (captured_entries order seller gross fee currency hg hf h) (
      rw
        (posted_account order seller gross fee currency hg hf
          (capture_needs order seller gross fee currency hg hf h) a)
        (regroup _ _ _))
  where
    regroup : (x y z : ℤ) → x +ℤ (y +ℤ (z +ℤ pos 0)) ≡ x +ℤ (y +ℤ z)
    regroup x y z = omega int_laws

released_net :
    (t : Bool) (x : ℤ)
    → (if t then pos 0 -ℤ x else pos 0) +ℤ ((if t then x else pos 0) +ℤ pos 0) ≡ pos 0
released_net true x = omega int_laws
released_net false x = omega int_laws

module _ (order seller : ℕ) (amount : ℤ) (currency : Bytes) where
  abbrev release_postings : List Entry
  release_postings =
      entry seller_pending (some seller) debit amount currency (some order)
        (codes "seller earnings released")
      ∷ entry seller_available (some seller) credit amount currency (some order)
          (codes "seller earnings available")
      ∷ []

  release_runs :
      pos 0 <ℤ amount → earnings_released order seller amount currency ≡ ok release_postings
  unfolding earnings_released
  release_runs h =
      let t : leb_ℤ amount (pos 0) ≡ false = ground arith in
      rw t (
        validated_balanced _ _ ((h, tt), ((h, tt), tt))
          (λ c. released_net (bytes_eq c currency) amount))

  release_needs :
      {es : List Entry} → earnings_released order seller amount currency ≡ ok es → pos 0 <ℤ amount
  unfolding earnings_released
  release_needs h = ground arith

-- Earnings are released exactly when the amount is positive.
pub earnings_released_iff :
    (order seller : ℕ) (amount : ℤ) (currency : Bytes)
    → ((es : List Entry) × (earnings_released order seller amount currency ≡ ok es))
      ↔ (pos 0 <ℤ amount)
earnings_released_iff order seller amount currency = (
  λ (es, h). release_needs order seller amount currency h,
  λ h. (_, release_runs order seller amount currency h),
)

-- Released earnings leave the seller's pending account for the seller's available account of the
-- same currency, and no other account changes.
pub earnings_released-account_net :
    (order seller : ℕ) (amount : ℤ) (currency : Bytes) (es : List Entry)
    → earnings_released order seller amount currency ≡ ok es
    → (a : Account)
    → account_net a es
      ≡ amount_at a seller_pending (some seller) currency (pos 0 -ℤ amount)
        +ℤ amount_at a seller_available (some seller) currency amount
earnings_released-account_net order seller amount currency es h a =
    let run =
      release_runs order seller amount currency (release_needs order seller amount currency h) in
    let e : es ≡ release_postings order seller amount currency = cc in rw e (omega int_laws)
