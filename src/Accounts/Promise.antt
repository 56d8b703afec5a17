-- ===== src/Accounts/Promise.antt =====
-- What is promised of a balance, when a payout is added.
use gig.Base.{ℕ, ◌==◌, true, List, [], ◌∷◌, ◌++◌, Bool-cases, ◌≡◌, inl, inr, refl, arith}
use gig.Base.Int.{
  ℤ, pos, ◌+ℤ◌, ◌-ℤ◌, ◌≤ℤ◌, leb_ℤ, wrap64, wrap64_id, IsInt64, int_laws, +ℤ_parts, -ℤ_parts,
}
use gig.Base.Text.{Bytes}
use gig.Db.{Payout}
use gig.Store.Payouts.{new_payout}
use gig.Handlers.Checkout.{is_high_value}
use gig.Handlers.SellerWallets.{usd, initial_status, equal_fold}
use gig.Accounts.Available.{weight, promised}

-- An amount that is not above what is available.
pub covered :
    (amount balance promise : ℤ)
    → IsInt64 (balance -ℤ promise)
    → leb_ℤ amount (wrap64 (balance -ℤ promise)) ≡ true
    → promise +ℤ amount ≤ℤ balance
covered amount balance promise h e =
    let fits : wrap64 (balance -ℤ promise) ≡ balance -ℤ promise =
      wrap64_id (balance -ℤ promise) h in
    ground (arith, rw fits at e, +ℤ_parts promise amount, -ℤ_parts balance promise)

flip : (w : ℤ) → w +ℤ pos 0 ≡ pos 0 +ℤ w
flip w = omega int_laws

assoc : (v t w : ℤ) → v +ℤ (t +ℤ w) ≡ (v +ℤ t) +ℤ w
assoc v t w = omega int_laws

pub promised-append_one :
    (seller : ℕ) (ps : List Payout) (p : Payout)
    → (p.seller_id == seller) ≡ true
    → promised usd seller (ps ++ p ∷ []) ≡ promised usd seller ps +ℤ weight usd p
unfolding promised
promised-append_one seller [] p e = rw e (flip (weight usd p))
promised-append_one seller (q ∷ ps) p e = elim (Bool-cases (q.seller_id == seller)) [
  | inl h ↦
      rw (h, promised-append_one seller ps p e)
        (assoc (weight usd q) (promised usd seller ps) (weight usd p))
  | inr h ↦ rw h (promised-append_one seller ps p e)
]

-- A new payout ties its amount up.
pub weight-new_payout :
    (id now seller wallet : ℕ) (amount : ℤ) (network asset : Bytes)
    → weight usd (new_payout id now seller wallet amount usd network asset (initial_status amount))
      ≡ amount
unfolding weight equal_fold
weight-new_payout id now seller wallet amount network asset =
    elim (Bool-cases (is_high_value amount)) [ inl e ↦ rw e refl | inr e ↦ rw e refl ]
