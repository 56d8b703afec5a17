-- ===== src/Accounts/Available.antt =====
-- availablePayoutBalance of handlers/wallets.go: the ledger's balance less what is promised.
use gig.Base.{
  ℕ, zero, suc, ◌+◌, ◌≤◌, ◌==◌, ◌&&◌, List, [], ◌∷◌, ltb, length, count_where, Bool-cases, ◌≡◌, inl,
  inr, refl, sym, ap, ◌∙◌, arith, if◌then◌else◌,
}
use gig.Base.Int.{ℤ, pos, ◌+ℤ◌, ◌-ℤ◌, int_laws, wrap64, wrap64_id, wrap64-IsInt64, IsInt64}
use gig.Base.Text.{Bytes}
use gig.Db.{Payout}
use gig.Store.Balances.{insert_newest, newest_of, first_rows}
use gig.Handlers.SellerWallets.{is_in_flight, equal_fold, less_in_flight}

-- Wrapping early does not change a difference.
wrap64--ℤ : (a b : ℤ) → wrap64 (wrap64 a -ℤ b) ≡ wrap64 (a -ℤ b)
unfolding wrap64 ◌-ℤ◌
wrap64--ℤ a b = ground arith

module _ (currency : Bytes) where
  -- What a payout of the currency ties up.
  unfoldable pub weight : Payout → ℤ
  weight p =
      if equal_fold p.currency currency && is_in_flight p.status then p.amount_minor else pos 0

  unfoldable total : List Payout → ℤ
  total [] = pos 0
  total (p ∷ ps) = weight p +ℤ total ps

  -- The seller's payouts in the currency that are neither completed nor canceled, in all.
  unfoldable pub promised : ℕ → List Payout → ℤ
  promised seller [] = pos 0
  promised seller (p ∷ ps) =
      let rest = promised seller ps in if p.seller_id == seller then weight p +ℤ rest else rest

  less_step : (a w t : ℤ) → wrap64 (wrap64 (a -ℤ w) -ℤ t) ≡ wrap64 (a -ℤ (w +ℤ t))
  less_step a w t =
      wrap64--ℤ (a -ℤ w) t
      ∙ ap wrap64 (let same : (a -ℤ w) -ℤ t ≡ a -ℤ (w +ℤ t) = omega int_laws in same)

  less_none : (a t : ℤ) → wrap64 (a -ℤ t) ≡ wrap64 (a -ℤ (pos 0 +ℤ t))
  less_none a t = ap wrap64 (let same : a -ℤ t ≡ a -ℤ (pos 0 +ℤ t) = omega int_laws in same)

  less_zero : (a : ℤ) → IsInt64 a → wrap64 (a -ℤ pos 0) ≡ a
  less_zero a h = ap wrap64 (let same : a -ℤ pos 0 ≡ a = omega int_laws in same) ∙ wrap64_id a h

  less_in_flight-total :
      (a : ℤ) (ps : List Payout) → IsInt64 a → less_in_flight currency a ps ≡ wrap64 (a -ℤ total ps)
  unfolding less_in_flight total weight
  less_in_flight-total a [] h = (sym (less_zero a h))
  less_in_flight-total a (p ∷ ps) h =
      elim (Bool-cases (equal_fold p.currency currency && is_in_flight p.status)) [
        | inl e ↦ rw e (
            less_in_flight-total (wrap64 (a -ℤ p.amount_minor)) ps
              (wrap64-IsInt64 (a -ℤ p.amount_minor))
            ∙ less_step a p.amount_minor (total ps))
        | inr e ↦ rw e (less_in_flight-total a ps h ∙ less_none a (total ps))
      ]

  swap : (q p t : ℤ) → q +ℤ (p +ℤ t) ≡ p +ℤ (q +ℤ t)
  swap q p t = omega int_laws

  regroup : (p s t : ℤ) → (p +ℤ s) +ℤ t ≡ s +ℤ (p +ℤ t)
  regroup p s t = omega int_laws

  total-insert_newest :
      (p : Payout) (ps : List Payout) → total (insert_newest p ps) ≡ weight p +ℤ total ps
  unfolding total insert_newest
  total-insert_newest p [] = refl
  total-insert_newest p (q ∷ qs) = elim (Bool-cases (ltb p.created_at q.created_at)) [
    | inl e ↦ rw (e, total-insert_newest p qs) (swap (weight q) (weight p) (total qs))
    | inr e ↦ rw e refl
  ]

  none_before : (t : ℤ) → total [] +ℤ t ≡ t
  unfolding total
  none_before t = omega int_laws

  total-newest_of :
      (seller : ℕ) (sorted ps : List Payout)
      → total (newest_of seller sorted ps) ≡ total sorted +ℤ promised seller ps
  unfolding newest_of promised
  total-newest_of seller sorted [] = omega int_laws
  total-newest_of seller sorted (p ∷ ps) = elim (Bool-cases (p.seller_id == seller)) [
    | inl e ↦ rw e (
        total-newest_of seller (insert_newest p sorted) ps
        ∙ ap (λ t. t +ℤ promised seller ps) (total-insert_newest p sorted)
        ∙ regroup (weight p) (total sorted) (promised seller ps))
    | inr e ↦ rw e (total-newest_of seller sorted ps)
  ]

  length-insert_newest :
      (p : Payout) (ps : List Payout) → length (insert_newest p ps) ≡ length ps + 1
  unfolding insert_newest
  length-insert_newest p [] = refl
  length-insert_newest p (q ∷ qs) = ground (arith, length-insert_newest p qs)

  length-newest_of :
      (seller : ℕ) (sorted ps : List Payout)
      → length (newest_of seller sorted ps)
        ≡ length sorted + count_where (λ p. p.seller_id == seller) ps
  unfolding newest_of
  length-newest_of seller sorted [] = omega arith
  length-newest_of seller sorted (p ∷ ps) = elim (Bool-cases (p.seller_id == seller)) [
    | inl e ↦ rw e (
        omega (
          arith,
          length-newest_of seller (insert_newest p sorted) ps,
          length-insert_newest p sorted,
        ))
    | inr e ↦ rw e (length-newest_of seller sorted ps)
  ]

  first_rows-all : (n : ℕ) (ps : List Payout) → length ps ≤ n → first_rows n ps ≡ ps
  unfolding first_rows
  first_rows-all zero [] h = refl
  first_rows-all zero (p ∷ ps) h = absurd (omega arith)
  first_rows-all (suc n) [] h = refl
  first_rows-all (suc n) (p ∷ ps) h = ap (λ xs. p ∷ xs) (first_rows-all n ps (omega arith))

  -- With at most 200 payouts of the seller, the loop over the newest of them takes off all that is promised.
  pub less_in_flight-promised :
      (seller : ℕ) (a : ℤ) (ps : List Payout)
      → count_where (λ p. p.seller_id == seller) ps ≤ 200
      → IsInt64 a
      → less_in_flight currency a (first_rows 200 (newest_of seller [] ps))
        ≡ wrap64 (a -ℤ promised seller ps)
  less_in_flight-promised seller a ps few h =
      ap (less_in_flight currency a)
        (first_rows-all 200 (newest_of seller [] ps) (omega (arith, length-newest_of seller [] ps)))
      ∙ (less_in_flight-total a (newest_of seller [] ps) h
          ∙ ap (λ t. wrap64 (a -ℤ t))
              (total-newest_of seller [] ps ∙ none_before (promised seller ps)))
