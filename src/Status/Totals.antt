-- ===== src/Status/Totals.antt =====
-- CalculateOrderTotals of services/orders.go: the price breakdown of a checkout, in int64 minor units.
use gig.Base.{ℕ, ◌+◌, ◌*◌, ◌/◌, ◌≤◌, ◌<◌, ◌≡◌, ap, ◌∙◌, List, [], ◌∷◌, map, arith}
use gig.Base.Int.{ℤ, pos, ◌+ℤ◌, ◌*ℤ◌, quot, wrap64, wrap64-pos, pos-+ℤ, pos-*ℤ}

pub record OrderTotals : Type 0 where
  pub subtotal_minor_units : ℤ
  pub platform_fee_minor_units : ℤ
  pub total_minor_units : ℤ

-- `for _, p := range addonPrices { subtotal += p }`
pub add_prices : ℤ → List ℤ → ℤ
add_prices subtotal [] = subtotal
add_prices subtotal (p ∷ ps) = add_prices (wrap64 (subtotal +ℤ p)) ps

unfoldable pub calculate_order_totals : ℤ → List ℤ → ℤ → OrderTotals
unfolding add_prices
calculate_order_totals package_price addons fee_bps =
    let subtotal = add_prices package_price addons in
    let fee = quot (wrap64 (subtotal *ℤ fee_bps)) 10000 in
    record {
      subtotal_minor_units = subtotal;
      platform_fee_minor_units = fee;
      total_minor_units = wrap64 (subtotal +ℤ fee);
    }

abbrev pub sum : List ℕ → ℕ
sum [] = 0
sum (x ∷ xs) = x + sum xs

add_prices-sum :
    (n : ℕ) (ps : List ℕ)
    → n + sum ps < 0x8000000000000000
    → add_prices (pos n) (map pos ps) ≡ pos (n + sum ps)
unfolding add_prices map
add_prices-sum n [] h = ap pos (omega arith)
add_prices-sum n (p ∷ ps) h =
    ap (λ z. add_prices z (map pos ps)) (ap wrap64 (pos-+ℤ n p) ∙ wrap64-pos (n + p) (omega arith))
    ∙ add_prices-sum (n + p) ps (omega arith)
    ∙ ap pos (omega arith)

-- The product of a subtotal and a fee in basis points stays an int64 if ten thousand subtotals do.
fee_product_bound :
    (s bps : ℕ) → bps ≤ 10000 → s * 10000 < 0x8000000000000000 → s * bps < 0x8000000000000000
fee_product_bound s bps h k = grind arith

fee_le : (s bps : ℕ) → bps ≤ 10000 → s * bps / 10000 ≤ s
fee_le s bps h = grind arith

-- For prices that are not negative, a fee of at most 100% and a sum of which ten thousand fit an
-- int64, nothing wraps: the subtotal is the sum of the prices, the fee is its share rounded down
-- and at most the subtotal, and the total is the subtotal with the fee.
pub calculate_order_totals_exact :
    (package_price : ℕ) (addons : List ℕ) (bps : ℕ)
    → bps ≤ 10000
    → (package_price + sum addons) * 10000 < 0x8000000000000000
    → let s = package_price + sum addons in
      let t = calculate_order_totals (pos package_price) (map pos addons) (pos bps) in
      (t.subtotal_minor_units ≡ pos s)
      × (t.platform_fee_minor_units ≡ pos (s * bps / 10000))
      × (s * bps / 10000 ≤ s)
      × (t.total_minor_units ≡ pos (s + s * bps / 10000))
unfolding calculate_order_totals quot
calculate_order_totals_exact package_price addons bps hb hs =
    let s = package_price + sum addons in
    let le = fee_le s bps hb in
    let sub = add_prices-sum package_price addons (omega arith) in
    let fee : quot (wrap64 (pos s *ℤ pos bps)) 10000 ≡ pos (s * bps / 10000) =
      rw (pos-*ℤ s bps, wrap64-pos (s * bps) (fee_product_bound s bps hb hs)) in
    (sub, rw sub fee, le, rw (sub, fee, pos-+ℤ s (s * bps / 10000)) (wrap64-pos _ (omega arith)))
