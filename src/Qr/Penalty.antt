-- ===== src/Qr/Penalty.antt =====
-- The penalty score of services/qrcode.go: qrPenaltyScore, with its runPenalty and isFinderRun.
use gig.Base.{
  ℕ, ◌+◌, ◌-◌, ◌*◌, ◌/◌, ◌%◌, Bool, true, false, not, ◌&&◌, ◌||◌, ltb, leb, if◌then◌else◌,
}
use gig.Base.Loops.{for_range}
use gig.Qr.Matrix.{Grid, cell, Matrix}

unfoldable pub same : Bool → Bool → Bool
same true b = b
same false b = not b

pub record Run : Type 0 where
  pub penalty : ℕ
  pub count : ℕ
  pub prev : Bool

abbrev pub run_end : ℕ → ℕ
run_end count = if leb 5 count then 3 + (count - 5) else 0

unfoldable pub run_penalty : (ℕ → Bool) → ℕ → ℕ
unfolding for_range same
run_penalty get n =
    let start : Run = record { penalty = 0; count = 1; prev = get 0 } in
    let last =
      for_range (n - 1) 1
        (λ i r.
          let v = get i in
          if same v r.prev
          then record r { count = r.count + 1 }
          else record { penalty = r.penalty + run_end r.count; count = 1; prev = v })
        start in
    last.penalty + run_end last.count

abbrev pub light : (ℕ → Bool) → ℕ → Bool
light get i = not (get i)

-- The pattern 1011101, with four light modules before it or behind it.
unfoldable pub is_finder_run : (ℕ → Bool) → ℕ → ℕ → Bool
is_finder_run get start n =
    let pattern =
      leb (start + 7) n
      && get start
      && light get (start + 1)
      && get (start + 2)
      && get (start + 3)
      && get (start + 4)
      && light get (start + 5)
      && get (start + 6) in
    let before =
      leb 4 start
      && light get (start - 1)
      && light get (start - 2)
      && light get (start - 3)
      && light get (start - 4) in
    let after =
      leb (start + 11) n
      && light get (start + 7)
      && light get (start + 8)
      && light get (start + 9)
      && light get (start + 10) in
    pattern && (before || after)

abbrev pub sum_range : ℕ → (ℕ → ℕ) → ℕ
sum_range n f = for_range n 0 (λ i total. total + f i) 0

abbrev pub if_score : Bool → ℕ → ℕ
if_score b n = if b then n else 0

abbrev pub distance : ℕ → ℕ → ℕ
distance a b = (a - b) + (b - a)

unfoldable pub block_score : Grid → ℕ → ℕ → ℕ
unfolding cell same
block_score g y x =
    let v = cell g x y in
    if_score
      (same (cell g (x + 1) y) v && same (cell g x (y + 1)) v && same (cell g (x + 1) (y + 1)) v) 3

unfoldable pub balance_score : ℕ → ℕ → ℕ
balance_score dark total =
    let percent = dark * 100 / total in
    let prev5 = percent - percent % 5 in
    let a = distance prev5 50 in
    let b = distance (prev5 + 5) 50 in (if ltb b a then b else a) / 5 * 10

unfoldable pub qr_penalty_score : Matrix → ℕ
unfolding cell for_range run_penalty is_finder_run block_score balance_score
qr_penalty_score m =
    let g = m.modules in
    let size = m.size in
    let dark = sum_range size (λ y. sum_range size (λ x. if_score (cell g x y) 1)) in
    sum_range size (λ y. run_penalty (λ x. cell g x y) size)
    + sum_range size (λ x. run_penalty (λ y. cell g x y) size)
    + sum_range (size - 1) (λ y. sum_range (size - 1) (block_score g y))
    + sum_range size
        (λ y. sum_range (size + 1 - 7) (λ x. if_score (is_finder_run (λ i. cell g i y) x size) 40))
    + sum_range size
        (λ x. sum_range (size + 1 - 7) (λ y. if_score (is_finder_run (λ i. cell g x i) y size) 40))
    + balance_score dark (size * size)
