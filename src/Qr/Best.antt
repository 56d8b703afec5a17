-- ===== src/Qr/Best.antt =====
-- Which mask encodeQRMatrix (services/qrcode.go) takes.
use gig.Base.{
  ℕ, zero, suc, ◌+◌, ◌≤◌, ◌<◌, true, if◌then◌else◌, Bool-cases, ltb, Option, none, some, ◌≡◌, refl,
  ap, ◌∙◌, inl, inr, arith,
}
use gig.Base.Loops.{for_range}
use native.Mathlib.Decide.{ℕ_discrete}
use gig.Qr.Matrix.{Grid, Matrix}
use gig.Qr.Penalty.{qr_penalty_score}
use gig.Qr.Encode.{Search, improves, trial, try_mask, search_masks}

-- The loop's state before mask k.
unfoldable pub before : Matrix → ℕ → Search
unfolding for_range try_mask
before m k = for_range k 0 try_mask (record { current = m; best = none })

-- The grid that is scored for mask k.
unfoldable pub candidate : Matrix → ℕ → Matrix
candidate m k = trial k (before m k).current

for_range-snoc :
    {A : Type 0} (k i : ℕ) (step : ℕ → A → A) (a : A)
    → for_range (suc k) i step a ≡ step (i + k) (for_range k i step a)
unfolding for_range
for_range-snoc zero i step a = ap (λ j. step j a) (omega arith)
for_range-snoc (suc k) i step a =
    for_range-snoc k (i + 1) step (step i a)
    ∙ ap (λ j. step j (for_range k (i + 1) step (step i a))) (omega arith)

abbrev pub score_at : Matrix → ℕ → ℕ
score_at m k = qr_penalty_score (candidate m k)

-- Of the first n masks, k is the first of least score.
pub IsFirstBest : Matrix → ℕ → ℕ → Type 0
IsFirstBest m n k =
    (k < n)
    × ((j : ℕ) → j < n → score_at m k ≤ score_at m j)
    × ((j : ℕ) → j < k → score_at m k < score_at m j)

Remembers : Matrix → ℕ → Option (ℕ × ℕ × Grid) → Type 0
Remembers m n none = n ≡ 0
Remembers m n (some (k, score, modules)) =
    (score ≡ score_at m k) × (modules ≡ (candidate m k).modules) × IsFirstBest m n k

take_new :
    (m : Matrix) (n : ℕ) → ((j : ℕ) → j < n → score_at m n < score_at m j) → IsFirstBest m (suc n) n
unfolding IsFirstBest
take_new m n below = (
  omega arith,
  λ j h. elim (ℕ_discrete j n) [
    | yes e ↦ rw e (omega arith)
    | no ne ↦ let less = below j (omega arith) in omega arith
  ],
  below,
)

keep_old :
    (m : Matrix) (n k : ℕ)
    → IsFirstBest m n k
    → score_at m k ≤ score_at m n
    → IsFirstBest m (suc n) k
unfolding IsFirstBest
keep_old m n k (within, least, first) h = (
  omega arith,
  λ j hj. elim (ℕ_discrete j n) [ yes e ↦ rw e h | no ne ↦ least j (omega arith) ],
  first,
)

below_old :
    (m : Matrix) (n k score : ℕ)
    → IsFirstBest m n k
    → score ≡ score_at m k
    → ltb (score_at m n) score ≡ true
    → (j : ℕ) → j < n
    → score_at m n < score_at m j
unfolding IsFirstBest
below_old m n k score (within, least, first) es e j h = let bound = least j h in grind arith

pub before-suc : (m : Matrix) (n : ℕ) → before m (suc n) ≡ try_mask n (before m n)
unfolding before
before-suc m n = for_range-snoc n 0 try_mask _ ∙ ap (λ j. try_mask j (before m n)) (omega arith)

Remembers-step :
    (m : Matrix) (n : ℕ) (best : Option (ℕ × ℕ × Grid))
    → Remembers m n best
    → Remembers m (suc n) (
        if improves (score_at m n) best
        then some (n, score_at m n, (candidate m n).modules)
        else best)
unfolding Remembers
Remembers-step m n none e = (refl, refl, take_new m n (λ j h. absurd (omega arith)))
Remembers-step m n (some (k, score, modules)) (es, em, is_best) =
    elim (Bool-cases (ltb (score_at m n) score)) [
      | inl e ↦ rw e (refl, refl, take_new m n (below_old m n k score is_best es e))
      | inr e ↦ rw e (es, em, keep_old m n k is_best (grind arith))
    ]

before_zero : (m : Matrix) → (before m 0).best ≡ none
unfolding before
before_zero m = refl

Remembers-next :
    (m : Matrix) (n : ℕ)
    → Remembers m n (before m n).best
    → Remembers m (suc n) (try_mask n (before m n)).best
unfolding try_mask candidate
Remembers-next m n h = Remembers-step m n (before m n).best h

before-Remembers : (m : Matrix) (n : ℕ) → Remembers m n (before m n).best
unfolding Remembers
before-Remembers m zero = rw (before_zero m) refl
before-Remembers m (suc n) = rw (before-suc m n) (Remembers-next m n (before-Remembers m n))

best-Remembers :
    (m : Matrix) (n : ℕ) (best : Option (ℕ × ℕ × Grid))
    → Remembers m (suc n) best
    → (k : ℕ) × (best ≡ some (k, score_at m k, (candidate m k).modules)) × IsFirstBest m (suc n) k
unfolding Remembers
best-Remembers m n none e = absurd (omega arith)
best-Remembers m n (some (k, score, modules)) (es, em, is_best) = (k, rw (es, em) refl, is_best)

-- The search ends with one of the eight masks, its score and the modules of its trial: of the masks,
-- each tried on the grid as the trials before it left it, it is the first one of least score.
pub search_masks-IsFirstBest :
    (m : Matrix)
    → (k : ℕ) × ((search_masks m).best ≡ some (k, score_at m k, (candidate m k).modules))
      × IsFirstBest m 8 k
unfolding search_masks before
search_masks-IsFirstBest m = best-Remembers m 7 (before m 8).best (before-Remembers m 8)
