-- ===== src/Base/Loops.antt =====
-- `for i := start; i < start + rounds; i++`, its body a step on the loop's state.
use Prim.Native.Nat.{ℕ, zero, suc, ◌+◌, ◌≤◌, ◌<◌}
use mathlib.Core.Path.{◌≡◌, refl, ap, ◌∙◌}
use mathlib.Core.Logic.{◌≢◌}
use native.Mathlib.Decide.{ℕ_discrete}
use native.Mathlib.Omega.{arith}

module _ {A : Type 0} where
  unfoldable pub for_range : ℕ → ℕ → (ℕ → A → A) → A → A
  for_range zero i step a = a
  for_range (suc rounds) i step a = for_range rounds (i + 1) step (step i a)

  -- What each round keeps, the loop keeps.
  pub for_range-induct :
      (P : A → Type 0) (rounds i : ℕ) (step : ℕ → A → A) (a : A)
      → ((j : ℕ) (b : A) → P b → P (step j b))
      → P a
      → P (for_range rounds i step a)
  unfolding for_range
  for_range-induct P zero i step a keeps h = h
  for_range-induct P (suc rounds) i step a keeps h =
      for_range-induct P rounds (i + 1) step (step i a) keeps (keeps i a h)

  module _ {B : Type 0} (observe : A → B) (step : ℕ → A → A) where
    -- A loop none of whose rounds changes what is observed.
    pub for_range-quiet :
        (rounds i : ℕ) (a : A)
        → ((j : ℕ) (b : A) → i ≤ j → j < i + rounds → observe (step j b) ≡ observe b)
        → observe (for_range rounds i step a) ≡ observe a
    unfolding for_range
    for_range-quiet zero i a quiet = refl
    for_range-quiet (suc rounds) i a quiet =
        for_range-quiet rounds (i + 1) (step i a)
          (λ j b lo hi. quiet j b (omega arith) (omega arith))
        ∙ quiet i a (omega arith) (omega arith)

    -- A loop only whose round `k` changes what is observed: it does so once.
    pub for_range-hit :
        (P : A → Type 0) (f : B → B) (k rounds i : ℕ) (a : A)
        → ((j : ℕ) (b : A) → P b → P (step j b))
        → ((j : ℕ) (b : A) → j ≢ k → observe (step j b) ≡ observe b)
        → ((b : A) → P b → observe (step k b) ≡ f (observe b))
        → i ≤ k
        → k < i + rounds
        → P a
        → observe (for_range rounds i step a) ≡ f (observe a)
    unfolding for_range
    for_range-hit P f k zero i a keeps quiet hit lo hi h = absurd (omega arith)
    for_range-hit P f k (suc rounds) i a keeps quiet hit lo hi h = elim (ℕ_discrete i k) [
      | yes e ↦
          for_range-quiet rounds (i + 1) (step i a)
            (λ j b p q. quiet j b (λ r. absurd (omega arith)))
          ∙ (ap (λ j. observe (step j a)) e ∙ hit a h)
      | no n ↦
          for_range-hit P f k rounds (i + 1) (step i a) keeps quiet hit (omega arith) (omega arith)
            (keeps i a h)
          ∙ ap f (quiet i a n)
    ]
