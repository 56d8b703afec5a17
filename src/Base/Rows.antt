-- ===== src/Base/Rows.antt =====
-- What holds of every row of a table, through reads and writes.
use mathlib.Core.Path.{◌≡◌}
use mathlib.Core.Logic.{inl, inr}
use mathlib.Core.Bool.{Bool, true}
use mathlib.Core.List.{List, [], ◌∷◌, ◌++◌}
use mathlib.Core.Option.{some}
use native.Mathlib.Omega.{arith}
use gig.Base.Tests.{Bool-cases}
use gig.Base.Lists.{All, find, update_where}

module _ {A : Type 0} (P : A → Type 0) where
  pub All-append_one : (xs : List A) (a : A) → All P xs → P a → All P (xs ++ a ∷ [])
  All-append_one [] a all h = (h, tt)
  All-append_one (x ∷ xs) a (first, rest) h = (first, All-append_one xs a rest h)

  pub All-update_where :
      (p : A → Bool) (f : A → A) (xs : List A)
      → ((x : A) → p x ≡ true → P x → P (f x))
      → All P xs
      → All P (update_where p f xs)
  All-update_where p f [] keeps h = tt
  All-update_where p f (x ∷ xs) keeps (first, rest) = elim (Bool-cases (p x)) [
    | inl e ↦ rw e (keeps x e first, All-update_where p f xs keeps rest)
    | inr e ↦ rw e (first, All-update_where p f xs keeps rest)
  ]

  -- The row that a read returns is one of them, and passes the test.
  pub All-find :
      (p : A → Bool) (xs : List A) (a : A) → All P xs → find p xs ≡ some a → P a × (p a ≡ true)
  All-find p [] a all h = grind arith
  All-find p (x ∷ xs) a (first, rest) h = elim (Bool-cases (p x)) [
    | inl e ↦ let same : some x ≡ some a = rw e at h in grind arith
    | inr e ↦ All-find p xs a rest (rw e at h)
  ]
