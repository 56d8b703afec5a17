-- ===== src/Base/Every.antt =====
-- Tests over all numbers below a bound and over all members of a list, by evaluation.
use Prim.Native.Nat.{ℕ, zero, suc, ◌<◌}
use mathlib.Core.Path.{◌≡◌}
use mathlib.Core.Bool.{Bool, true, ◌&&◌}
use mathlib.Core.List.{List, [], ◌∷◌}
use native.Mathlib.Omega.{arith}
use gig.Base.Tests.{and_split}
use gig.Base.Lists.{All}

unfoldable pub all_below : (ℕ → Bool) → ℕ → Bool
all_below p zero = true
all_below p (suc n) = p n && all_below p n

pub all_below_sound : (p : ℕ → Bool) (n x : ℕ) → all_below p n ≡ true → x < n → p x ≡ true
unfolding all_below
all_below_sound p zero x e h = absurd (omega arith)
all_below_sound p (suc n) x e h = ground (arith, all_below_sound p n x)

unfoldable pub forall_in {ℓ} : {A : Type ℓ} → (A → Bool) → List A → Bool
forall_in p [] = true
forall_in p (x ∷ xs) = p x && forall_in p xs

pub forall_in-All :
    {A : Type 0} (p : A → Bool) (P : A → Type 0)
    → ((x : A) → p x ≡ true → P x)
    → (xs : List A) → forall_in p xs ≡ true
    → All P xs
unfolding forall_in
forall_in-All p P sound [] e = tt
forall_in-All p P sound (x ∷ xs) e =
    let (first, rest) = and_split _ _ e in (sound x first, forall_in-All p P sound xs rest)
