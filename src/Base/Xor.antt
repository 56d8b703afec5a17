-- ===== src/Base/Xor.antt =====
-- Laws of `bit_xor` at variables, from the definition that the native operation stands for.
use Prim.Native.Nat.{
  ℕ, zero, suc, ◌+◌, ◌*◌, ◌<◌, ◌/◌, ◌%◌, ◌≤◌, digits, differ, bit_xor, bit_xor-bitwise,
}
use mathlib.Core.Path.{◌≡◌, refl, sym, ap, ◌∙◌}
use native.Mathlib.Omega.{arith}

differ_self : (x : ℕ) → differ x x ≡ 0
differ_self zero = refl
differ_self (suc x) = differ_self x

differ-zero : (x : ℕ) → differ x 0 ≡ x
differ-zero zero = refl
differ-zero (suc x) = refl

abbrev xor_digits : ℕ → ℕ → ℕ → ℕ
xor_digits n a b = digits (λ b. b) differ n a b

xor_digits_self : (n a : ℕ) → a ≤ n → xor_digits n a a ≡ 0
xor_digits_self zero zero h = refl
xor_digits_self zero (suc a) h = absurd (omega arith)
xor_digits_self (suc n) zero h = refl
xor_digits_self (suc n) (suc a) h =
    omega (arith, differ_self (suc a % 2), xor_digits_self n (suc a / 2) (omega arith))

pub bit_xor_self : (a : ℕ) → bit_xor a a ≡ 0
bit_xor_self a = omega (arith, bit_xor-bitwise a a, xor_digits_self a a (omega arith))

xor_digits-zero : (n a : ℕ) → a ≤ n → xor_digits n a 0 ≡ a
xor_digits-zero zero zero h = refl
xor_digits-zero zero (suc a) h = absurd (omega arith)
xor_digits-zero (suc n) zero h = refl
xor_digits-zero (suc n) (suc a) h =
    omega (arith, differ-zero (suc a % 2), xor_digits-zero n (suc a / 2) (omega arith))

pub bit_xor-zero : (a : ℕ) → bit_xor a 0 ≡ a
bit_xor-zero a = omega (arith, bit_xor-bitwise a 0, xor_digits-zero a a (omega arith))

-- As many rounds as the first number are enough.
xor_digits_rounds : (n m a b : ℕ) → a ≤ n → a ≤ m → xor_digits n a b ≡ xor_digits m a b
xor_digits_rounds zero zero zero b h k = refl
xor_digits_rounds zero (suc m) zero b h k = refl
xor_digits_rounds (suc n) zero zero b h k = refl
xor_digits_rounds (suc n) (suc m) zero b h k = refl
xor_digits_rounds zero m (suc a) b h k = absurd (omega arith)
xor_digits_rounds (suc n) zero (suc a) b h k = absurd (omega arith)
xor_digits_rounds (suc n) (suc m) (suc a) b h k =
    omega (arith, xor_digits_rounds n m (suc a / 2) (b / 2) (omega arith) (omega arith))

xor_step : (a b : ℕ) → bit_xor a b ≡ bit_xor (a / 2) (b / 2) * 2 + differ (a % 2) (b % 2)
xor_step zero b = omega (arith, bit_xor-bitwise 0 b, bit_xor-bitwise 0 (b / 2))
xor_step (suc a) b = omega (
  arith,
  bit_xor-bitwise (suc a) b,
  bit_xor-bitwise (suc a / 2) (b / 2),
  xor_digits_rounds a (suc a / 2) (suc a / 2) (b / 2) (omega arith) (omega arith),
)

differ_sum : (x y : ℕ) → x < 2 → y < 2 → differ x y ≡ (x + y) % 2
differ_sum zero zero h k = refl
differ_sum zero (suc zero) h k = refl
differ_sum (suc zero) zero h k = refl
differ_sum (suc zero) (suc zero) h k = refl
differ_sum (suc (suc x)) y h k = absurd (omega arith)
differ_sum zero (suc (suc y)) h k = absurd (omega arith)
differ_sum (suc zero) (suc (suc y)) h k = absurd (omega arith)

pub bit_xor_bit : (a b : ℕ) → bit_xor a b % 2 ≡ (a + b) % 2
bit_xor_bit a b =
    omega (arith, xor_step a b, differ_sum (a % 2) (b % 2) (omega arith) (omega arith))

pub bit_xor_half : (a b : ℕ) → bit_xor a b / 2 ≡ bit_xor (a / 2) (b / 2)
bit_xor_half a b =
    omega (arith, xor_step a b, differ_sum (a % 2) (b % 2) (omega arith) (omega arith))

comm_within : (n a b : ℕ) → a ≤ n → b ≤ n → bit_xor a b ≡ bit_xor b a
comm_within zero zero zero h k = refl
comm_within zero (suc a) b h k = absurd (omega arith)
comm_within zero zero (suc b) h k = absurd (omega arith)
comm_within (suc n) a b h k = omega (
  arith,
  bit_xor_bit a b,
  bit_xor_bit b a,
  bit_xor_half a b,
  bit_xor_half b a,
  comm_within n (a / 2) (b / 2) (omega arith) (omega arith),
)

pub bit_xor_comm : (a b : ℕ) → bit_xor a b ≡ bit_xor b a
bit_xor_comm a b = comm_within (a + b) a b (omega arith) (omega arith)

assoc_within :
    (n a b c : ℕ) → a ≤ n → b ≤ n → c ≤ n → bit_xor (bit_xor a b) c ≡ bit_xor a (bit_xor b c)
assoc_within zero zero zero zero h k l = refl
assoc_within zero (suc a) b c h k l = absurd (omega arith)
assoc_within zero zero (suc b) c h k l = absurd (omega arith)
assoc_within zero zero zero (suc c) h k l = absurd (omega arith)
assoc_within (suc n) a b c h k l = omega (
  arith,
  bit_xor_bit (bit_xor a b) c,
  bit_xor_bit a b,
  bit_xor_bit a (bit_xor b c),
  bit_xor_bit b c,
  bit_xor_half (bit_xor a b) c
      ∙ ap (λ x. bit_xor x (c / 2)) (bit_xor_half a b)
      ∙ assoc_within n (a / 2) (b / 2) (c / 2) (omega arith) (omega arith) (omega arith)
      ∙ sym (bit_xor_half a (bit_xor b c) ∙ ap (bit_xor (a / 2)) (bit_xor_half b c)),
)

pub bit_xor_assoc : (a b c : ℕ) → bit_xor (bit_xor a b) c ≡ bit_xor a (bit_xor b c)
bit_xor_assoc a b c = assoc_within (a + b + c) a b c (omega arith) (omega arith) (omega arith)

-- Two sums, added term by term.
pub bit_xor_swap :
    (a b c d : ℕ) → bit_xor (bit_xor a b) (bit_xor c d) ≡ bit_xor (bit_xor a c) (bit_xor b d)
bit_xor_swap a b c d =
    bit_xor_assoc a b (bit_xor c d)
    ∙ ap (bit_xor a)
        (sym (bit_xor_assoc b c d) ∙ ap (λ x. bit_xor x d) (bit_xor_comm b c) ∙ bit_xor_assoc c b d)
    ∙ sym (bit_xor_assoc a c (bit_xor b d))
