-- ===== src/Qr/Field.antt =====
-- Laws of the products of services/qrcode.go as polynomials, and of their values at a point.
use gig.Base.{
  ℕ, zero, suc, ◌/◌, ◌%◌, ◌<◌, Bool, true, [], ◌∷◌, ◌++◌, and_split, ltb, ◌&&◌, ◌==◌, ==_iff,
  Bool-cases, ◌≡◌, refl, sym, ap, ◌∙◌, inl, inr, arith,
}
use gig.Base.Every.{all_below, all_below_sound}
use gig.Base.Text.{Bytes}
use gig.Base.Xor.{bit_xor_swap}
use gig.Qr.Tables.{doubled, times, horner}
use Prim.Native.Nat.{bit_xor}

abbrev pub IsByte : ℕ → Type 0
IsByte a = a < 256

pair_law : ℕ → ℕ → Bool
pair_law a b = ltb (bit_xor a b) 256 && (doubled (bit_xor a b) == bit_xor (doubled a) (doubled b))

byte_law : ℕ → Bool
byte_law a = ltb (doubled a) 256 && ((times 8 1 a == a) && all_below (pair_law a) 256)

byte_laws : all_below byte_law 256 ≡ true
unfolding all_below byte_law pair_law doubled times
byte_laws = refl

law_at : (a : ℕ) → IsByte a → byte_law a ≡ true
law_at a h = all_below_sound byte_law 256 a byte_laws h

pub doubled-IsByte : (a : ℕ) → IsByte a → IsByte (doubled a)
unfolding byte_law
doubled-IsByte a h =
    let (e, rest) = and_split (ltb (doubled a) 256) _ (law_at a h) in ground (arith, e)

pub times_one : (a : ℕ) → IsByte a → times 8 1 a ≡ a
unfolding byte_law
times_one a h =
    let (e, rest) = and_split _ _ (law_at a h) in
    let (one, pairs) = and_split _ _ rest in (==_iff _ _).0 one

law_of : (a b : ℕ) → IsByte a → IsByte b → pair_law a b ≡ true
unfolding byte_law
law_of a b h k =
    let (e, rest) = and_split _ _ (law_at a h) in
    let (one, pairs) = and_split _ _ rest in all_below_sound (pair_law a) 256 b pairs k

pub bit_xor-IsByte : (a b : ℕ) → IsByte a → IsByte b → IsByte (bit_xor a b)
unfolding pair_law
bit_xor-IsByte a b h k =
    let (e, rest) = and_split (ltb (bit_xor a b) 256) _ (law_of a b h k) in ground (arith, e)

pub doubled-bit_xor :
    (a b : ℕ) → IsByte a → IsByte b → doubled (bit_xor a b) ≡ bit_xor (doubled a) (doubled b)
unfolding pair_law
doubled-bit_xor a b h k = let (e, rest) = and_split _ _ (law_of a b h k) in (==_iff _ _).0 rest

pub times-IsByte : (n a b : ℕ) → IsByte a → IsByte (times n a b)
unfolding times
times-IsByte zero a b h = omega arith
times-IsByte (suc n) a b h = elim (Bool-cases (b % 2 == 0)) [
  | inl e ↦ rw e (times-IsByte n (doubled a) (b / 2) (doubled-IsByte a h))
  | inr e ↦ rw e (bit_xor-IsByte a _ h (times-IsByte n (doubled a) (b / 2) (doubled-IsByte a h)))
]

pub times-zero : (n b : ℕ) → times n 0 b ≡ 0
unfolding times doubled
times-zero zero b = refl
times-zero (suc n) b = elim (Bool-cases (b % 2 == 0)) [
  | inl e ↦ rw e (times-zero n (b / 2))
  | inr e ↦ rw (e, times-zero n (b / 2)) refl
]

pub times-bit_xor :
    (n a c b : ℕ)
    → IsByte a
    → IsByte c
    → times n (bit_xor a c) b ≡ bit_xor (times n a b) (times n c b)
unfolding times
times-bit_xor zero a c b h k = refl
times-bit_xor (suc n) a c b h k =
    let later : times n (doubled (bit_xor a c)) (b / 2)
        ≡ bit_xor (times n (doubled a) (b / 2)) (times n (doubled c) (b / 2)) =
      ap (λ x. times n x (b / 2)) (doubled-bit_xor a c h k)
      ∙ times-bit_xor n (doubled a) (doubled c) (b / 2) (doubled-IsByte a h) (doubled-IsByte c k) in
    elim (Bool-cases (b % 2 == 0)) [
      | inl e ↦ rw e later
      | inr e ↦ rw e (ap (bit_xor (bit_xor a c)) later ∙ bit_xor_swap a c _ _)
    ]

zero_doubled : 0 ≡ doubled 0
unfolding doubled
zero_doubled = refl

times-doubled : (n a b : ℕ) → IsByte a → times n (doubled a) b ≡ doubled (times n a b)
unfolding times
times-doubled zero a b h = zero_doubled
times-doubled (suc n) a b h =
    let later = times-doubled n (doubled a) (b / 2) (doubled-IsByte a h) in
    elim (Bool-cases (b % 2 == 0)) [
      | inl e ↦ rw e later
      | inr e ↦ rw e (
          ap (bit_xor (doubled a)) later
          ∙ sym (
              doubled-bit_xor a (times n (doubled a) (b / 2)) h
                (times-IsByte n (doubled a) (b / 2) (doubled-IsByte a h))))
    ]

-- Two factors in either order.
pub times_swap : (n m a b f : ℕ) → IsByte a → times n (times m a f) b ≡ times m (times n a b) f
unfolding times
times_swap zero m a b f h = sym (times-zero m f)
times_swap (suc n) m a b f h =
    let next = times n (doubled a) (b / 2) in
    let byte = times-IsByte n (doubled a) (b / 2) (doubled-IsByte a h) in
    let later : times n (doubled (times m a f)) (b / 2) ≡ times m next f =
      ap (λ x. times n x (b / 2)) (sym (times-doubled m a f h))
      ∙ times_swap n m (doubled a) (b / 2) f (doubled-IsByte a h) in
    elim (Bool-cases (b % 2 == 0)) [
      | inl e ↦ rw e later
      | inr e ↦ rw e (ap (bit_xor (times m a f)) later ∙ sym (times-bit_xor m a next f h byte))
    ]

pub horner-append : (x v : ℕ) (p q : Bytes) → horner x v (p ++ q) ≡ horner x (horner x v p) q
unfolding horner
horner-append x v [] q = refl
horner-append x v (c ∷ p) q = horner-append x (bit_xor (times 8 v x) c) p q

-- A step of the evaluation keeps a byte.
pub step-IsByte : (x v c : ℕ) → IsByte v → IsByte c → IsByte (bit_xor (times 8 v x) c)
step-IsByte x v c h k = bit_xor-IsByte _ _ (times-IsByte 8 v x h) k
