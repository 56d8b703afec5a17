-- ===== src/Qr/Bytes.antt =====
-- bitsToBytes and bytesToBits of services/qrcode.go undo each other.
use gig.Base.{
  ℕ, zero, suc, ◌*◌, ◌/◌, ◌%◌, ◌^◌, ◌<◌, Bool, true, false, not, ◌&&◌, List, [], ◌∷◌, ◌++◌, length,
  All, ◌==◌, ==_iff, ◌≡◌, refl, sym, ap, ◌∙◌, and_split, arith,
}
use gig.Qr.Penalty.{same}
use gig.Base.Every.{all_below, all_below_sound}
use gig.Base.Text.{Bytes}
use gig.Qr.Bits.{bits_of, byte_of, bits_to_bytes, bytes_to_bits}

bit : ℕ → ℕ → Bool
bit b i = not (b / 2 ^ i % 2 == 0)

bytes_table :
    all_below
      (λ b.
        byte_of (bit b 7) (bit b 6) (bit b 5) (bit b 4) (bit b 3) (bit b 2) (bit b 1) (bit b 0)
        == b)
      256
    ≡ true
unfolding all_below bit
bytes_table = refl

-- A test of all values of eight bits.
forall_bits : ℕ → (List Bool → Bool) → Bool
forall_bits zero p = p []
forall_bits (suc n) p =
    forall_bits n (λ bits. p (true ∷ bits)) && forall_bits n (λ bits. p (false ∷ bits))

pub bits_to_bytes-bytes_to_bits :
    (payload : Bytes) → All (λ b. b < 256) payload → bits_to_bytes (bytes_to_bits payload) ≡ payload
unfolding bits_to_bytes bytes_to_bits bits_of bit
bits_to_bytes-bytes_to_bits [] bytes = refl
bits_to_bytes-bytes_to_bits (b ∷ rest) (byte, bytes) =
    rw
      (
        (==_iff _ _).0 (all_below_sound _ 256 b bytes_table byte),
        bits_to_bytes-bytes_to_bits rest bytes,
      )
      refl

forall_bits_sound :
    (n : ℕ) (p : List Bool → Bool) (bits : List Bool)
    → forall_bits n p ≡ true
    → length bits ≡ n
    → p bits ≡ true
unfolding forall_bits
forall_bits_sound zero p [] e h = e
forall_bits_sound zero p (b ∷ bits) e h = absurd (omega arith)
forall_bits_sound (suc n) p [] e h = absurd (omega arith)
forall_bits_sound (suc n) p (true ∷ bits) e h =
    forall_bits_sound n (λ more. p (true ∷ more)) bits (and_split _ _ e).0 (omega arith)
forall_bits_sound (suc n) p (false ∷ bits) e h =
    forall_bits_sound n (λ more. p (false ∷ more)) bits (and_split _ _ e).1 (omega arith)

same_bits : List Bool → List Bool → Bool
unfolding same
same_bits [] [] = true
same_bits [] (y ∷ ys) = false
same_bits (x ∷ xs) [] = false
same_bits (x ∷ xs) (y ∷ ys) = same x y && same_bits xs ys

same_sound : (x y : Bool) → same x y ≡ true → x ≡ y
unfolding same
same_sound true y e = sym e
same_sound false y e = ground arith

same_bits_sound : (xs ys : List Bool) → same_bits xs ys ≡ true → xs ≡ ys
unfolding same_bits
same_bits_sound [] [] e = refl
same_bits_sound [] (y ∷ ys) e = absurd cc
same_bits_sound (x ∷ xs) [] e = absurd cc
same_bits_sound (x ∷ xs) (y ∷ ys) e =
    let (first, rest) = and_split (same x y) (same_bits xs ys) e in
    rw (same_sound x y first, same_bits_sound xs ys rest) refl

bits_test : List Bool → Bool
bits_test bits = same_bits (bytes_to_bits (bits_to_bytes bits)) bits

bits_table : forall_bits 8 bits_test ≡ true
unfolding forall_bits bits_test same_bits same bytes_to_bits bits_to_bytes bits_of
bits_table = refl

byte_back : (bits : List Bool) → length bits ≡ 8 → bytes_to_bits (bits_to_bytes bits) ≡ bits
unfolding bits_test
byte_back bits h = same_bits_sound _ bits (forall_bits_sound 8 bits_test bits bits_table h)

pub bytes_to_bits-bits_to_bytes :
    (n : ℕ) (bits : List Bool) → length bits ≡ n * 8 → bytes_to_bits (bits_to_bytes bits) ≡ bits
unfolding bits_to_bytes bytes_to_bits bits_of
bytes_to_bits-bits_to_bytes zero [] h = refl
bytes_to_bits-bits_to_bytes (suc n) (a ∷ b ∷ c ∷ d ∷ e ∷ f ∷ g ∷ h ∷ rest) size =
    let eight = a ∷ b ∷ c ∷ d ∷ e ∷ f ∷ g ∷ h ∷ [] in
    ap (λ more. bits_of 8 (byte_of a b c d e f g h) ++ more)
      (bytes_to_bits-bits_to_bytes n rest (omega arith))
    ∙ ap (λ bits. bits ++ rest) (byte_back eight refl)
bytes_to_bits-bits_to_bytes n bits size = absurd (omega arith)

pub length-bits_to_bytes :
    (n : ℕ) (bits : List Bool) → length bits ≡ n * 8 → length (bits_to_bytes bits) ≡ n
unfolding bits_to_bytes
length-bits_to_bytes zero [] h = refl
length-bits_to_bytes (suc n) (a ∷ b ∷ c ∷ d ∷ e ∷ f ∷ g ∷ h ∷ rest) size =
    omega (arith, length-bits_to_bytes n rest (omega arith))
length-bits_to_bytes n bits size = absurd (omega arith)
