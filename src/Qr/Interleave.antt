-- ===== src/Qr/Interleave.antt =====
-- Where interleaveQRCodewords (services/qrcode.go) puts each codeword.
use gig.Base.{
  ℕ, zero, suc, ◌+◌, ◌*◌, ◌/◌, ◌<◌, List, [], ◌∷◌, ◌++◌, length, length-append, get_or, map, ◌≡◌,
  refl, ap, ◌∙◌, arith,
}
use native.Mathlib.Nat.{mul-le-mul_right, mul-add, mul_comm}
use gig.Base.Text.{Bytes, take, drop}
use gig.Qr.Bits.{Version}
use gig.Qr.ReedSolomon.{
  Tables, column, columns, blocks, reed_solomon_divisor, reed_solomon_remainder,
  interleave_qr_codewords,
}

module _ {ℓ} {A : Type ℓ} (d : A) where
  pub get_or-append_left :
      (xs ys : List A) (i : ℕ) → i < length xs → get_or d (xs ++ ys) i ≡ get_or d xs i
  get_or-append_left [] ys i h = absurd (omega arith)
  get_or-append_left (x ∷ xs) ys zero h = refl
  get_or-append_left (x ∷ xs) ys (suc i) h = get_or-append_left xs ys i (omega arith)

  pub get_or-append_right :
      (xs ys : List A) (i j : ℕ) → j ≡ length xs + i → get_or d (xs ++ ys) j ≡ get_or d ys i
  get_or-append_right [] ys i j e = ap (get_or d ys) (omega arith)
  get_or-append_right (x ∷ xs) ys i zero e = absurd (omega arith)
  get_or-append_right (x ∷ xs) ys i (suc j) e = get_or-append_right xs ys i j (omega arith)

get_or-take : (s : Bytes) (n i : ℕ) → i < n → get_or 0 (take n s) i ≡ get_or 0 s i
get_or-take s zero i h = absurd (omega arith)
get_or-take [] (suc n) i h = refl
get_or-take (c ∷ s) (suc n) zero h = refl
get_or-take (c ∷ s) (suc n) (suc i) h = get_or-take s n i (omega arith)

get_or-drop : (s : Bytes) (n i j : ℕ) → j ≡ n + i → get_or 0 (drop n s) i ≡ get_or 0 s j
unfolding drop
get_or-drop s zero i j e = ap (get_or 0 s) (omega arith)
get_or-drop [] (suc n) i j e = refl
get_or-drop (c ∷ s) (suc n) i zero e = absurd (omega arith)
get_or-drop (c ∷ s) (suc n) i (suc j) e = get_or-drop s n i j (omega arith)

get_or-map :
    {A B : Type 0} (f : A → B) (d : A) (xs : List A) (i : ℕ)
    → get_or (f d) (map f xs) i ≡ f (get_or d xs i)
unfolding map
get_or-map f d [] i = refl
get_or-map f d (x ∷ xs) zero = refl
get_or-map f d (x ∷ xs) (suc i) = get_or-map f d xs i

length-map : {A B : Type 0} (f : A → B) (xs : List A) → length (map f xs) ≡ length xs
unfolding map
length-map f [] = refl
length-map f (x ∷ xs) = omega (arith, length-map f xs)

within : (k size n j : ℕ) → k < size → j < n → k * n + j < size * n
within k size n j hk hj = omega (arith, mul-le-mul_right n hk)

length-column : (col : ℕ) (bs : List Bytes) → length (column col bs) ≡ length bs
unfolding column
length-column col [] = refl
length-column col (b ∷ bs) = omega (arith, length-column col bs)

get_or-column :
    (col : ℕ) (bs : List Bytes) (j : ℕ) → get_or 0 (column col bs) j ≡ get_or 0 (get_or [] bs j) col
unfolding column
get_or-column col [] j = refl
get_or-column col (b ∷ bs) zero = refl
get_or-column col (b ∷ bs) (suc j) = get_or-column col bs j

length-columns :
    (rounds col : ℕ) (bs : List Bytes) → length (columns rounds col bs) ≡ rounds * length bs
unfolding columns
length-columns zero col bs = omega arith
length-columns (suc rounds) col bs = omega (
  arith,
  length-append (column col bs) (columns rounds (col + 1) bs),
  length-column col bs,
  length-columns rounds (col + 1) bs,
)

get_or-columns :
    (rounds col k m c : ℕ) (bs : List Bytes) (j : ℕ)
    → k < rounds
    → j < length bs
    → m ≡ k * length bs + j
    → c ≡ col + k
    → get_or 0 (columns rounds col bs) m ≡ get_or 0 (get_or [] bs j) c
unfolding columns
get_or-columns zero col k m c bs j hk hj e f = absurd (omega arith)
get_or-columns (suc rounds) col zero m c bs j hk hj e f =
    let same : m ≡ j = omega arith in
    rw
      (
        same,
        get_or-append_left 0 (column col bs) (columns rounds (col + 1) bs) j
            (omega (arith, length-column col bs)),
        get_or-column col bs j,
      )
      (ap (get_or 0 (get_or [] bs j)) (omega arith))
get_or-columns (suc rounds) col (suc k) m c bs j hk hj e f =
    get_or-append_right 0 (column col bs) (columns rounds (col + 1) bs) (k * length bs + j) m
      (omega (arith, length-column col bs))
    ∙ get_or-columns rounds (col + 1) k (k * length bs + j) c bs j (omega arith) hj refl
        (omega arith)

module _ (t : Tables) where
  length-blocks :
      (rounds i block_size : ℕ) (divisor payload : Bytes)
      → length (blocks t rounds i block_size divisor payload) ≡ rounds
  unfolding blocks
  length-blocks zero i block_size divisor payload = refl
  length-blocks (suc rounds) i block_size divisor payload =
      omega (arith, length-blocks rounds (i + 1) block_size divisor payload)

  -- The block that starts at byte `start`, and its remainder.
  abbrev block_at : ℕ → ℕ → Bytes → Bytes → Bytes × Bytes
  block_at block_size start divisor payload =
      let block = take block_size (drop start payload) in
      (block, reed_solomon_remainder t block divisor)

  get_or-blocks :
      (rounds i j block_size start : ℕ) (divisor payload : Bytes)
      → j < rounds
      → start ≡ (i + j) * block_size
      → get_or ([], []) (blocks t rounds i block_size divisor payload) j
        ≡ block_at block_size start divisor payload
  unfolding blocks
  get_or-blocks zero i j block_size start divisor payload h e = absurd (omega arith)
  get_or-blocks (suc rounds) i zero block_size start divisor payload h e =
      let same : i * block_size ≡ start = omega arith in
      ap (λ s. block_at block_size s divisor payload) same
  get_or-blocks (suc rounds) i (suc j) block_size start divisor payload h e =
      get_or-blocks rounds (i + 1) j block_size start divisor payload (omega arith) (omega arith)

  module _ (size ecc n : ℕ) (divisor payload : Bytes) where
    parts : List (Bytes × Bytes)
    parts = blocks t n 0 size divisor payload

    data_parts : List Bytes
    unfolding parts
    data_parts = map (λ p. p.0) parts

    ecc_parts : List Bytes
    unfolding parts
    ecc_parts = map (λ p. p.1) parts

    length-data_parts : length data_parts ≡ n
    unfolding data_parts
    length-data_parts = length-map _ parts ∙ length-blocks n 0 size divisor payload

    length-ecc_parts : length ecc_parts ≡ n
    unfolding ecc_parts
    length-ecc_parts = length-map _ parts ∙ length-blocks n 0 size divisor payload

    length-all : length (columns size 0 data_parts ++ columns ecc 0 ecc_parts) ≡ n * (size + ecc)
    length-all =
        let data_size : length (columns size 0 data_parts) ≡ size * n =
          rw (length-columns size 0 data_parts, length-data_parts) refl in
        let ecc_size : length (columns ecc 0 ecc_parts) ≡ ecc * n =
          rw (length-columns ecc 0 ecc_parts, length-ecc_parts) refl in
        omega (
          arith,
          length-append (columns size 0 data_parts) (columns ecc 0 ecc_parts),
          data_size,
          ecc_size,
          mul-add n size ecc,
          mul_comm n size,
          mul_comm n ecc,
        )

    data_place :
        (j k : ℕ)
        → j < n
        → k < size
        → get_or 0 (columns size 0 data_parts ++ columns ecc 0 ecc_parts) (k * n + j)
          ≡ get_or 0 payload (j * size + k)
    unfolding data_parts parts
    data_place j k hj hk =
        let count = length-data_parts in
        let size_of = length-columns size 0 data_parts in
        get_or-append_left 0 (columns size 0 data_parts) (columns ecc 0 ecc_parts) (k * n + j)
          (rw (size_of, count) (within k size n j hk hj))
        ∙ (get_or-columns size 0 k (k * n + j) k data_parts j hk (rw count hj) (rw count refl)
              (omega arith)
            ∙ (ap (λ b. get_or 0 b k)
                  (get_or-map _ ([], []) parts j
                    ∙ ap (λ p. p.0)
                        (get_or-blocks n 0 j size (j * size) divisor payload hj (omega arith)))
                ∙ (get_or-take (drop (j * size) payload) size k hk
                    ∙ get_or-drop payload (j * size) k _ refl)))

    ecc_place :
        (j k : ℕ)
        → j < n
        → k < ecc
        → get_or 0 (columns size 0 data_parts ++ columns ecc 0 ecc_parts) (size * n + (k * n + j))
          ≡ get_or 0 (reed_solomon_remainder t (take size (drop (j * size) payload)) divisor) k
    unfolding ecc_parts parts
    ecc_place j k hj hk =
        let count = length-ecc_parts in
        let size_of = length-columns size 0 data_parts in
        get_or-append_right 0 (columns size 0 data_parts) (columns ecc 0 ecc_parts) (k * n + j) _
          (rw (size_of, length-data_parts) refl)
        ∙ (get_or-columns ecc 0 k (k * n + j) k ecc_parts j hk (rw count hj) (rw count refl)
              (omega arith)
            ∙ ap (λ b. get_or 0 b k)
                (get_or-map _ ([], []) parts j
                  ∙ ap (λ p. p.1)
                      (get_or-blocks n 0 j size (j * size) divisor payload hj (omega arith))))

  -- With n blocks of `size` codewords (the version's codewords divided by n), for each
  -- block j, codeword k of its data and codeword l of its error correction: data codeword k stands at
  -- position k * n + j of the result, error correction codeword l at position size * n + l * n + j,
  -- behind all data, and there are n * (size + ecc_per_block) positions.
  pub interleave_qr_codewords-places :
      (payload : Bytes) (ver : Version) (j k l : ℕ)
      → j < ver.num_blocks
      → k < ver.total_data_codewords / ver.num_blocks
      → l < ver.ecc_per_block
      → let n = ver.num_blocks in
        let size = ver.total_data_codewords / ver.num_blocks in
        let out = interleave_qr_codewords t payload ver in
        let block = take size (drop (j * size) payload) in
        (length out ≡ n * (size + ver.ecc_per_block))
        × (get_or 0 out (k * n + j) ≡ get_or 0 payload (j * size + k))
        × (get_or 0 out (size * n + (l * n + j))
            ≡ get_or 0
                (reed_solomon_remainder t block (reed_solomon_divisor t ver.ecc_per_block))
                l)
  unfolding interleave_qr_codewords data_parts ecc_parts parts
  interleave_qr_codewords-places payload ver j k l hj hk hl =
      let size = ver.total_data_codewords / ver.num_blocks in
      let divisor = reed_solomon_divisor t ver.ecc_per_block in
      (
        length-all size ver.ecc_per_block ver.num_blocks divisor payload,
        data_place size ver.ecc_per_block ver.num_blocks divisor payload j k hj hk,
        ecc_place size ver.ecc_per_block ver.num_blocks divisor payload j l hj hl,
      )
