-- ===== src/Qr/Masking.antt =====
-- What applyQRMask (services/qrcode.go) does to each module, and that it undoes itself.
use gig.Base.{
  ℕ, ◌<◌, Bool, not, if◌then◌else◌, Bool-cases, ◌≡◌, refl, ap, ◌∙◌, ◌≢◌, ◌⊎◌, inl, inr, arith,
}
use gig.Base.Loops.{for_range, for_range-induct, for_range-quiet, for_range-hit}
use gig.Qr.Matrix.{Matrix, cell}
use gig.Qr.Grid.{IsSquare, set_cell-IsSquare, cell-set_cell_same, cell-set_cell_other}
use gig.Qr.Mask.{qr_mask_bit, mask_module, apply_qr_mask}

-- The matrices of one size with the same function modules.
unfoldable pub Alike : Matrix → Matrix → Type 0
Alike m0 m = (m.size ≡ m0.size) × IsSquare m0.size m.modules × (m.is_function ≡ m0.is_function)

-- What masking makes of the module at (x, y).
unfoldable pub masked : Matrix → ℕ → ℕ → ℕ → Bool → Bool
masked m mask x y v =
    if cell m.is_function x y then v else if qr_mask_bit mask x y then not v else v

mask_module-Alike : (mask y x : ℕ) (m0 m : Matrix) → Alike m0 m → Alike m0 (mask_module mask y x m)
unfolding Alike mask_module
mask_module-Alike mask y x m0 m (size, square, fun) = elim (Bool-cases (cell m.is_function x y)) [
  | inl e ↦ rw e (size, square, fun)
  | inr e ↦ rw e (elim (Bool-cases (qr_mask_bit mask x y)) [
    | inl b ↦ rw b (size, set_cell-IsSquare m0.size m.modules x y _ square, fun)
    | inr b ↦ rw b (size, square, fun)
  ])
]

mask_module-quiet :
    (mask y x x' y' : ℕ) (m : Matrix)
    → (x ≢ x') ⊎ (y ≢ y')
    → cell (mask_module mask y x m).modules x' y' ≡ cell m.modules x' y'
unfolding mask_module
mask_module-quiet mask y x x' y' m other = elim (Bool-cases (cell m.is_function x y)) [
  | inl e ↦ rw e refl
  | inr e ↦ rw e (elim (Bool-cases (qr_mask_bit mask x y)) [
    | inl b ↦ rw b (cell-set_cell_other m.modules x y x' y' _ other)
    | inr b ↦ rw b refl
  ])
]

mask_module-hit :
    (mask y x : ℕ) (m0 m : Matrix)
    → x < m0.size
    → y < m0.size
    → Alike m0 m
    → cell (mask_module mask y x m).modules x y ≡ masked m0 mask x y (cell m.modules x y)
unfolding mask_module masked Alike
mask_module-hit mask y x m0 m hx hy (size, square, fun) =
    rw fun (elim (Bool-cases (cell m0.is_function x y)) [
      | inl e ↦ rw e refl
      | inr e ↦ rw e (elim (Bool-cases (qr_mask_bit mask x y)) [
        | inl b ↦ rw b (cell-set_cell_same m0.size m.modules x y _ square hx hy)
        | inr b ↦ rw b refl
      ])
    ])

module _ (mask : ℕ) (m0 : Matrix) where
  row_step : ℕ → Matrix → Matrix
  row_step y = for_range m0.size 0 (mask_module mask y)

  row_step-Alike : (y : ℕ) (m : Matrix) → Alike m0 m → Alike m0 (row_step y m)
  unfolding row_step
  row_step-Alike y m h =
      for_range-induct (Alike m0) m0.size 0 (mask_module mask y) m
        (λ x b. mask_module-Alike mask y x m0 b) h

  row_step-quiet :
      (y x' y' : ℕ) (m : Matrix) → y ≢ y' → cell (row_step y m).modules x' y' ≡ cell m.modules x' y'
  unfolding row_step
  row_step-quiet y x' y' m n =
      for_range-quiet (λ b. cell b.modules x' y') (mask_module mask y) m0.size 0 m
        (λ x b p q. mask_module-quiet mask y x x' y' b (inr n))

  row_step-hit :
      (x y : ℕ) (m : Matrix)
      → x < m0.size
      → y < m0.size
      → Alike m0 m
      → cell (row_step y m).modules x y ≡ masked m0 mask x y (cell m.modules x y)
  unfolding row_step
  row_step-hit x y m hx hy h =
      for_range-hit (λ b. cell b.modules x y) (mask_module mask y) (Alike m0) (masked m0 mask x y) x
        m0.size 0 m (λ k b. mask_module-Alike mask y k m0 b)
        (λ k b n. mask_module-quiet mask y k x y b (inl n))
        (λ b p. mask_module-hit mask y x m0 b hx hy p) (omega arith) (omega arith) h

  pub apply_qr_mask-cell :
      (x y : ℕ)
      → x < m0.size
      → y < m0.size
      → Alike m0 m0
      → cell (apply_qr_mask mask m0).modules x y ≡ masked m0 mask x y (cell m0.modules x y)
  unfolding apply_qr_mask row_step
  apply_qr_mask-cell x y hx hy h =
      for_range-hit (λ b. cell b.modules x y) row_step (Alike m0) (masked m0 mask x y) y m0.size 0
        m0 row_step-Alike (λ k b n. row_step-quiet k x y b n) (λ b p. row_step-hit x y b hx hy p)
        (omega arith) (omega arith) h

  pub apply_qr_mask-Alike : Alike m0 m0 → Alike m0 (apply_qr_mask mask m0)
  unfolding apply_qr_mask row_step
  apply_qr_mask-Alike h = for_range-induct (Alike m0) m0.size 0 row_step m0 row_step-Alike h

pub masked_twice :
    (m : Matrix) (mask x y : ℕ) (v : Bool) → masked m mask x y (masked m mask x y v) ≡ v
unfolding masked
masked_twice m mask x y v = ground arith

-- On a matrix whose modules are a square of its size, applying a mask inverts the module at (x, y)
-- exactly when it is no function module and the mask's bit is set there, and keeps the function
-- modules; applying the same mask again brings every module back.
pub apply_qr_mask_twice :
    (mask : ℕ) (m : Matrix) (x y : ℕ)
    → IsSquare m.size m.modules
    → x < m.size
    → y < m.size
    → (cell (apply_qr_mask mask m).modules x y ≡ masked m mask x y (cell m.modules x y))
      × ((apply_qr_mask mask m).is_function ≡ m.is_function)
      × (cell (apply_qr_mask mask (apply_qr_mask mask m)).modules x y ≡ cell m.modules x y)
unfolding Alike masked
apply_qr_mask_twice mask m x y square hx hy =
    let once = apply_qr_mask mask m in
    let (size, square', fun) = apply_qr_mask-Alike mask m (refl, square, refl) in
    let first = apply_qr_mask-cell mask m x y hx hy (refl, square, refl) in
    (
      first,
      fun,
      apply_qr_mask-cell mask once x y (rw size hx) (rw size hy) (refl, rw size square', refl)
          ∙ (ap
                (λ f.
                  if cell f x y
                  then cell once.modules x y
                  else if qr_mask_bit mask x y
                  then not (cell once.modules x y)
                  else cell once.modules x y)
                fun
              ∙ (ap (masked m mask x y) first ∙ masked_twice m mask x y (cell m.modules x y))),
    )
