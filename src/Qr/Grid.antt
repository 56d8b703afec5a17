-- ===== src/Qr/Grid.antt =====
-- Reads and writes on the square grids of services/qrcode.go.
use gig.Base.{
  ℕ, zero, suc, ◌<◌, Bool, false, List, [], ◌∷◌, length, All, get_or, set, ◌≡◌, refl, ap, ◌∙◌, ◌≢◌,
  ◌⊎◌, inl, inr, arith,
}
use native.Mathlib.Decide.{ℕ_discrete}
use mathlib.Core.Path.{subst}
use gig.Qr.Matrix.{Grid, cell, set_cell, Matrix}

module _ {A : Type 0} (d : A) where
  pub get_or-set_same : (xs : List A) (i : ℕ) (v : A) → i < length xs → get_or d (set xs i v) i ≡ v
  get_or-set_same [] i v h = absurd (omega arith)
  get_or-set_same (x ∷ xs) zero v h = refl
  get_or-set_same (x ∷ xs) (suc i) v h = get_or-set_same xs i v (omega arith)

  pub get_or-set_other :
      (xs : List A) (i j : ℕ) (v : A) → i ≢ j → get_or d (set xs i v) j ≡ get_or d xs j
  get_or-set_other [] i j v h = refl
  get_or-set_other (x ∷ xs) zero zero v h = absurd (h refl)
  get_or-set_other (x ∷ xs) zero (suc j) v h = refl
  get_or-set_other (x ∷ xs) (suc i) zero v h = refl
  get_or-set_other (x ∷ xs) (suc i) (suc j) v h = get_or-set_other xs i j v (λ e. h (ap suc e))

  -- A write is read back, or was out of bounds and changed nothing.
  get_or-set_cases :
      (xs : List A) (i : ℕ) (v : A)
      → (get_or d (set xs i v) i ≡ v) ⊎ (get_or d (set xs i v) i ≡ get_or d xs i)
  get_or-set_cases [] i v = inr refl
  get_or-set_cases (x ∷ xs) zero v = inl refl
  get_or-set_cases (x ∷ xs) (suc i) v = get_or-set_cases xs i v

  pub get_or-All :
      (P : A → Type 0) (xs : List A) (i : ℕ) → All P xs → i < length xs → P (get_or d xs i)
  get_or-All P [] i all h = absurd (omega arith)
  get_or-All P (x ∷ xs) zero (p, all) h = p
  get_or-All P (x ∷ xs) (suc i) (p, all) h = get_or-All P xs i all (omega arith)

pub length-set : {A : Type 0} (xs : List A) (i : ℕ) (v : A) → length (set xs i v) ≡ length xs
length-set [] i v = refl
length-set (x ∷ xs) zero v = refl
length-set (x ∷ xs) (suc i) v = ap suc (length-set xs i v)

set-All :
    {A : Type 0} (P : A → Type 0) (xs : List A) (i : ℕ) (v : A)
    → (i < length xs → P v)
    → All P xs
    → All P (set xs i v)
set-All P [] i v h all = all
set-All P (x ∷ xs) zero v h (p, all) = (h (omega arith), all)
set-All P (x ∷ xs) (suc i) v h (p, all) = (p, set-All P xs i v (λ q. h (omega arith)) all)

-- n rows of n modules.
unfoldable pub IsSquare : ℕ → Grid → Type 0
IsSquare n g = (length g ≡ n) × All (λ r. length r ≡ n) g

pub set_cell-IsSquare :
    (n : ℕ) (g : Grid) (x y : ℕ) (v : Bool) → IsSquare n g → IsSquare n (set_cell g x y v)
unfolding IsSquare set_cell
set_cell-IsSquare n g x y v (rows, all) = (
  length-set g y (set (get_or [] g y) x v) ∙ rows,
  set-All _ g y _ (λ h. length-set (get_or [] g y) x v ∙ get_or-All [] _ g y all h) all,
)

pub cell-set_cell_same :
    (n : ℕ) (g : Grid) (x y : ℕ) (v : Bool)
    → IsSquare n g
    → x < n
    → y < n
    → cell (set_cell g x y v) x y ≡ v
unfolding IsSquare set_cell cell
cell-set_cell_same n g x y v (rows, all) hx hy =
    let row_size = get_or-All [] _ g y all (omega arith) in
    rw (get_or-set_same [] g y (set (get_or [] g y) x v) (omega arith))
      (get_or-set_same false (get_or [] g y) x v (omega (arith, row_size)))

pub cell-set_cell_other :
    (g : Grid) (x y x' y' : ℕ) (v : Bool)
    → (x ≢ x') ⊎ (y ≢ y')
    → cell (set_cell g x y v) x' y' ≡ cell g x' y'
unfolding set_cell cell
cell-set_cell_other g x y x' y' v other = elim (ℕ_discrete y y') [
  | no n ↦ ap (λ r. get_or false r x') (get_or-set_other [] g y y' _ n)
  | yes e ↦
      let column : x ≢ x' = elim other [ inl h ↦ h | inr h ↦ absurd (h e) ] in
      let row = set (get_or [] g y) x v in
      elim (get_or-set_cases [] g y row) [
        | inl p ↦
            subst
              (λ k. get_or false (get_or [] (set g y row) k) x' ≡ get_or false (get_or [] g k) x') e
              (rw p (get_or-set_other false (get_or [] g y) x x' v column))
        | inr p ↦
            subst
              (λ k. get_or false (get_or [] (set g y row) k) x' ≡ get_or false (get_or [] g k) x') e
              (ap (λ r. get_or false r x') p)
      ]
]

-- A matrix of the given size, both of whose grids are squares.
pub IsMatrix : ℕ → Matrix → Type 0
IsMatrix n m = (m.size ≡ n) × IsSquare n m.modules × IsSquare n m.is_function
