-- ===== src/Wallets/Counts.antt =====
-- How an UPDATE changes the number of rows that pass a test.
use mathlib.Core.Path.{subst}
use gig.Base.{
  All-imp, some, find, ◌+◌, ◌≤◌, Bool, true, false, List, [], ◌∷◌, ◌++◌, All, count_where,
  update_where, if◌then◌else◌, Bool-cases, ◌≡◌, refl, arith, inl, inr,
}

module _ {A : Type 0} (p q : A → Bool) (f : A → A) where
  -- Rows that are changed fail the test afterwards.
  pub count-update_fewer :
      (rows : List A)
      → All (λ r. p r ≡ true → q (f r) ≡ false) rows
      → count_where q (update_where p f rows) ≤ count_where q rows
  count-update_fewer [] h = omega arith
  count-update_fewer (r ∷ rows) (first, h) =
      let rest = count-update_fewer rows h in
      elim (Bool-cases (p r)) [
        | inl e ↦ rw (e, first e) (ground (arith, rest))
        | inr e ↦ rw e (ground (arith, rest))
      ]

  -- All rows that pass the test are changed, and fail it afterwards.
  pub count-update_none :
      (rows : List A)
      → ((r : A) → p r ≡ true → q (f r) ≡ false)
      → ((r : A) → q r ≡ true → p r ≡ true)
      → count_where q (update_where p f rows) ≡ 0
  count-update_none [] gone covered = refl
  count-update_none (r ∷ rows) gone covered =
      let rest = count-update_none rows gone covered in
      elim (Bool-cases (p r)) [
        | inl e ↦ rw (e, gone r e) rest
        | inr e ↦ elim (Bool-cases (q r)) [
          | inl g ↦ absurd (let hit = covered r g in cc)
          | inr g ↦ rw (e, g) rest
        ]
      ]

  -- No more rows pass the test than did before or are changed.
  pub count-update_sum :
      (rows : List A)
      → count_where q (update_where p f rows) ≤ count_where q rows + count_where p rows
  count-update_sum [] = omega arith
  count-update_sum (r ∷ rows) =
      let rest = count-update_sum rows in
      elim (Bool-cases (p r)) [
        | inl e ↦ rw e (ground (arith, rest))
        | inr e ↦ rw e (ground (arith, rest))
      ]

  -- The change does not matter to the test.
  pub count-update_same :
      (rows : List A)
      → ((r : A) → q (f r) ≡ q r)
      → count_where q (update_where p f rows) ≡ count_where q rows
  count-update_same [] same = refl
  count-update_same (r ∷ rows) same =
      let rest = count-update_same rows same in
      elim (Bool-cases (p r)) [ inl e ↦ rw (e, same r, rest) refl | inr e ↦ rw (e, rest) refl ]

pub update-All :
    {A : Type 0} (P : A → Type 0) (p : A → Bool) (f : A → A) (rows : List A)
    → ((r : A) → P r → P (f r))
    → All P rows
    → All P (update_where p f rows)
update-All P p f [] keeps all = tt
update-All P p f (r ∷ rows) keeps (first, all) = elim (Bool-cases (p r)) [
  | inl e ↦ rw e (keeps r first, update-All P p f rows keeps all)
  | inr e ↦ rw e (first, update-All P p f rows keeps all)
]

pub All-intro : {A : Type 0} (P : A → Type 0) (rows : List A) → ((r : A) → P r) → All P rows
All-intro P [] h = tt
All-intro P (r ∷ rows) h = (h r, All-intro P rows h)

-- No row passes a test that is counted zero times.
pub count_zero :
    {A : Type 0} (q : A → Bool) (rows : List A)
    → count_where q rows ≡ 0
    → All (λ r. q r ≡ false) rows
count_zero q [] e = tt
count_zero q (r ∷ rows) e = elim (Bool-cases (q r)) [
  | inl h ↦ absurd (ground arith)
  | inr h ↦ (h, count_zero q rows (ground arith))
]

pub count-append :
    {A : Type 0} (q : A → Bool) (xs ys : List A)
    → count_where q (xs ++ ys) ≡ count_where q xs + count_where q ys
count-append q [] ys = omega arith
count-append q (x ∷ xs) ys = ground (arith, count-append q xs ys)

-- The row that a narrower test finds is the only one that passes the test.
pub find_only :
    {A : Type 0} (p q : A → Bool) (w : A) (rows : List A)
    → ((r : A) → p r ≡ true → q r ≡ true)
    → find p rows ≡ some w
    → count_where q rows ≤ 1
    → All (λ r. q r ≡ true → r ≡ w) rows × (1 ≤ count_where q rows)
find_only p q w [] wider e one = absurd cc
find_only p q w (r ∷ rows) wider e one = elim (Bool-cases (p r)) [
  | inl hit ↦
      let here : some r ≡ some w =
        subst (λ b. (if b then some r else find p rows) ≡ some w) hit e in
      let passes = wider r hit in
      let alone : count_where q rows ≡ 0 = ground arith in
      ((λ h. cc, All-imp rows (λ v off on. absurd cc) (count_zero q rows alone)), ground arith)
  | inr miss ↦
      let later : find p rows ≡ some w =
        subst (λ b. (if b then some r else find p rows) ≡ some w) miss e in
      let (rest, counted) = find_only p q w rows wider later (ground arith) in
      ((λ h. absurd (ground arith), rest), ground arith)
]
