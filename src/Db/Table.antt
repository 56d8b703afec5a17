-- ===== src/Db/Table.antt =====
-- Reads of a table after an UPDATE and after an INSERT.
use gig.Base.{
  ◌≡◌, refl, inl, inr, Bool, true, Option, none, some, List, [], ◌∷◌, ◌++◌, arith, find,
  update_where, if◌then◌else◌, Bool-cases,
}

module _ {ℓ} {A : Type ℓ} where
  abbrev pub map_option : (A → A) → Option A → Option A
  map_option f none = none
  map_option f (some x) = some (f x)

  abbrev pub or_else : Option A → Option A → Option A
  or_else none o = o
  or_else (some x) o = some x

  -- An UPDATE that leaves alone what the read looks at changes the row that is read, if it hits it.
  pub find-update_where :
      (p q : A → Bool) (f : A → A) (rows : List A)
      → ((x : A) → p (f x) ≡ p x)
      → find p (update_where q f rows) ≡ map_option (λ x. if q x then f x else x) (find p rows)
  find-update_where p q f [] same = refl
  find-update_where p q f (x ∷ rows) same = elim (Bool-cases (q x)) [
    | inl hit ↦ elim (Bool-cases (p x)) [
      | inl found ↦ rw (hit, same x, found, hit)
      | inr passed ↦ rw (hit, same x, passed) (find-update_where p q f rows same)
    ]
    | inr missed ↦ elim (Bool-cases (p x)) [
      | inl found ↦ rw (missed, found, missed)
      | inr passed ↦ rw (missed, passed) (find-update_where p q f rows same)
    ]
  ]

  -- An INSERT is seen only by a read that found nothing before.
  pub find-append :
      (p : A → Bool) (xs ys : List A) → find p (xs ++ ys) ≡ or_else (find p xs) (find p ys)
  find-append p [] ys = refl
  find-append p (x ∷ xs) ys = elim (Bool-cases (p x)) [
    | inl found ↦ rw found
    | inr passed ↦ rw passed (find-append p xs ys)
  ]

  -- The row that a read finds passes its test.
  pub find-passes : (p : A → Bool) (xs : List A) (a : A) → find p xs ≡ some a → p a ≡ true
  find-passes p [] a h = grind arith
  find-passes p (x ∷ xs) a h = elim (Bool-cases (p x)) [
    | inl found ↦ let e : some x ≡ some a = rw found at h in grind arith
    | inr passed ↦ find-passes p xs a (rw passed at h)
  ]
