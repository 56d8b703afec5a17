-- ===== src/Db/Keeps.antt =====
-- Invariants of actions, one rule for each way to build an action.
use gig.Base.{◌≡◌, refl, Bool, true, false, List, [], ◌∷◌, if◌then◌else◌}
use gig.Base.Result.{Result, ok, err}
use gig.Db.{
  Db, StoreError, Action, continue, branch, ◌>>=◌, pure, raise, guard, catch, ignore, with_faults,
  statement, for_each,
}

-- `m` keeps `I`, whether it returns a value or an error.
pub record Keeps {E A : Type 0} (I : Db → Type 0) (m : Action E A) : Type 0 where
  pub at : (db : Db) → I db → I (m db).1

module _ {I : Db → Type 0} where
  pub Keeps-pure : {E A : Type 0} (a : A) → Keeps {E = E} I (pure a)
  unfolding pure
  Keeps-pure a = record { at = λ db h. h }

  pub Keeps-raise : {E A : Type 0} (e : E) → Keeps {A = A} I (raise e)
  unfolding raise
  Keeps-raise e = record { at = λ db h. h }

  pub Keeps-guard : {E : Type 0} (b : Bool) (e : E) → Keeps I (guard b e)
  unfolding guard
  Keeps-guard true e = record { at = λ db h. h }
  Keeps-guard false e = record { at = λ db h. h }

  pub Keeps-if :
      {E A : Type 0} (b : Bool) (m n : Action E A)
      → (b ≡ true → Keeps I m)
      → (b ≡ false → Keeps I n)
      → Keeps I (if b then m else n)
  Keeps-if true m n km kn = km refl
  Keeps-if false m n km kn = kn refl

  -- The rest of a block may use the test of the guard above it.
  pub Keeps-guard-bind :
      {E B : Type 0} (b : Bool) (e : E) (f : Unit {0} → Action E B)
      → (b ≡ true → Keeps I (f tt))
      → Keeps I (guard b e >>= f)
  unfolding ◌>>=◌
  Keeps-guard-bind true e f k = record { at = λ db h. (k refl).at db h }
  Keeps-guard-bind false e f k = record { at = λ db h. h }

  Keeps-continue :
      {E F A B : Type 0} (r : Result E A) (f : A → Action F B) (g : E → Action F B)
      → ((a : A) → Keeps I (f a))
      → ((e : E) → Keeps I (g e))
      → Keeps I (continue r f g)
  Keeps-continue (ok a) f g kf kg = kf a
  Keeps-continue (err e) f g kf kg = kg e

  pub Keeps-branch :
      {E F A B : Type 0} (m : Action E A) (f : A → Action F B) (g : E → Action F B)
      → Keeps I m
      → ((a : A) → Keeps I (f a))
      → ((e : E) → Keeps I (g e))
      → Keeps I (branch m f g)
  unfolding branch
  Keeps-branch m f g km kf kg = record {
    at = λ db h. let (r, db') = m db in (Keeps-continue r f g kf kg).at db' (km.at db h);
  }

  pub Keeps-catch : {E F A : Type 0} (m : Action E A) (g : E → F) → Keeps I m → Keeps I (catch m g)
  unfolding catch
  Keeps-catch m g km = Keeps-branch m pure (λ e. raise (g e)) km Keeps-pure (λ e. Keeps-raise (g e))

  pub Keeps-ignore : {E F A : Type 0} (m : Action E A) → Keeps I m → Keeps {E = F} I (ignore m)
  unfolding ignore
  Keeps-ignore m km = Keeps-branch m _ _ km (λ a. Keeps-pure tt) (λ e. Keeps-pure tt)

  pub Keeps-bind :
      {E A B : Type 0} (m : Action E A) (f : A → Action E B)
      → Keeps I m
      → ((a : A) → Keeps I (f a))
      → Keeps I (m >>= f)
  unfolding ◌>>=◌
  Keeps-bind m f km kf = Keeps-branch m f raise km kf Keeps-raise

  Keeps-with_faults :
      {A : Type 0} (f : Action StoreError A) (faults : List Bool) (db : Db)
      → ((d : Db) (rest : List Bool) → I d → I (record d { faults = rest }))
      → Keeps I f
      → I db
      → I (with_faults faults f db).1
  Keeps-with_faults f [] db free k h = k.at db h
  Keeps-with_faults f (true ∷ rest) db free k h = free db rest h
  Keeps-with_faults f (false ∷ rest) db free k h =
      k.at (record db { faults = rest }) (free db rest h)

  -- A call keeps what its effect keeps, if the invariant does not speak of the faults to come.
  pub Keeps-statement :
      {A : Type 0} (f : Action StoreError A)
      → ((d : Db) (rest : List Bool) → I d → I (record d { faults = rest }))
      → Keeps I f
      → Keeps I (statement f)
  unfolding statement
  Keeps-statement f free k = record { at = λ db h. Keeps-with_faults f db.faults db free k h }

  pub Keeps-for_each :
      {E A : Type 0} (xs : List A) (f : A → Action E (Unit {0}))
      → ((a : A) → Keeps I (f a))
      → Keeps I (for_each xs f)
  unfolding for_each
  Keeps-for_each [] f kf = Keeps-pure tt
  Keeps-for_each (x ∷ xs) f kf = Keeps-bind (f x) _ (kf x) (λ _. Keeps-for_each xs f kf)

pub ruleset keeps_rules = (
  Keeps-pure, Keeps-raise, Keeps-guard-bind, Keeps-guard, Keeps-if, Keeps-branch, Keeps-catch,
  Keeps-ignore, Keeps-bind, Keeps-for_each,
)
