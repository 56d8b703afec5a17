-- ===== src/Db/Leads.antt =====
-- Actions with a condition before, one on the value that they return, and one on the tables after an error.
use gig.Base.{◌≡◌, refl, Bool, true, false}
use gig.Base.Result.{Result, ok, err}
use gig.Db.{
  Db, StoreError, Action, continue, branch, ◌>>=◌, pure, raise, guard, with_faults, statement,
}
use gig.Base.{List, [], ◌∷◌}
use gig.Db.Keeps.{Keeps}

abbrev pub Outcome : {E A : Type 0} → (A → Db → Type 0) → (Db → Type 0) → Result E A → Db → Type 0
Outcome Q R (ok a) db = Q a db
Outcome Q R (err e) db = R db

pub record Leads {E A : Type 0} (P : Db → Type 0) (Q : A → Db → Type 0) (R : Db → Type 0)
    (m : Action E A) : Type 0 where
  pub at : (db : Db) → P db → Outcome Q R (m db).0 (m db).1

pub outcome_both :
    {E A : Type 0} (R : Db → Type 0) (r : Result E A) (db : Db) → Outcome (λ _. R) R r db → R db
outcome_both R (ok a) db h = h
outcome_both R (err e) db h = h

from_both :
    {E A : Type 0} (P R : Db → Type 0) (r : Result E A) (db : Db)
    → ((d : Db) → P d → R d)
    → P db
    → Outcome (λ (a : A). P) R r db
from_both P R (ok a) db weaker h = h
from_both P R (err e) db weaker h = weaker db h

-- An action that keeps a condition has it after an error too.
pub Leads-Keeps :
    {E A : Type 0} {P R : Db → Type 0} (m : Action E A)
    → ((d : Db) → P d → R d)
    → Keeps P m
    → Leads P (λ _. P) R m
Leads-Keeps {P = P} {R = R} m weaker k = record {
  at = λ db h. from_both P R (m db).0 (m db).1 weaker (k.at db h);
}

pub Keeps-Leads :
    {E A : Type 0} {R : Db → Type 0} (m : Action E A) → Leads R (λ _. R) R m → Keeps R m
Keeps-Leads {R = R} m k = record { at = λ db h. outcome_both R (m db).0 (m db).1 (k.at db h) }

continue_outcome :
    {E F A B : Type 0} {Q : A → Db → Type 0} {Q' : B → Db → Type 0} {R R' : Db → Type 0}
    (r : Result E A) (f : A → Action F B) (g : E → Action F B) (db : Db)
    → Outcome Q R r db
    → ((a : A) → Leads (Q a) Q' R' (f a))
    → ((e : E) → Leads R Q' R' (g e))
    → Outcome Q' R' (continue r f g db).0 (continue r f g db).1
continue_outcome (ok a) f g db h kf kg = (kf a).at db h
continue_outcome (err e) f g db h kf kg = (kg e).at db h

pub Leads-branch :
    {E F A B : Type 0} {P R R' : Db → Type 0} {Q : A → Db → Type 0} {Q' : B → Db → Type 0}
    (m : Action E A) (f : A → Action F B) (g : E → Action F B)
    → Leads P Q R m
    → ((a : A) → Leads (Q a) Q' R' (f a))
    → ((e : E) → Leads R Q' R' (g e))
    → Leads P Q' R' (branch m f g)
unfolding branch
Leads-branch m f g km kf kg = record {
  at = λ db h. continue_outcome (m db).0 f g (m db).1 (km.at db h) kf kg;
}

pub Leads-raise :
    {E A : Type 0} {R : Db → Type 0} {Q : A → Db → Type 0} (e : E) → Leads R Q R (raise e)
unfolding raise
Leads-raise e = record { at = λ db h. h }

pub Leads-bind :
    {E A B : Type 0} {P R : Db → Type 0} {Q : A → Db → Type 0} {Q' : B → Db → Type 0}
    (m : Action E A) (f : A → Action E B)
    → Leads P Q R m
    → ((a : A) → Leads (Q a) Q' R (f a))
    → Leads P Q' R (m >>= f)
unfolding ◌>>=◌
Leads-bind m f km kf = Leads-branch m f raise km kf Leads-raise

pub Leads-pure :
    {E A : Type 0} {P R : Db → Type 0} {Q : A → Db → Type 0} (a : A)
    → ((d : Db) → P d → Q a d)
    → Leads {E = E} P Q R (pure a)
unfolding pure
Leads-pure a h = record { at = h }

-- The rest of a block may use a test that passed.
pub Leads-guard :
    {E : Type 0} {P R : Db → Type 0} (b : Bool) (e : E)
    → ((d : Db) → P d → R d)
    → Leads P (λ _ d. P d × (b ≡ true)) R (guard b e)
unfolding guard
Leads-guard true e weaker = record { at = λ db h. (h, refl) }
Leads-guard false e weaker = record { at = weaker }

-- A call: a fault changes nothing, and else its effect decides.
with_faults_outcome :
    {A : Type 0} {P R : Db → Type 0} {Q : A → Db → Type 0} (f : Action StoreError A)
    (faults : List Bool) (db : Db)
    → ((d : Db) (rest : List Bool) → P d → P (record d { faults = rest }))
    → ((d : Db) → P d → R d)
    → Leads P Q R f
    → P db
    → Outcome Q R (with_faults faults f db).0 (with_faults faults f db).1
with_faults_outcome f [] db free weaker k h = k.at db h
with_faults_outcome f (true ∷ rest) db free weaker k h = weaker _ (free db rest h)
with_faults_outcome f (false ∷ rest) db free weaker k h = k.at _ (free db rest h)

pub Leads-statement :
    {A : Type 0} {P R : Db → Type 0} {Q : A → Db → Type 0} (f : Action StoreError A)
    → ((d : Db) (rest : List Bool) → P d → P (record d { faults = rest }))
    → ((d : Db) → P d → R d)
    → Leads P Q R f
    → Leads P Q R (statement f)
unfolding statement
Leads-statement f free weaker k = record {
  at = λ db h. with_faults_outcome f db.faults db free weaker k h;
}

post_outcome :
    {E A : Type 0} (Q Q' : A → Db → Type 0) (R : Db → Type 0) (r : Result E A) (db : Db)
    → ((a : A) (d : Db) → Q a d → Q' a d)
    → Outcome Q R r db
    → Outcome Q' R r db
post_outcome Q Q' R (ok a) db follows h = follows a db h
post_outcome Q Q' R (err e) db follows h = h

pub Leads-post :
    {E A : Type 0} {P R : Db → Type 0} {Q Q' : A → Db → Type 0} (m : Action E A)
    → ((a : A) (d : Db) → Q a d → Q' a d)
    → Leads P Q R m
    → Leads P Q' R m
Leads-post {R = R} {Q = Q} {Q' = Q'} m follows k = record {
  at = λ db h. post_outcome Q Q' R (m db).0 (m db).1 follows (k.at db h);
}

pub Leads-pre :
    {E A : Type 0} {P P' R : Db → Type 0} {Q : A → Db → Type 0} (m : Action E A)
    → ((d : Db) → P d → P' d)
    → Leads P' Q R m
    → Leads P Q R m
Leads-pre m weaker k = record { at = λ db h. k.at db (weaker db h) }
