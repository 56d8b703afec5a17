-- ===== src/Ledger/Validate.antt =====
-- `Validate` of ledger/ledger.go decides exactly the double-entry invariant.
use gig.Base.{
  ◌≡◌, ◌≢◌, refl, sym, ◌∙◌, ap, ◌↔◌, inl, inr, true, false, none, some, List, [], ◌∷◌, All, arith,
  if◌then◌else◌, Bool-cases,
}
use gig.Base.Int.{
  ℤ, pos, ◌+ℤ◌, ◌-ℤ◌, leb_ℤ, wrap64, IsInt64, wrap64_id, wrap64-IsInt64, wrap64-+ℤ, int_laws,
}
use gig.Base.Text.{Bytes, bytes_eq, bytes_eq_iff}
use gig.Base.Result.{ok, Result-cases}
use gig.Ledger.{
  Direction, debit, credit, other, Entry, Balances, lookup, get, insert, post_direction,
  validate_entry, validate_loop, all_zero, validate,
}
use gig.Ledger.Net.{signed_amount, signed, net, IsKnown, IsPostable}

-- Every balance is an int64, and no currency has two.
abbrev IsValid : Balances → Type 0
IsValid [] = Unit
IsValid ((k, v) ∷ m) = IsInt64 v × (lookup k m ≡ none) × IsValid m

lookup-insert :
    (c k : Bytes) (v : ℤ) (m : Balances)
    → lookup c (insert k v m) ≡ (if bytes_eq c k then some v else lookup c m)
lookup-insert c k v [] = refl
lookup-insert c k v ((j, w) ∷ m) =
    ground (arith, bytes_eq_iff c k, bytes_eq_iff k j, bytes_eq_iff c j, lookup-insert c k v m)

insert-IsValid : (k : Bytes) (v : ℤ) (m : Balances) → IsInt64 v → IsValid m → IsValid (insert k v m)
insert-IsValid k v [] h i = (h, refl, tt)
insert-IsValid k v ((j, w) ∷ m) h i =
    ground
      (arith, bytes_eq_iff k j, bytes_eq_iff j k, insert-IsValid k v m h i.2, lookup-insert j k v m)

get-IsInt64 : (c : Bytes) (m : Balances) → IsValid m → IsInt64 (get c m)
get-IsInt64 c [] i = ground arith
get-IsInt64 c ((j, w) ∷ m) i = ground (arith, get-IsInt64 c m i.2)

add_zero_wrapped : (z : ℤ) → IsInt64 z → z ≡ wrap64 (z +ℤ pos 0)
add_zero_wrapped z h = let e : z +ℤ pos 0 ≡ z = omega int_laws in rw e (sym (wrap64_id z h))

sub-eq-add : (a b : ℤ) → a -ℤ b ≡ a +ℤ (pos 0 -ℤ b)
sub-eq-add a b = omega int_laws

get-insert_if :
    (c k : Bytes) (v : ℤ) (m : Balances)
    → get c (insert k v m) ≡ (if bytes_eq c k then v else get c m)
get-insert_if c k v m = ground (arith, lookup-insert c k v m)

-- A write of the wrapped sum adds to the currency that is written, and to no other.
get-insert :
    (c k : Bytes) (d : ℤ) (m : Balances)
    → IsValid m
    → get c (insert k (wrap64 (get k m +ℤ d)) m)
      ≡ wrap64 (get c m +ℤ (if bytes_eq c k then d else pos 0))
get-insert c k d m i =
    get-insert_if c k (wrap64 (get k m +ℤ d)) m ∙ elim (Bool-cases (bytes_eq c k)) [
      | inl same ↦ rw (same, (bytes_eq_iff c k).0 same)
      | inr other_key ↦ rw other_key (add_zero_wrapped (get c m) (get-IsInt64 c m i))
    ]

-- One entry adds its signed amount to its currency, wrapped, and to no other.
post_direction_lem :
    (d : Direction) (k : Bytes) (a : ℤ) (m m' : Balances)
    → post_direction d k a m ≡ ok m'
    → IsKnown d × (m' ≡ insert k (wrap64 (get k m +ℤ signed_amount d a)) m)
post_direction_lem debit k a m m' e = (tt, rw (← sub-eq-add (get k m) a) (cc))
post_direction_lem credit k a m m' e = (tt, cc)
post_direction_lem (other x) k a m m' e = cc

validate_entry_lem :
    (e : Entry) (m m' : Balances)
    → validate_entry e m ≡ ok m'
    → IsPostable e × (m' ≡ insert e.currency (wrap64 (get e.currency m +ℤ signed e)) m)
unfolding validate_entry
validate_entry_lem e m m' h = elim (Bool-cases (leb_ℤ e.amount_minor (pos 0))) [
  | inl bad ↦ ground arith
  | inr fine ↦
      let posted = post_direction_lem e.direction e.currency e.amount_minor m m' (rw fine at h) in
      ((ground arith, posted.0), posted.1)
]

validate_entry_ok :
    (e : Entry) (m : Balances) → IsPostable e → (m' : Balances) × (validate_entry e m ≡ ok m')
unfolding validate_entry
validate_entry_ok e m h = go e.direction refl h.1
  where
    positive : leb_ℤ e.amount_minor (pos 0) ≡ false
    positive = ground arith

    go :
        (d : Direction)
        → e.direction ≡ d
        → IsKnown e.direction
        → (m' : Balances) × (validate_entry e m ≡ ok m')
    go debit q known =
        (insert e.currency (wrap64 (get e.currency m -ℤ e.amount_minor)) m, rw (positive, q))
    go credit q known =
        (insert e.currency (wrap64 (get e.currency m +ℤ e.amount_minor)) m, rw (positive, q))
    go (other x) q known = elim (rw q at known) [ ]

regroup_wrapped : (a b c : ℤ) → wrap64 (wrap64 (a +ℤ b) +ℤ c) ≡ wrap64 (a +ℤ (b +ℤ c))
regroup_wrapped a b c =
    let e : a +ℤ b +ℤ c ≡ a +ℤ (b +ℤ c) = omega int_laws in wrap64-+ℤ (a +ℤ b) c ∙ ap wrap64 e

validate_loop_lem :
    (es : List Entry) (m m' : Balances)
    → validate_loop es m ≡ ok m'
    → IsValid m
    → All IsPostable es × IsValid m' × ((c : Bytes) → get c m' ≡ wrap64 (get c m +ℤ net c es))
unfolding validate_loop
validate_loop_lem [] m m' h i =
    let e : m ≡ m' = cc in
    (tt, rw e at i, λ c. rw (← e) (add_zero_wrapped (get c m) (get-IsInt64 c m i)))
validate_loop_lem (e ∷ es) m m' h i = elim (Result-cases (validate_entry e m)) [
  | inl (m₁, step) ↦
      let (postable, moved) = validate_entry_lem e m m₁ step in
      let valid : IsValid m₁ = rw moved (insert-IsValid e.currency _ m (wrap64-IsInt64 _) i) in
      let (all, valid', sums) = validate_loop_lem es m₁ m' (rw step at h) valid in
      (
        (postable, all),
        valid',
        λ c.
            sums c
            ∙ rw (moved, get-insert c e.currency (signed e) m i)
                (regroup_wrapped (get c m) _ (net c es)),
      )
  | inr (x, step) ↦ absurd (cc)
]

validate_loop_ok :
    (es : List Entry) (m : Balances)
    → All IsPostable es
    → (m' : Balances) × (validate_loop es m ≡ ok m')
unfolding validate_loop
validate_loop_ok [] m h = (m, refl)
validate_loop_ok (e ∷ es) m h =
    let (m₁, step) = validate_entry_ok e m h.0 in
    let (m', rest) = validate_loop_ok es m₁ h.1 in (m', rw step rest)

all_zero-get : (m : Balances) (c : Bytes) → all_zero m ≡ true → get c m ≡ pos 0
unfolding all_zero
all_zero-get [] c h = refl
all_zero-get ((k, v) ∷ m) c h = ground (arith, all_zero-get m c)

all_zero_of : (m : Balances) → IsValid m → ((c : Bytes) → get c m ≡ pos 0) → all_zero m ≡ true
unfolding all_zero
all_zero_of [] i h = refl
all_zero_of ((k, v) ∷ m) i h = ground (arith, h k, bytes_eq_iff k k, all_zero_of m i.2 rest)
  where
    rest : (c : Bytes) → get c m ≡ pos 0
    rest c = ground (arith, h c, bytes_eq_iff c k, i.1)

-- `Validate` accepts a list of entries exactly when it is not empty, every entry has a positive
-- amount and a direction that is debit or credit, and in every currency the credits less the
-- debits are zero as an int64.
pub validate_iff :
    (es : List Entry)
    → (validate es ≡ ok tt)
      ↔ ((es ≢ []) × All IsPostable es × ((c : Bytes) → wrap64 (net c es) ≡ pos 0))
unfolding validate
validate_iff [] = (λ h. cc, λ h. absurd (h.0 refl))
validate_iff (e ∷ es) = (sound, complete)
  where
    zero_sum : (c : Bytes) → wrap64 (pos 0 +ℤ net c (e ∷ es)) ≡ wrap64 (net c (e ∷ es))
    zero_sum c = let q : pos 0 +ℤ net c (e ∷ es) ≡ net c (e ∷ es) = omega int_laws in ap wrap64 q

    sound :
        validate (e ∷ es) ≡ ok tt
        → ((e ∷ es) ≢ [])
          × All IsPostable (e ∷ es)
          × ((c : Bytes) → wrap64 (net c (e ∷ es)) ≡ pos 0)
    sound h = elim (Result-cases (validate_loop (e ∷ es) [])) [
      | inl (m, run) ↦
          let (all, valid, sums) = validate_loop_lem (e ∷ es) [] m run tt in
          elim (Bool-cases (all_zero m)) [
            | inl zeros ↦
                (λ q. cc, all, λ c. sym (zero_sum c) ∙ sym (sums c) ∙ all_zero-get m c zeros)
            | inr nonzero ↦ absurd (ground arith)
          ]
      | inr (x, run) ↦ absurd (cc)
    ]

    complete :
        ((e ∷ es) ≢ []) × All IsPostable (e ∷ es) × ((c : Bytes) → wrap64 (net c (e ∷ es)) ≡ pos 0)
        → validate (e ∷ es) ≡ ok tt
    complete h =
        let (m, run) = validate_loop_ok (e ∷ es) [] h.1 in
        let (all, valid, sums) = validate_loop_lem (e ∷ es) [] m run tt in
        rw (run, all_zero_of m valid (λ c. sums c ∙ zero_sum c ∙ h.2 c))
