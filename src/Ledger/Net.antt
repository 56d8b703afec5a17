-- ===== src/Ledger/Net.antt =====
-- What a list of entries adds to a currency and to an account, independently of how it is checked.
use mathlib.Core.List.{append-nil}
use gig.Base.{
  ℕ, ◌≡◌, refl, inl, inr, Bool, true, false, ◌&&◌, Option, none, some, List, [], ◌∷◌, ◌++◌, arith,
  ◌==◌, if◌then◌else◌, Bool-cases,
}
use gig.Base.Int.{ℤ, pos, ◌+ℤ◌, ◌-ℤ◌, ◌≤ℤ◌, ◌<ℤ◌, ltb_ℤ, int_laws}
use gig.Base.Text.{Bytes, bytes_eq}
use gig.Ledger.{
  AccountKind, platform_revenue, seller_pending, seller_available, refunds, reserves,
  provider_clearing, Direction, debit, credit, other, Entry, append_if,
}

abbrev pub signed_amount : Direction → ℤ → ℤ
signed_amount debit a = pos 0 -ℤ a
signed_amount credit a = a
signed_amount (other _) a = pos 0

-- Credits less debits.
abbrev pub signed : Entry → ℤ
signed e = signed_amount e.direction e.amount_minor

abbrev pub net : Bytes → List Entry → ℤ
net c [] = pos 0
net c (e ∷ es) = (if bytes_eq c e.currency then signed e else pos 0) +ℤ net c es

abbrev pub IsKnown : Direction → Type 0
IsKnown debit = Unit
IsKnown credit = Unit
IsKnown (other _) = ⊥

-- A positive amount in one of the two directions.
abbrev pub IsPostable : Entry → Type 0
IsPostable e = (pos 0 <ℤ e.amount_minor) × IsKnown e.direction

pub net-append : (c : Bytes) (xs ys : List Entry) → net c (xs ++ ys) ≡ net c xs +ℤ net c ys
net-append c [] ys = omega int_laws
net-append c (x ∷ xs) ys = rw (net-append c xs ys) (omega int_laws)

-- The number of an account kind, for comparing two.
abbrev pub kind_code : AccountKind → ℕ
kind_code platform_revenue = 0
kind_code seller_pending = 1
kind_code seller_available = 2
kind_code refunds = 3
kind_code reserves = 4
kind_code provider_clearing = 5

abbrev pub owner_eq : Option ℕ → Option ℕ → Bool
owner_eq none none = true
owner_eq none (some b) = false
owner_eq (some a) none = false
owner_eq (some a) (some b) = a == b

-- A ledger account is a kind, an owner and a currency.
abbrev pub Account : Type 0
Account = AccountKind × Option ℕ × Bytes

pub is_account : Account → AccountKind → Option ℕ → Bytes → Bool
is_account (k, w, c) kind owner currency =
    kind_code k == kind_code kind && owner_eq w owner && bytes_eq c currency

-- `z` if the account is the one that the three parts name, and nothing otherwise.
abbrev pub amount_at : Account → AccountKind → Option ℕ → Bytes → ℤ → ℤ
amount_at a kind owner currency z = if is_account a kind owner currency then z else pos 0

-- What a list of entries adds to one account.
abbrev pub account_net : Account → List Entry → ℤ
account_net a [] = pos 0
account_net a (e ∷ es) =
    amount_at a e.account_kind e.owner_id e.currency (signed e) +ℤ account_net a es

pub account_net-append :
    (a : Account) (xs ys : List Entry)
    → account_net a (xs ++ ys) ≡ account_net a xs +ℤ account_net a ys
account_net-append a [] ys = omega int_laws
account_net-append a (x ∷ xs) ys = rw (account_net-append a xs ys) (omega int_laws)

signed_zero : (d : Direction) → signed_amount d (pos 0) ≡ pos 0
signed_zero debit = omega int_laws
signed_zero credit = refl
signed_zero (other _) = refl

if_same {ℓ} : {A : Type ℓ} (t : Bool) (x : A) → (if t then x else x) ≡ x
if_same true x = refl
if_same false x = refl

skipped_adds_nothing :
    (e : Entry) (t : Bool) (z : ℤ)
    → e.amount_minor ≡ pos 0
    → z ≡ (if t then signed e else pos 0) +ℤ z
skipped_adds_nothing e t z h = rw (h, signed_zero, if_same) (omega int_laws)

-- Leaving out an entry whose amount is not positive changes no sum, if the amount is not negative.
pub net-append_if :
    (c : Bytes) (e : Entry) (es : List Entry)
    → pos 0 ≤ℤ e.amount_minor
    → net c (append_if (ltb_ℤ (pos 0) e.amount_minor) e ++ es) ≡ net c (e ∷ es)
net-append_if c e es h = elim (Bool-cases (ltb_ℤ (pos 0) e.amount_minor)) [
  | inl kept ↦ rw kept
  | inr left_out ↦
      rw left_out (skipped_adds_nothing e (bytes_eq c e.currency) (net c es) (ground arith))
]

pub account_net-append_if :
    (a : Account) (e : Entry) (es : List Entry)
    → pos 0 ≤ℤ e.amount_minor
    → account_net a (append_if (ltb_ℤ (pos 0) e.amount_minor) e ++ es) ≡ account_net a (e ∷ es)
account_net-append_if a e es h = elim (Bool-cases (ltb_ℤ (pos 0) e.amount_minor)) [
  | inl kept ↦ rw kept
  | inr left_out ↦ rw left_out (
      skipped_adds_nothing e (is_account a e.account_kind e.owner_id e.currency) (account_net a es)
        (ground arith))
]

pub debit_if :
    (t : Bool) (z : ℤ) → (if t then pos 0 -ℤ z else pos 0) ≡ pos 0 -ℤ (if t then z else pos 0)
debit_if true z = refl
debit_if false z = omega int_laws

pub net-append_if_last :
    (c : Bytes) (e : Entry)
    → pos 0 ≤ℤ e.amount_minor
    → net c (append_if (ltb_ℤ (pos 0) e.amount_minor) e) ≡ net c (e ∷ [])
net-append_if_last c e h = rw (← append-nil (append_if _ e)) (net-append_if c e [] h)

pub account_net-append_if_last :
    (a : Account) (e : Entry)
    → pos 0 ≤ℤ e.amount_minor
    → account_net a (append_if (ltb_ℤ (pos 0) e.amount_minor) e) ≡ account_net a (e ∷ [])
account_net-append_if_last a e h =
    rw (← append-nil (append_if _ e)) (account_net-append_if a e [] h)
