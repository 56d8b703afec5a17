-- ===== src/Wallets/Rows.antt =====
-- What superseding and inserting do to the wallets that pass a test (store/wallets.go).
use gig.Base.{
  ℕ, ◌≤◌, ◌<◌, Bool, true, false, ◌&&◌, List, [], ◌∷◌, ◌++◌, All, count_where, update_where,
  and_split, ◌==◌, ==_iff, ==_refl, ◌≡◌, refl, sym, ◌∙◌, ◌⊎◌, arith, inl, inr,
}
use gig.Base.Text.{Bytes, bytes_eq, bytes_eq_iff}
use gig.Wallets.{
  SellerWallet, WalletStatus, wallet_superseded, is_status, is_pair, is_pair_in, supersede,
  pending_wallet, has_wallet_id,
}
use gig.Wallets.Counts.{count-update_fewer, count-update_none, All-intro, count-append}

abbrev pub AtMostOne : (SellerWallet → Bool) → List SellerWallet → Type 0
AtMostOne p rows = count_where p rows ≤ 1

pub and_false : (b : Bool) → (b && false) ≡ false
and_false b = ground arith

pub superseded_out :
    (st : WalletStatus) (user : ℕ) (network asset : Bytes) (now : ℕ) (w : SellerWallet)
    → is_status st wallet_superseded ≡ false
    → is_pair_in st user network asset (supersede now w) ≡ false
superseded_out st user network asset now w e = rw e (and_false _)

-- Superseding never makes a pending or a confirmed wallet.
pub supersede_fewer :
    (st : WalletStatus) (user : ℕ) (network asset : Bytes) (now : ℕ) (p : SellerWallet → Bool)
    (rows : List SellerWallet)
    → is_status st wallet_superseded ≡ false
    → AtMostOne (is_pair_in st user network asset) rows
    → AtMostOne (is_pair_in st user network asset) (update_where p (supersede now) rows)
supersede_fewer st user network asset now p rows e h = omega (
  arith,
  count-update_fewer p (is_pair_in st user network asset) (supersede now) rows
      (All-intro _ rows (λ w q. superseded_out st user network asset now w e)),
)

-- Superseding the wallets of a pair in a status leaves none of them in it.
pub supersede_all :
    (st : WalletStatus) (user : ℕ) (network asset : Bytes) (now : ℕ) (rows : List SellerWallet)
    → is_status st wallet_superseded ≡ false
    → count_where
        (is_pair_in st user network asset)
        (update_where (is_pair_in st user network asset) (supersede now) rows)
      ≡ 0
supersede_all st user network asset now rows e =
    count-update_none (is_pair_in st user network asset) (is_pair_in st user network asset)
      (supersede now) rows (λ w q. superseded_out st user network asset now w e) (λ w q. q)

-- The pair of a wallet is the one that it is tested for.
pub is_pair-same :
    (user : ℕ) (network asset : Bytes) (w : SellerWallet)
    → is_pair user network asset w ≡ true
    → (w.user_id ≡ user) × (w.network ≡ network) × (w.asset ≡ asset)
unfolding is_pair
is_pair-same user network asset w e =
    let (first, a) =
      and_split (w.user_id == user && bytes_eq w.network network) (bytes_eq w.asset asset) e in
    let (u, n) = and_split (w.user_id == user) (bytes_eq w.network network) first in
    ((==_iff _ _).0 u, (bytes_eq_iff _ _).0 n, (bytes_eq_iff _ _).0 a)

pub count_single : (q : SellerWallet → Bool) (w : SellerWallet) → count_where q (w ∷ []) ≤ 1
count_single q w = ground arith

pub count_single-zero :
    (q : SellerWallet → Bool) (w : SellerWallet) → q w ≡ false → count_where q (w ∷ []) ≡ 0
count_single-zero q w e = rw e refl

pub AtMostOne-append :
    (q : SellerWallet → Bool) (rows : List SellerWallet) (w : SellerWallet)
    → (count_where q rows ≡ 0) ⊎ ((q w ≡ false) × AtMostOne q rows)
    → AtMostOne q (rows ++ w ∷ [])
AtMostOne-append q rows w (inl e) = omega (arith, count-append q rows (w ∷ []), count_single q w)
AtMostOne-append q rows w (inr (e, h)) =
    omega (arith, count-append q rows (w ∷ []), count_single-zero q w e)

pub All-append-last :
    (P : SellerWallet → Type 0) (rows : List SellerWallet) (w : SellerWallet)
    → All P rows
    → P w
    → All P (rows ++ w ∷ [])
All-append-last P [] w all p = (p, tt)
All-append-last P (r ∷ rows) w (first, all) p = (first, All-append-last P rows w all p)

-- A number that is not given yet is no row's.
pub fresh_id :
    (i : ℕ) (rows : List SellerWallet)
    → All (λ w. w.id < i) rows
    → count_where (has_wallet_id i) rows ≡ 0
fresh_id i [] used = refl
fresh_id i (w ∷ rows) (h, used) = ground (arith, fresh_id i rows used)

pub other_pair :
    (user user' : ℕ) (network network' asset asset' : Bytes) (w : SellerWallet)
    → is_pair user network asset w ≡ true
    → is_pair user' network' asset' w ≡ true
    → (user ≡ user') × (network ≡ network') × (asset ≡ asset')
other_pair user user' network network' asset asset' w p q =
    let (u, n, a) = is_pair-same user network asset w p in
    let (u', n', a') = is_pair-same user' network' asset' w q in
    (sym u ∙ u', sym n ∙ n', sym a ∙ a')

-- Superseding by one pair leaves no row of the same pair, however it is named.
pub supersede_named :
    (st : WalletStatus) (user user' : ℕ) (network network' asset asset' : Bytes) (now : ℕ)
    (rows : List SellerWallet)
    → is_status st wallet_superseded ≡ false
    → (user ≡ user') × (network ≡ network') × (asset ≡ asset')
    → count_where
        (is_pair_in st user' network' asset')
        (update_where (is_pair_in st user network asset) (supersede now) rows)
      ≡ 0
supersede_named st user user' network network' asset asset' now rows e (u, n, a) =
    rw⁻¹ (u, n, a) (supersede_all st user network asset now rows e)

pub own_pair :
    (id now user : ℕ) (network asset encrypted fingerprint : Bytes)
    → is_pair user network asset (pending_wallet id now user network asset encrypted fingerprint)
      ≡ true
unfolding is_pair
own_pair id now user network asset encrypted fingerprint =
    rw (==_refl user, (bytes_eq_iff network network).1 refl, (bytes_eq_iff asset asset).1 refl) refl
