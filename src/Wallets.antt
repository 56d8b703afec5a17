-- ===== src/Wallets.antt =====
-- store/wallets.go: the wallets that payouts go to. A transaction that fails is rolled back and changes
-- nothing, so only the transactions that commit are written out.
mod Counts
mod Rows
mod Unique
mod Tests
use gig.Base.{
  ℕ, zero, suc, ◌+◌, Bool, true, false, ◌&&◌, List, [], ◌∷◌, ◌++◌, Option, none, some, find,
  update_where, leb, ◌==◌, if◌then◌else◌,
}
use gig.Base.Text.{Bytes, bytes_eq}
use gig.Base.Result.{Result, ok, err}

pub data WalletStatus : Type 0 where
  wallet_pending wallet_confirmed wallet_superseded : WalletStatus

pub data WalletError : Type 0 where
  wallet_not_found : WalletError

-- SellerWallet
pub record SellerWallet : Type 0 where
  pub id : ℕ
  pub user_id : ℕ
  pub network : Bytes
  pub asset : Bytes
  pub address_encrypted : Bytes
  pub address_fingerprint : Bytes
  pub status : WalletStatus
  pub confirmed_at : Option ℕ
  pub eligible_at : Option ℕ
  pub created_at : ℕ
  pub updated_at : ℕ

-- The table seller_wallets, its next number, and the time.
pub record Wallets : Type 0 where
  pub seller_wallets : List SellerWallet
  pub next_id : ℕ
  pub now : ℕ

abbrev pub is_status : WalletStatus → WalletStatus → Bool
is_status wallet_pending wallet_pending = true
is_status wallet_confirmed wallet_confirmed = true
is_status wallet_superseded wallet_superseded = true
is_status _ _ = false

-- `user_id = $1 AND network = $2 AND asset = $3`
unfoldable pub is_pair : ℕ → Bytes → Bytes → SellerWallet → Bool
is_pair user network asset w =
    w.user_id == user && bytes_eq w.network network && bytes_eq w.asset asset

-- The same, `AND status = ...`
abbrev pub is_pair_in : WalletStatus → ℕ → Bytes → Bytes → SellerWallet → Bool
is_pair_in st user network asset w = is_pair user network asset w && is_status st w.status

-- `SET status = 'superseded', updated_at = now()`
abbrev pub supersede : ℕ → SellerWallet → SellerWallet
supersede now w = record w { status = wallet_superseded; updated_at = now }

abbrev pub pending_wallet : ℕ → ℕ → ℕ → Bytes → Bytes → Bytes → Bytes → SellerWallet
pending_wallet id now user network asset encrypted fingerprint = record {
  id = id;
  user_id = user;
  network = network;
  asset = asset;
  address_encrypted = encrypted;
  address_fingerprint = fingerprint;
  status = wallet_pending;
  confirmed_at = none;
  eligible_at = none;
  created_at = now;
  updated_at = now;
}

-- CreatePendingWallet
unfoldable pub create_pending_wallet : ℕ → Bytes → Bytes → Bytes → Bytes → Wallets → ℕ × Wallets
create_pending_wallet user network asset encrypted fingerprint t = (
  t.next_id,
  record t {
    seller_wallets =
        update_where (is_pair_in wallet_pending user network asset) (supersede t.now)
          t.seller_wallets
        ++ pending_wallet t.next_id t.now user network asset encrypted fingerprint ∷ [];
    next_id = t.next_id + 1;
  },
)

abbrev pub has_wallet_id : ℕ → SellerWallet → Bool
has_wallet_id i w = w.id == i

-- `SET status = 'confirmed', confirmed_at = now(), eligible_at = now() + $2, updated_at = now()`
abbrev pub confirm : ℕ → ℕ → SellerWallet → SellerWallet
confirm now cooldown w = record w {
  status = wallet_confirmed;
  confirmed_at = some now;
  eligible_at = some (now + cooldown);
  updated_at = now;
}

abbrev pub confirm_found :
    ℕ → ℕ → Option SellerWallet → Wallets → Result WalletError (Unit {0}) × Wallets
confirm_found i cooldown none t = (err wallet_not_found, t)
confirm_found i cooldown (some w) t = (
  ok tt,
  record t {
    seller_wallets = update_where (has_wallet_id i) (confirm t.now cooldown) (
        update_where (is_pair_in wallet_confirmed w.user_id w.network w.asset) (supersede t.now)
          t.seller_wallets);
  },
)

-- ConfirmWallet
unfoldable pub confirm_wallet : ℕ → ℕ → Wallets → Result WalletError (Unit {0}) × Wallets
confirm_wallet i cooldown t =
    confirm_found i cooldown
      (find (λ w. has_wallet_id i w && is_status wallet_pending w.status) t.seller_wallets) t

-- IsPayoutEligible
unfoldable pub is_payout_eligible : ℕ → SellerWallet → Bool
is_payout_eligible now w =
    is_status wallet_confirmed w.status && elim w.eligible_at [ none ↦ false | some t ↦ leb t now ]
