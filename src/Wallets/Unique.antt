-- ===== src/Wallets/Unique.antt =====
-- What CreatePendingWallet and ConfirmWallet of store/wallets.go keep: for each user, network and asset
-- at most one pending wallet and at most one confirmed wallet.
use gig.Base.{
  All-imp, ℕ, ◌+◌, ◌<◌, Bool, true, false, ◌&&◌, List, some, All, find, count_where, update_where,
  and_split, ◌==◌, ==_iff, ==_refl, Bool-cases, Option-cases, ◌≡◌, refl, ◌∙◌, arith, inl, inr,
}
use mathlib.Core.Path.{subst}
use gig.Base.Text.{Bytes, bytes_eq_iff}
use gig.Wallets.{
  SellerWallet, Wallets, wallet_pending, wallet_confirmed, is_status, is_pair, is_pair_in,
  supersede, pending_wallet, create_pending_wallet, has_wallet_id, confirm, confirm_found,
  confirm_wallet,
}
use gig.Wallets.Counts.{
  count-update_fewer, count-update_sum, count-update_same, update-All, All-intro, find_only,
}
use gig.Wallets.Rows.{
  AtMostOne, and_false, supersede_fewer, AtMostOne-append, All-append-last, fresh_id, other_pair,
  supersede_named, own_pair,
}

pub record IsUnique (t : Wallets) : Type 0 where
  pub one_pending :
      (user : ℕ) (network asset : Bytes)
      → AtMostOne (is_pair_in wallet_pending user network asset) t.seller_wallets
  pub one_confirmed :
      (user : ℕ) (network asset : Bytes)
      → AtMostOne (is_pair_in wallet_confirmed user network asset) t.seller_wallets
  pub one_id : (i : ℕ) → AtMostOne (has_wallet_id i) t.seller_wallets
  pub used : All (λ w. w.id < t.next_id) t.seller_wallets

-- CreatePendingWallet keeps it, whatever the user asks for.
pub create_pending_wallet-IsUnique :
    (user : ℕ) (network asset encrypted fingerprint : Bytes) (t : Wallets)
    → IsUnique t
    → IsUnique (create_pending_wallet user network asset encrypted fingerprint t).1
unfolding create_pending_wallet
create_pending_wallet-IsUnique user network asset encrypted fingerprint t h =
    let new = pending_wallet t.next_id t.now user network asset encrypted fingerprint in
    let mine = is_pair_in wallet_pending user network asset in
    let rows = update_where mine (supersede t.now) t.seller_wallets in
    record {
      one_pending = λ u n a.
          AtMostOne-append (is_pair_in wallet_pending u n a) rows new
            (elim (Bool-cases (is_pair u n a new)) [
              | inl e ↦ inl (
                  supersede_named wallet_pending user u network n asset a t.now t.seller_wallets
                    refl
                    (other_pair user u network n asset a new
                      (own_pair t.next_id t.now user network asset encrypted fingerprint) e))
              | inr e ↦ inr (
                rw e refl,
                supersede_fewer wallet_pending u n a t.now mine t.seller_wallets refl
                    (h.one_pending u n a),
              )
            ]);
      one_confirmed = λ u n a. AtMostOne-append (is_pair_in wallet_confirmed u n a) rows new (
          inr (
            and_false _,
            supersede_fewer wallet_confirmed u n a t.now mine t.seller_wallets refl
                (h.one_confirmed u n a),
          ));
      one_id = λ i. AtMostOne-append (has_wallet_id i) rows new (
          let same =
            count-update_same mine (has_wallet_id i) (supersede t.now) t.seller_wallets
              (λ w. refl) in
          elim (Bool-cases (t.next_id == i)) [
            | inl e ↦ inl (
                same
                ∙ fresh_id i t.seller_wallets
                    (subst (λ k. All (λ w. w.id < k) t.seller_wallets) ((==_iff _ _).0 e) h.used))
            | inr e ↦ inr (e, omega (arith, same, h.one_id i))
          ]);
      used =
          All-append-last (λ w. w.id < t.next_id + 1) rows new
            (All-imp rows (λ w p. omega arith)
              (update-All (λ w. w.id < t.next_id) mine (supersede t.now) t.seller_wallets (λ w p. p)
                h.used))
            (omega arith);
    }

self_pair : (w : SellerWallet) → is_pair w.user_id w.network w.asset w ≡ true
unfolding is_pair
self_pair w =
    rw
      (
        ==_refl w.user_id,
        (bytes_eq_iff w.network w.network).1 refl,
        (bytes_eq_iff w.asset w.asset).1 refl,
      )
      refl

-- Confirming the one wallet of a number does not confirm a wallet of another pair.
confirm_other :
    (i user now now' cooldown : ℕ) (network asset : Bytes) (w : SellerWallet)
    (p : SellerWallet → Bool) (rows : List SellerWallet)
    → All (λ v. has_wallet_id i v ≡ true → v ≡ w) rows
    → is_pair user network asset w ≡ false
    → All
        (λ v.
          has_wallet_id i v ≡ true
          → is_pair_in wallet_confirmed user network asset (confirm now cooldown v) ≡ false)
        (update_where p (supersede now') rows)
unfolding is_pair
confirm_other i user now now' cooldown network asset w p rows only e =
    update-All _ p (supersede now') rows (λ v h. h)
      (All-imp rows (λ v same h. rw (same h, e) refl) only)

module _ (i cooldown : ℕ) (t : Wallets) (w : SellerWallet) where
  old : List SellerWallet
  old =
      update_where (is_pair_in wallet_confirmed w.user_id w.network w.asset) (supersede t.now)
        t.seller_wallets

  old_ids :
      (k : ℕ) → count_where (has_wallet_id k) old ≡ count_where (has_wallet_id k) t.seller_wallets
  unfolding old
  old_ids k =
      count-update_same (is_pair_in wallet_confirmed w.user_id w.network w.asset) (has_wallet_id k)
        (supersede t.now) t.seller_wallets (λ v. refl)

  one_confirmed_after :
      (u : ℕ) (n a : Bytes)
      → IsUnique t
      → All (λ v. has_wallet_id i v ≡ true → v ≡ w) t.seller_wallets
      → AtMostOne
          (is_pair_in wallet_confirmed u n a)
          (update_where (has_wallet_id i) (confirm t.now cooldown) old)
  unfolding old
  one_confirmed_after u n a h only = elim (Bool-cases (is_pair u n a w)) [
    | inl e ↦ omega (
      arith,
      supersede_named wallet_confirmed w.user_id u w.network n w.asset a t.now t.seller_wallets refl
          (other_pair w.user_id u w.network n w.asset a w (self_pair w) e),
      count-update_sum (has_wallet_id i) (is_pair_in wallet_confirmed u n a)
          (confirm t.now cooldown) old,
      old_ids i,
      h.one_id i,
    )
    | inr e ↦ omega (
      arith,
      count-update_fewer (has_wallet_id i) (is_pair_in wallet_confirmed u n a)
          (confirm t.now cooldown) old
          (confirm_other i u t.now t.now cooldown n a w
            (is_pair_in wallet_confirmed w.user_id w.network w.asset) t.seller_wallets only e),
      supersede_fewer wallet_confirmed u n a t.now
          (is_pair_in wallet_confirmed w.user_id w.network w.asset) t.seller_wallets refl
          (h.one_confirmed u n a),
    )
  ]

  confirm_found-IsUnique :
      IsUnique t
      → All (λ v. has_wallet_id i v ≡ true → v ≡ w) t.seller_wallets
      → IsUnique (confirm_found i cooldown (some w) t).1
  unfolding old
  confirm_found-IsUnique h only = record {
    one_pending = λ u n a. omega (
      arith,
      count-update_fewer (has_wallet_id i) (is_pair_in wallet_pending u n a)
          (confirm t.now cooldown) old (All-intro _ old (λ v q. and_false _)),
      supersede_fewer wallet_pending u n a t.now
          (is_pair_in wallet_confirmed w.user_id w.network w.asset) t.seller_wallets refl
          (h.one_pending u n a),
    );
    one_confirmed = λ u n a. one_confirmed_after u n a h only;
    one_id = λ k. omega (
      arith,
      count-update_same (has_wallet_id i) (has_wallet_id k) (confirm t.now cooldown) old
          (λ v. refl),
      old_ids k,
      h.one_id k,
    );
    used =
        update-All _ (has_wallet_id i) (confirm t.now cooldown) old (λ v p. p)
          (update-All _ (is_pair_in wallet_confirmed w.user_id w.network w.asset) (supersede t.now)
            t.seller_wallets (λ v p. p) h.used);
  }

-- At most one pending and at most one confirmed wallet for each user, network and asset, with numbers
-- that are unique and below the next one: CreatePendingWallet and ConfirmWallet keep this, whatever
-- they are called with.
pub wallets-IsUnique :
    (user i cooldown : ℕ) (network asset encrypted fingerprint : Bytes) (t : Wallets)
    → IsUnique t
    → IsUnique (create_pending_wallet user network asset encrypted fingerprint t).1
      × IsUnique (confirm_wallet i cooldown t).1
unfolding confirm_wallet
wallets-IsUnique user i cooldown network asset encrypted fingerprint t h =
    let pending = λ (w : SellerWallet). has_wallet_id i w && is_status wallet_pending w.status in
    (
      create_pending_wallet-IsUnique user network asset encrypted fingerprint t h,
      elim (Option-cases (find pending t.seller_wallets)) [
        | inl e ↦ rw e h
        | inr (w, e) ↦
            let (only, _) =
              find_only pending (has_wallet_id i) w t.seller_wallets (λ v p. (and_split _ _ p).0) e
                (h.one_id i) in
            rw e (confirm_found-IsUnique i cooldown t w h only)
      ],
    )
