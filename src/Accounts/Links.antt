-- ===== src/Accounts/Links.antt =====
-- The tokens and the wallets of handlers/wallets.go under the constraint on the kinds of tokens in
-- migrations/0002_identity.sql, request by request.
use gig.Base.{
  ℕ, ◌==◌, Bool, true, false, not, ◌&&◌, Option, none, some, List, String, All, find, Bool-cases,
  ◌≡◌, inl, inr, refl, sym, arith,
}
use gig.Base.Int.{ℤ}
use gig.Base.Rows.{All-find, All-append_one, All-update_where}
use gig.Base.Text.{Bytes, is_empty, trim_space}
use gig.Db.{
  Db, StoreError, Action, pure, guard, statement, User, AuthToken, wallet_confirmation,
  SellerWallet, Payout, Flash,
}
use gig.Db.Keeps.{Keeps, Keeps-statement, keeps_rules}
use gig.Db.Leads.{
  Leads, Leads-Keeps, Leads-bind, Leads-branch, Leads-pure, Leads-raise, Leads-statement, Outcome,
}
use gig.Wallets.{
  is_status, wallet_confirmed, wallet_pending, supersede, is_pair_in, is_payout_eligible,
}
use gig.Store.Orders.{or_not_found, write_audit}
use gig.Store.Sessions.{same_kind, is_live_token, create_auth_token, get_auth_token, set_flash}
use gig.Store.Balances.{get_wallet, add_pending_wallet}
use gig.Handlers.Amounts.{parse_dollars_to_minor}
use gig.Handlers.Checkout.{read_time}
use gig.Handlers.Session.{Crypto, AccountSettings, Visitor, mail_token}
use gig.Handlers.SellerWallets.{
  WalletForm, PayoutForm, refuse, require, positive_amount, own_wallet, queue_payout,
  submit_payout_request, submit_wallet, confirm_wallet_link,
}
use gig.Accounts.Notes.{read_time-Keeps, or_answer-Keeps, audit-Keeps, flash_on-Keeps, refuse-Keeps}

abbrev pub IsNoLink : AuthToken → Type 0
IsNoLink t = same_kind wallet_confirmation t.kind ≡ false

abbrev pub IsUnconfirmed : SellerWallet → Type 0
IsUnconfirmed w = is_status wallet_confirmed w.status ≡ false

-- No token for a wallet, and no wallet that is confirmed.
abbrev pub NoneConfirmed : Db → Type 0
NoneConfirmed db = All IsNoLink db.auth_tokens × All IsUnconfirmed db.seller_wallets

module _ (payouts0 : List Payout) where
  unfoldable pub Holds : Db → Type 0
  Holds db = NoneConfirmed db × (db.payouts ≡ payouts0)

  -- A call that writes none of the three tables.
  quiet :
      {A : Type 0} (f : Action StoreError A)
      → ((db : Db)
          → ((f db).1.auth_tokens ≡ db.auth_tokens)
            × ((f db).1.seller_wallets ≡ db.seller_wallets)
            × ((f db).1.payouts ≡ db.payouts))
      → Keeps Holds (statement f)
  unfolding Holds
  quiet f same =
      Keeps-statement _ (λ d rest h. h)
        (record { at = λ db h. rw ((same db).0, (same db).1, (same db).2) h })

  write_audit-Keeps :
      (actor : Option ℕ) (action : String) (i : ℕ) → Keeps Holds (write_audit actor action i)
  unfolding write_audit
  write_audit-Keeps actor action i = quiet _ (λ db. (refl, refl, refl))

  set_flash-Keeps : (i : ℕ) (f : Option Flash) → Keeps Holds (set_flash i f)
  unfolding set_flash
  set_flash-Keeps i f = quiet _ (λ db. (refl, refl, refl))

  -- The INSERT of a token for a wallet is refused.
  create_auth_token-Keeps :
      (user : ℕ) (hash : Bytes) (ttl : ℕ)
      → Keeps Holds (create_auth_token user wallet_confirmation hash ttl)
  unfolding create_auth_token
  create_auth_token-Keeps user hash ttl = quiet _ (λ db. (refl, refl, refl))

  add_pending_wallet-Keeps :
      (user : ℕ) (network asset encrypted fingerprint : Bytes)
      → Keeps Holds (add_pending_wallet user network asset encrypted fingerprint)
  unfolding add_pending_wallet Holds
  add_pending_wallet-Keeps user network asset encrypted fingerprint =
      Keeps-statement _ (λ d rest h. h)
        (record {
          at = λ db h. (
            (
              h.0.0,
              All-append_one IsUnconfirmed _ _
                  (All-update_where IsUnconfirmed _ (supersede db.now) db.seller_wallets
                    (λ w e k. refl) h.0.1)
                  refl,
            ),
            h.1,
          );
        })

  require-Keeps : (v : Visitor) (b : Bool) (text : String) → Keeps Holds (require v b text)
  require-Keeps v true text = search keeps_rules
  require-Keeps v false text = refuse-Keeps Holds set_flash-Keeps v text

  positive_amount-Keeps : (v : Visitor) (o : Option ℤ) → Keeps Holds (positive_amount v o)
  positive_amount-Keeps v none = refuse-Keeps Holds set_flash-Keeps v _
  positive_amount-Keeps v (some amount) =
      search (keeps_rules, refuse-Keeps Holds set_flash-Keeps) depth 30

  -- Every action that ends in an error may promise anything of its value.
  refused :
      {A : Type 0} {Q : A → Db → Type 0} (v : Visitor) (text : String)
      → Leads Holds Q Holds (refuse v text)
  refused {Q = Q} v text =
      Leads-bind {Q = λ _. Holds} {Q' = Q} _ _
        (Leads-Keeps _ (λ d h. h) (flash_on-Keeps Holds set_flash-Keeps v.session _ _))
        (λ _. Leads-raise _)

  token_read :
      (hash : Bytes) (o : Option AuthToken) (db : Db)
      → o ≡ find (is_live_token wallet_confirmation hash db.now) db.auth_tokens
      → Holds db
      → Outcome (λ t d. ⊥) Holds (or_not_found o db).0 (or_not_found o db).1
  unfolding Holds
  token_read hash none db e h = h
  token_read hash (some t) db e h =
      let (link, live) =
        All-find IsNoLink (is_live_token wallet_confirmation hash db.now) db.auth_tokens t h.0.0
          (sym e) in
      ground (arith, link, live)

  -- There is no token to find.
  get_auth_token-Leads :
      (hash : Bytes) → Leads Holds (λ _ _. ⊥) Holds (get_auth_token wallet_confirmation hash)
  unfolding get_auth_token Holds
  get_auth_token-Leads hash =
      Leads-statement _ (λ d rest h. h) (λ d h. h)
        (record { at = λ db h. token_read hash _ db refl h })

  wallet_read :
      (i : ℕ) (o : Option SellerWallet) (db : Db)
      → o ≡ find (gig.Wallets.has_wallet_id i) db.seller_wallets
      → Holds db
      → Outcome (λ w d. Holds d × IsUnconfirmed w) Holds (or_not_found o db).0 (or_not_found o db).1
  unfolding Holds
  wallet_read i none db e h = h
  wallet_read i (some w) db e h =
      (h, (All-find IsUnconfirmed _ db.seller_wallets w h.0.1 (sym e)).0)

  get_wallet-Leads : (i : ℕ) → Leads Holds (λ w d. Holds d × IsUnconfirmed w) Holds (get_wallet i)
  unfolding get_wallet Holds
  get_wallet-Leads i =
      Leads-statement _ (λ d rest h. h) (λ d h. h)
        (record { at = λ db h. wallet_read i _ db refl h })

  own_wallet-Leads :
      (v : Visitor) (x : User) (i : ℕ)
      → Leads Holds (λ w d. Holds d × IsUnconfirmed w) Holds (own_wallet v x i)
  unfolding own_wallet
  own_wallet-Leads v x i =
      Leads-branch (get_wallet i) _ _ (get_wallet-Leads i)
        (λ w. elim (Bool-cases (w.user_id == x.id)) [
          | inl own ↦ rw own (Leads-pure w (λ d h. h))
          | inr other ↦
              rw other (record {
                at = λ db h. (refused v "That wallet is not on your account.").at db h.0;
              })
        ])
        (λ e. refused v "That wallet is not on your account.")

  not_eligible : (now : ℕ) (w : SellerWallet) → IsUnconfirmed w → is_payout_eligible now w ≡ false
  unfolding is_payout_eligible
  not_eligible now w h = rw h refl

  blocked :
      (v : Visitor) (b : Bool) (text : String)
      → b ≡ false
      → Leads Holds (λ _ _. ⊥) Holds (require v b text)
  blocked v true text e = cc
  blocked v false text e = refused v text

  queue_payout-Leads :
      (v : Visitor) (x : User) (w : SellerWallet) (i : ℕ) (amount : ℤ)
      → IsUnconfirmed w
      → Leads Holds (λ _ _. ⊥) Holds (queue_payout v x w i amount)
  unfolding queue_payout
  queue_payout-Leads v x w i amount h =
      Leads-bind read_time _ (Leads-Keeps read_time (λ d k. k) (read_time-Keeps Holds)) λ now.
        Leads-bind {Q = λ _ _. ⊥} _ _
          (blocked v (is_payout_eligible now w)
            "That wallet is not confirmed and past its cooling-off period yet."
            (not_eligible now w h))
          λ _. record { at = λ db h. absurd h }

  -- A request for a payout is refused.
  pub submit_payout_request-Leads :
      (enabled : Bool) (v : Visitor) (x : User) (form : Option PayoutForm)
      → Leads Holds (λ _ _. ⊥) Holds (submit_payout_request enabled v x form)
  unfolding submit_payout_request
  submit_payout_request-Leads enabled v x form =
      Leads-bind _ _ (Leads-Keeps (guard enabled _) (λ d k. k) (search keeps_rules)) λ _.
        Leads-bind _ _ (Leads-Keeps _ (λ d k. k) (or_answer-Keeps Holds form _)) λ f.
          Leads-bind _ _
            (Leads-Keeps _ (λ d k. k) (positive_amount-Keeps v (parse_dollars_to_minor f.amount)))
            λ amount. Leads-bind _ _ (own_wallet-Leads v x f.wallet_id) λ w. record {
              at = λ db h. (queue_payout-Leads v x w f.wallet_id amount h.1).at db h.0;
            }

  module _ (c : Crypto) (cfg : AccountSettings) (v : Visitor) (x : User) where
    mail_token-Leads :
        (raw : Option Bytes) (i : ℕ) → Keeps Holds (mail_token c cfg raw i wallet_confirmation)
    mail_token-Leads none i = search keeps_rules
    mail_token-Leads (some raw) i = create_auth_token-Keeps i _ _

    pub submit_wallet-Keeps :
        (encrypt : Option (Bytes → Option Bytes)) (form : Option WalletForm)
        → Keeps Holds (submit_wallet c cfg encrypt v x form)
    unfolding submit_wallet
    submit_wallet-Keeps encrypt form =
        search
          (
            keeps_rules,
            or_answer-Keeps Holds,
            require-Keeps,
            add_pending_wallet-Keeps,
            mail_token-Leads,
            audit-Keeps Holds,
            write_audit-Keeps,
            flash_on-Keeps Holds set_flash-Keeps,
          )
          depth 40 fits 8000

    -- A link is refused.
    pub confirm_wallet_link-Leads :
        (text : Bytes) (i : ℕ) → Leads Holds (λ _ _. ⊥) Holds (confirm_wallet_link c cfg v x text i)
    unfolding confirm_wallet_link
    confirm_wallet_link-Leads text i =
        Leads-bind _ _
          (Leads-Keeps
            (require v (not (is_empty (trim_space text)) && not (i == 0))
              "That confirmation link is invalid.")
            (λ d k. k) (require-Keeps v _ _))
          λ _.
            Leads-bind {Q = λ _ _. ⊥} _ _
              (Leads-branch (get_auth_token wallet_confirmation (c.sha256_hex (trim_space text)))
                pure _ (get_auth_token-Leads _) (λ t. Leads-pure t (λ d h. h))
                (λ e. refused v "That confirmation link is invalid or expired."))
              λ t. record { at = λ db h. absurd h }
