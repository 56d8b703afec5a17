-- ===== src/Db.antt =====
-- The PostgreSQL tables of migrations/ as lists of rows in insertion order, and a store call of
-- store/*.go as an action on them. The database itself is not code of the program: what a call does
-- is read off its SQL text, and whether a call fails is the environment's choice, `faults`: one
-- answer for each call that is made, and no fault once the list is used up. A failing call changes
-- nothing, since each one is a single statement or a transaction. `next_id` numbers the rows of all
-- tables, and `now` is the clock of the request at hand.
mod Rows
mod Identity
pub mod Keeps
pub mod Table
pub mod Leads
pub use Rows.*
pub use Identity.*
use gig.Base.{ℕ, ◌+◌, Bool, true, false, List, [], ◌∷◌, String}
use gig.Base.Result.{Result, ok, err}
pub use gig.Wallets.{SellerWallet}

pub record Db : Type 0 where
  pub orders : List Order
  pub order_items : List OrderItem
  pub draft_orders : List ℕ
  pub deliveries : List Delivery
  pub revision_requests : List RevisionRequest
  pub cancellation_requests : List CancellationRequest
  pub disputes : List Dispute
  pub reviews : List Review
  pub order_attachments : List OrderAttachment
  pub order_messages : List OrderMessage
  pub payment_intents : List PaymentIntent
  pub payment_attempts : List PaymentAttempt
  pub webhook_events : List WebhookEvent
  pub refunds : List Refund
  pub seller_onboarding : List SellerOnboarding
  pub ledger_accounts : List LedgerAccount
  pub ledger_entries : List LedgerEntry
  pub payouts : List Payout
  pub payouts_paused : Bool
  pub jobs : List Job
  pub notifications : List Notification
  pub audit_log : List AuditEntry
  pub users : List User
  pub user_roles : List UserRole
  pub sessions : List Session
  pub auth_tokens : List AuthToken
  pub seller_wallets : List SellerWallet
  pub next_id : ℕ
  pub now : ℕ
  pub faults : List Bool

-- The errors that the store's callers tell apart; `failed` is any other error of the database.
pub data StoreError : Type 0 where
  not_found revision_limit_reached duplicate_idempotency_key duplicate : StoreError
  already_reviewed email_taken no_job not_claimed unbalanced_entries failed : StoreError

abbrev pub Action : Type 0 → Type 0 → Type 0
Action E A = Db → Result E A × Db

unfoldable pub pure : {E A : Type 0} → A → Action E A
pure a db = (ok a, db)

unfoldable pub raise : {E A : Type 0} → E → Action E A
raise e db = (err e, db)

-- `if !cond { return e }`
unfoldable pub guard : {E : Type 0} → Bool → E → Action E (Unit {0})
guard true e db = (ok tt, db)
guard false e db = (err e, db)

abbrev pub continue :
    {E F A B : Type 0} → Result E A → (A → Action F B) → (E → Action F B) → Action F B
continue (ok a) f g = f a
continue (err e) f g = g e

-- Run a call, and go on by its value or by its error.
unfoldable pub branch :
    {E F A B : Type 0} → Action E A → (A → Action F B) → (E → Action F B) → Action F B
branch m f g db = let (r, db') = m db in continue r f g db'

-- `if err != nil { return handle(err) }`
unfoldable pub catch : {E F A : Type 0} → Action E A → (E → F) → Action F A
unfolding branch pure raise
catch m handle = branch m pure (λ e. raise (handle e))

-- A call whose error is only logged.
unfoldable pub ignore : {E F A : Type 0} → Action E A → Action F (Unit {0})
unfolding branch pure
ignore m = branch m (λ _. pure tt) (λ _. pure tt)

infixl 5 ◌>>=◌ ◌>>◌
-- Opening this opens the other combinators too.
unfoldable pub ◌>>=◌ : {E A B : Type 0} → Action E A → (A → Action E B) → Action E B
unfolding branch pure raise guard catch ignore
m >>= f = branch m f raise

abbrev pub ◌>>◌ : {E B : Type 0} → Action E (Unit {0}) → Action E B → Action E B
m >> k = m >>= λ _. k

-- One call of the database: under a fault it returns an error and changes nothing.
abbrev pub with_faults : {A : Type 0} → List Bool → Action StoreError A → Action StoreError A
with_faults [] f db = f db
with_faults (true ∷ rest) f db = (err failed, record db { faults = rest })
with_faults (false ∷ rest) f db = f (record db { faults = rest })

unfoldable pub statement : {A : Type 0} → Action StoreError A → Action StoreError A
statement f db = with_faults db.faults f db

-- `for _, x := range xs { ... }`
unfoldable pub for_each : {E A : Type 0} → List A → (A → Action E (Unit {0})) → Action E (Unit {0})
for_each [] f = pure tt
for_each (x ∷ xs) f = f x >> for_each xs f
