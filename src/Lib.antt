-- ===== src/Lib.antt =====
-- A freelance marketplace: a buyer confirms a checkout, pays through a provider, the seller delivers,
-- the buyer accepts, and either party may cancel or open a dispute; the seller then requests a payout.
-- This library models the part of the program that moves orders and money, and who may act in it:
-- accounts, sessions and roles.
--
-- Base: shared notation, the integers of Go with the wrap-around of int64, texts as bytes.
-- Ledger: ledger/ledger.go. Entry is the struct; payment_captured, earnings_released, refund_issued
--   and manual_adjustment are the postings, validate is Validate. Ledger.Net says independently what
--   entries add to a currency and to an account.
-- Status: the transition tables of services/orders.go and services/payments.go, and the totals of a
--   checkout. Status.Life draws the life cycle of an order as a relation.
-- Db: the tables of migrations/ as lists of rows, and the calls on them. Every call of store/*.go that
--   changes a table is one statement or one transaction, so a call that fails changes nothing. Which
--   calls fail is given from outside: `faults` has one answer for each call, and no fault after them.
-- Store: the calls themselves, by the files of store/: Store.Orders, Store.Fulfillment (deliveries,
--   revisions, cancellations, disputes, reviews), Store.Ledger, Store.Jobs, Store.Payments, Store.Webhooks
--   and Store.Refunds (all of store/payments.go), Store.Payouts,
--   Store.Balances (what a request for a payout reads), Store.Users and Store.Sessions (store/sessions.go
--   and store/auth_tokens.go). Db.Identity has the rows of accounts, sessions and tokens.
-- Providers: the interface of providers/provider.go. A provider is a record of functions with any
--   answers, so what is said of the handlers holds whatever a provider answers.
-- Handlers: the handlers of handlers/orders.go, handlers/checkout.go, handlers/fraud.go and
--   handlers/payments.go, and adminLedgerAdjust of handlers/admin.go, from the signed-in user and the
--   parsed form to the answer. They are all the handlers that write an order or a posting.
-- Worker: the jobs of orders.go and payments.go; Worker.Gap follows a capture whose posting fails.
--   Worker.Loop is jobs.go: a claim, and what process does with the job;
--   Worker.Round is one round with a job that fails, and Worker.Dead such rounds one after the other.
-- Lifecycle: what all of these keep. Lifecycle.Effects is the interface: an invariant with its
--   `CallRules`. Lifecycle.Calls and PaymentCalls, Lifecycle.Handlers and Lifecycle.Worker carry it
--   through every call, handler and job, and Lifecycle.Requests through any sequence of them.
--   Lifecycle.Rule fills the interface in for what is true of one order's row, which
--   Lifecycle.Orders uses, and Lifecycle.Books for the postings of the ledger.
-- Qr: services/qrcode.go, from the payload to the matrix of modules. Qr.Bits is the choice of the
--   version and the bit stream, Qr.ReedSolomon the tables of GF(256) and the error correction,
--   Qr.Matrix the patterns, Qr.Mask the placing and the masks, Qr.Penalty the score, and Qr.Encode
--   encodeQRMatrix. Its loops run as many rounds as the Go loops; the three that stop on a condition
--   get eight rounds for the alignment, one a codeword for the padding, and one a column for the placing.
--   Qr.Length and Qr.Fuel are about these rounds. Qr.Tables, Qr.Field and Qr.Codewords are about products
--   and values of polynomials over GF(256).
-- Limits: services/ratelimit.go. Totp: services/totp.go, with HMAC and base32 as parameters.
-- Store.Payouts, Handlers.Payouts and Lifecycle.Payouts: the payouts of store/wallets.go and the
--   administrators' requests on them in handlers/payments.go, which write neither orders nor postings.
-- Wallets: the wallets of store/wallets.go, on their table alone, which is Db's seller_wallets;
--   Wallets.Counts counts the rows of a table after an UPDATE. Store.Balances makes calls of them.
-- Passwords: services/passwords.go, with argon2 and base64 as parameters.
-- Handlers.Session: handlers/session.go and handlers/middleware.go, who makes a request and whether it
--   may go on. Handlers.Auth, Handlers.Emails and Handlers.Recovery: handlers/auth.go. Handlers.Account:
--   handlers/account.go, the suspension of a user in handlers/admin.go, and the clean-up of
--   maintenance.go. Handlers.SellerWallets and Handlers.Amounts: handlers/wallets.go.
-- Accounts: these requests as handlers/server.go routes them, and sequences of them. For the sessions of
--   one user, Accounts.Sessions has the calls, Quiet and WalletRequests the handlers that sign nobody
--   else in, Registration a new user, Visitors the session of a request, Passing, Checks and Login a
--   login, and SignedOut any requests, by the rules of Db.Leads (a condition before a call, one on what
--   it returns, one after an error). Accounts.Links and Unconfirmed are about the links that confirm
--   wallets; Available, Promise, Untouched, Reads, Overdraw and Freed about the balance that may be paid
--   out; Notes about what all of these write beside.
--
-- Requests run one after the other: a request that runs between two calls of another is not part of
-- the model, except that a call may fail. Times are numbers of seconds. Outside Qr, loops are over
-- lists, so no fuel is needed. Row numbers come from one counter for all tables.
--
-- Random tokens and salts, and the limiter's answer to a request, come with the request. What a handler
-- of orders tells its user by a flash message is its answer, which Handlers.Answers puts into the session
-- (a message of success is left out); the handlers of accounts and wallets put it there themselves.
--
-- Not modelled: the pages that only read, the catalogue, the profiles of buyers and sellers, the other
-- pages of administrators, the adapters of the providers with their HTTP calls and signatures, the
-- storage of files, mail, AES-GCM (encryption is a parameter), the headers of an answer, the SVG text of
-- a QR code, the ticker and goroutines of the worker, and the text of messages. The gig and the draft of
-- a checkout are given as they were read. fmt.Sprintf, which writes idempotency keys, SHA-256, HMAC and
-- base32 are parameters.
pub mod Base
pub mod Ledger
pub mod Status
pub mod Db
pub mod Store
pub mod Providers
pub mod Handlers
pub mod Worker
pub mod Lifecycle
pub mod Qr
pub mod Limits
pub mod Totp
pub mod Passwords
pub mod Wallets
pub mod Accounts
