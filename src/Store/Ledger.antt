-- ===== src/Store/Ledger.antt =====
-- store/ledger.go: the accounts and the postings, and the only call that writes them.
use gig.Base.{ℕ, ◌+◌, Bool, false, ◌&&◌, Option, none, some, List, [], ◌∷◌, ◌++◌, ◌==◌, find}
use gig.Base.Text.{Bytes, bytes_eq}
use gig.Base.Result.{Result, ok, err}
use gig.Ledger.{AccountKind, Entry, LedgerError, validate}
use gig.Ledger.Net.{kind_code}
use gig.Db.{Db, StoreError, unbalanced_entries, Action, statement, LedgerAccount}

-- `ON CONFLICT (kind, owner_id, currency)`: in a unique constraint NULL equals nothing, so an account
-- of the platform itself, which has no owner, never conflicts.
abbrev pub same_owner : Option ℕ → Option ℕ → Bool
same_owner (some a) (some b) = a == b
same_owner _ _ = false

abbrev pub conflicts : AccountKind → Option ℕ → Bytes → LedgerAccount → Bool
conflicts kind owner currency a =
    kind_code a.kind == kind_code kind
    && same_owner a.owner_id owner
    && bytes_eq a.currency currency

abbrev pub add_account : AccountKind → Option ℕ → Bytes → Option LedgerAccount → Db → ℕ × Db
add_account kind owner currency (some a) db = (a.id, db)
add_account kind owner currency none db = (
  db.next_id,
  record db {
    ledger_accounts =
        db.ledger_accounts
        ++ record { id = db.next_id; kind = kind; owner_id = owner; currency = currency } ∷ [];
    next_id = db.next_id + 1;
  },
)

unfoldable pub get_or_create_ledger_account : AccountKind → Option ℕ → Bytes → Db → ℕ × Db
get_or_create_ledger_account kind owner currency db =
    add_account kind owner currency (find (conflicts kind owner currency) db.ledger_accounts) db

-- One round of the loop of PostLedgerEntries: the account, then the posting.
unfoldable pub post_entry : ℕ → Entry → Db → Db
unfolding get_or_create_ledger_account
post_entry group e db =
    let (account, db') = get_or_create_ledger_account e.account_kind e.owner_id e.currency db in
    record db' {
      ledger_entries =
          db'.ledger_entries
          ++ record {
            id = db'.next_id;
            transaction_group = group;
            account_id = account;
            direction = e.direction;
            amount_minor = e.amount_minor;
            currency = e.currency;
            order_id = e.order_id;
            description = e.description;
          }
            ∷ [];
      next_id = db'.next_id + 1;
    }

unfoldable pub post_entries : ℕ → List Entry → Db → Db
post_entries group [] db = db
post_entries group (e ∷ es) db = post_entries group es (post_entry group e db)

-- `randomUUID` gives a fresh number.
abbrev pub post_validated : Result LedgerError (Unit {0}) → List Entry → Action StoreError ℕ
post_validated (err e) es db = (err unbalanced_entries, db)
post_validated (ok _) es db =
    (ok db.next_id, post_entries db.next_id es (record db { next_id = db.next_id + 1 }))

unfoldable pub post_ledger_entries : List Entry → Action StoreError ℕ
unfolding statement post_entries post_entry validate
post_ledger_entries es = statement λ db. post_validated (validate es) es db
