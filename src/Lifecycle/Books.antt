-- ===== src/Lifecycle/Books.antt =====
-- What any sequence of requests and jobs keeps of the ledger's postings.
use gig.Base.{
  ℕ, ◌≡◌, refl, ap, sym, ◌∙◌, Option, none, some, List, [], ◌∷◌, ◌++◌, All, if◌then◌else◌,
}
use gig.Base.Int.{ℤ, pos, ◌+ℤ◌, ◌<ℤ◌, wrap64, wrap64-+ℤ, int_laws}
use gig.Base.Text.{Bytes, bytes_eq}
use gig.Base.Result.{ok}
use gig.Ledger.{AccountKind, Entry, validate}
use gig.Ledger.Net.{signed_amount, net, IsKnown, IsPostable}
use gig.Ledger.Validate.{validate_iff}
use gig.Db.{Db, LedgerAccount, LedgerEntry}
use gig.Store.Ledger.{add_account, post_entry, post_entries}
use gig.Lifecycle.Effects.{CallRules}
use gig.Lifecycle.Requests.{Turn, serve_all, serve_all-Keeps}

-- Credits less debits of a currency.
abbrev pub book_net : Bytes → List LedgerEntry → ℤ
book_net c [] = pos 0
book_net c (e ∷ es) =
    (if bytes_eq c e.currency then signed_amount e.direction e.amount_minor else pos 0)
    +ℤ book_net c es

abbrev pub IsPosting : LedgerEntry → Type 0
IsPosting e = (pos 0 <ℤ e.amount_minor) × IsKnown e.direction

-- Balanced books: each currency nets to zero as an int64, and every posting is a debit or a credit of
-- a positive amount.
abbrev pub InBalance : Db → Type 0
InBalance db =
    ((c : Bytes) → wrap64 (book_net c db.ledger_entries) ≡ pos 0) × All IsPosting db.ledger_entries

book_net-append :
    (c : Bytes) (xs ys : List LedgerEntry) → book_net c (xs ++ ys) ≡ book_net c xs +ℤ book_net c ys
book_net-append c [] ys = omega int_laws
book_net-append c (x ∷ xs) ys = rw (book_net-append c xs ys) (omega int_laws)

All-append :
    (xs : List LedgerEntry) (y : LedgerEntry)
    → All IsPosting xs
    → IsPosting y
    → All IsPosting (xs ++ y ∷ [])
All-append [] y h k = (k, tt)
All-append (x ∷ xs) y h k = (h.0, All-append xs y h.1 k)

add_account-entries :
    (kind : AccountKind) (owner : Option ℕ) (currency : Bytes) (a : Option LedgerAccount) (db : Db)
    → (add_account kind owner currency a db).1.ledger_entries ≡ db.ledger_entries
add_account-entries kind owner currency none db = refl
add_account-entries kind owner currency (some a) db = refl

post_entry-net :
    (c : Bytes) (group : ℕ) (e : Entry) (db : Db)
    → book_net c (post_entry group e db).ledger_entries
      ≡ book_net c db.ledger_entries +ℤ net c (e ∷ [])
unfolding post_entry
post_entry-net c group e db = rw (book_net-append, add_account-entries) refl

post_entries-net :
    (c : Bytes) (group : ℕ) (es : List Entry) (db : Db)
    → book_net c (post_entries group es db).ledger_entries
      ≡ book_net c db.ledger_entries +ℤ net c es
unfolding post_entries
post_entries-net c group [] db = omega int_laws
post_entries-net c group (e ∷ es) db =
    rw (post_entries-net c group es (post_entry group e db), post_entry-net c group e db)
      (omega int_laws)

post_entry-All :
    (group : ℕ) (e : Entry) (db : Db)
    → IsPostable e
    → All IsPosting db.ledger_entries
    → All IsPosting (post_entry group e db).ledger_entries
unfolding post_entry
post_entry-All group e db p h =
    All-append _ _ (rw (add_account-entries e.account_kind e.owner_id e.currency _ db) h) p

post_entries-All :
    (group : ℕ) (es : List Entry) (db : Db)
    → All IsPostable es
    → All IsPosting db.ledger_entries
    → All IsPosting (post_entries group es db).ledger_entries
unfolding post_entries
post_entries-All group [] db p h = h
post_entries-All group (e ∷ es) db p h =
    post_entries-All group es (post_entry group e db) p.1 (post_entry-All group e db p.0 h)

zero_sum : (x y : ℤ) → wrap64 x ≡ pos 0 → wrap64 y ≡ pos 0 → wrap64 (x +ℤ y) ≡ pos 0
zero_sum x y hx hy =
    let gone : pos 0 +ℤ y ≡ y = omega int_laws in
    sym (wrap64-+ℤ x y) ∙ ap (λ z. wrap64 (z +ℤ y)) hx ∙ ap wrap64 gone ∙ hy

posted-InBalance :
    (db : Db) (group : ℕ) (es : List Entry)
    → validate es ≡ ok tt
    → InBalance db
    → InBalance (post_entries group es db)
posted-InBalance db group es valid h =
    let (all, postable, zero) = (validate_iff es).0 valid in
    (
      λ c. rw (post_entries-net c group es db) (zero_sum _ _ (h.0 c) (zero c)),
      post_entries-All group es db postable h.1,
    )

books_rules : CallRules InBalance
books_rules = record {
  same = λ d e eq h. let rows : e.ledger_entries ≡ d.ledger_entries = ap (λ p. p.1) eq in rw rows h;
  move = λ d k from to allowed h. h;
  revise = λ d k o e left h. h;
  overdue = λ d cutoff h. h;
  place = λ d o new h. h;
  post = posted-InBalance;
}

-- If the books are in balance, they are so after any sequence of requests and jobs, at any times and
-- under any faults of the database: in each currency the credits less the debits of all postings are
-- zero as an int64, and every posting is a debit or a credit of a positive amount.
pub serve_all-InBalance : (ts : List Turn) (db : Db) → InBalance db → InBalance (serve_all ts db)
serve_all-InBalance ts db h = serve_all-Keeps books_rules (λ d now faults q. q) ts db h
