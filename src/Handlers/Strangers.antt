-- ===== src/Handlers/Strangers.antt =====
-- Who may act on an order: loadOrderAccess stands at the start of each order handler.
use gig.Base.{
  update_where, ℕ, ◌≡◌, refl, inl, inr, ◌⊎◌, Bool, true, false, Option, none, some, List, [], ◌∷◌,
  ◌==◌, find,
}
use gig.Base.Text.{Bytes}
use gig.Base.Result.{Result, ok, err}
use gig.Db.{
  Db, Order, Session, StoreError, not_found, failed, with_faults, continue, branch, ignore, pure,
  statement, ◌>>=◌, admin_role,
}
use gig.Store.Orders.{or_not_found, get_order, has_id, user_has_role, has_role}
use gig.Handlers.Response.{Response, page_not_found, server_error, Handler}
use gig.Store.Sessions.{has_session_id, old_flash, consume_flash}
use gig.Handlers.Answers.{render, answer, respond}
use gig.Handlers.Access.{missing_or_error, load_order_access}
use gig.Handlers.Orders.{
  Upload, order_message_create, order_deliver, order_revise, order_accept, order_cancel_request,
  Decision, order_cancel_resolve, order_review_create,
}
use gig.Handlers.Disputes.{order_dispute_open, order_dispute_resolve, Outcome}

-- A user who is neither the buyer nor the seller of the order that the path names, and no admin.
abbrev pub IsStranger : ℕ → Option ℕ → Db → Type 0
IsStranger user none db = Unit
IsStranger user (some i) db =
    (has_role user admin_role db.user_roles ≡ false)
    × ((o : Order)
        → find (has_id i) db.orders ≡ some o
        → ((o.buyer_id == user) ≡ false) × ((o.seller_id == user) ≡ false))

-- A 404 or a 500.
abbrev pub IsErrorPage : Response → Type 0
IsErrorPage r = (r ≡ page_not_found) ⊎ (r ≡ server_error)

-- The handler ends with an error page, and no table changes until then.
abbrev IsStopped : {A : Type 0} → Handler A → Db → Type 0
IsStopped m db =
    (r : Response) × (rest : List Bool) × (m db ≡ (err r, record db { faults = rest }))
    × IsErrorPage r

-- The same sessions, but for the flash of the session that makes the request, which may be cleared.
abbrev pub IsSameButFlash : Option Session → List Session → List Session → Type 0
IsSameButFlash none before after = after ≡ before
IsSameButFlash (some s) before after =
    (after ≡ before)
    ⊎ (after ≡ update_where (has_session_id s.id) (λ k. record k { flash = none }) before)

-- The answer is an error page. No table changes, but for the flash of the session.
abbrev pub IsRefused : {A : Type 0} → Option Session → Handler A → Db → Type 0
IsRefused session m db =
    (r : Response) × (rest : List Bool) × (sessions : List Session) × (respond session m db
      ≡ (err r, record db { faults = rest; sessions = sessions }))
    × IsErrorPage r
    × IsSameButFlash session db.sessions sessions

bind-IsStopped :
    {A B : Type 0} (m : Handler A) (f : A → Handler B) (db : Db)
    → IsStopped m db
    → IsStopped (m >>= f) db
unfolding ◌>>=◌
bind-IsStopped m f db (r, rest, e, page) = (r, rest, rw e refl, page)

-- What a read of an order can answer.
abbrev Answered : ℕ → Db → Result StoreError Order × Db → Type 0
Answered i db answer =
    (rest : List Bool) × (((e : StoreError) × (answer ≡ (err e, record db { faults = rest })))
      ⊎ ((o : Order) × (answer ≡ (ok o, record db { faults = rest }))
          × (find (has_id i) db.orders ≡ some o)))

Answered-under :
    (i : ℕ) (db : Db) (faults : List Bool) (r : Option Order)
    → find (has_id i) db.orders ≡ r
    → Answered i db (with_faults faults (λ d. or_not_found (find (has_id i) d.orders) d) db)
Answered-under i db [] none e = (db.faults, inl (not_found, rw e refl))
Answered-under i db [] (some o) e = (db.faults, inr (o, rw e refl, e))
Answered-under i db (true ∷ rest) r e = (rest, inl (failed, refl))
Answered-under i db (false ∷ rest) none e = (rest, inl (not_found, rw e refl))
Answered-under i db (false ∷ rest) (some o) e = (rest, inr (o, rw e refl, e))

get_order-cases : (i : ℕ) (db : Db) → Answered i db (get_order i db)
unfolding get_order
get_order-cases i db = Answered-under i db db.faults _ refl

admin_under :
    (user : ℕ) (db : Db) (faults : List Bool)
    → (rest : List Bool) × ((with_faults faults
            (λ d. (ok (has_role user admin_role d.user_roles), d))
            db
          ≡ (err failed, record db { faults = rest }))
        ⊎ (with_faults faults (λ d. (ok (has_role user admin_role d.user_roles), d)) db
            ≡ (ok (has_role user admin_role db.user_roles), record db { faults = rest })))
admin_under user db [] = (db.faults, inr refl)
admin_under user db (true ∷ rest) = (rest, inl refl)
admin_under user db (false ∷ rest) = (rest, inr refl)

user_has_role-cases :
    (user : ℕ) (db : Db)
    → (rest : List Bool) × ((user_has_role user admin_role db
          ≡ (err failed, record db { faults = rest }))
        ⊎ (user_has_role user admin_role db
            ≡ (ok (has_role user admin_role db.user_roles), record db { faults = rest })))
unfolding user_has_role
user_has_role-cases user db = admin_under user db db.faults

missing_page : (e : StoreError) → IsErrorPage (missing_or_error e)
missing_page not_found = inl refl
missing_page _ = inr refl

access-IsStopped :
    (user : ℕ) (i : ℕ) (db : Db)
    → IsStranger user (some i) db
    → (rest : List Bool)
    → ((e : StoreError) × (get_order i db ≡ (err e, record db { faults = rest })))
      ⊎ ((o : Order) × (get_order i db ≡ (ok o, record db { faults = rest }))
          × (find (has_id i) db.orders ≡ some o))
    → IsStopped (load_order_access user (some i)) db
unfolding load_order_access ◌>>=◌
access-IsStopped user i db h rest (inl (e, failed_read)) =
    (missing_or_error e, rest, rw failed_read refl, missing_page e)
access-IsStopped user i db h rest (inr (o, read, found)) =
    let (left, roles) = user_has_role-cases user (record db { faults = rest }) in
    elim roles [
      | inl broken ↦ (server_error, left, rw (read, broken) refl, inr refl)
      | inr answered ↦ (
        page_not_found,
        left,
        rw (read, answered, (h.1 o found).0, (h.1 o found).1, h.0) refl,
        inl refl,
      )
    ]

-- A stranger gets no access to an order.
load_order_access-IsStopped :
    (user : ℕ) (path : Option ℕ) (db : Db)
    → IsStranger user path db
    → IsStopped (load_order_access user path) db
unfolding load_order_access ◌>>=◌
load_order_access-IsStopped user none db h = (page_not_found, db.faults, refl, inl refl)
load_order_access-IsStopped user (some i) db h =
    let (rest, answer) = get_order-cases i db in access-IsStopped user i db h rest answer

-- The requests on an order, but for the user and the path.
pub data OrderRequest : Type 0 where
  message_create : Option (Bytes × Bool) → OrderRequest
  deliver : Option (Bytes × Upload) → OrderRequest
  revise : Option Bytes → OrderRequest
  accept : OrderRequest
  cancel_request : Option Bytes → OrderRequest
  cancel_resolve : Option Decision → OrderRequest
  review_create : Option (Option ℕ × Bytes) → OrderRequest
  dispute_open : Option (Bytes × Upload) → OrderRequest
  dispute_resolve : Option (Bytes × Outcome) → OrderRequest

abbrev pub handle : ℕ → Option ℕ → OrderRequest → Handler (Unit {0})
handle user path (message_create form) = order_message_create user path form
handle user path (deliver form) = order_deliver user path form
handle user path (revise form) = order_revise user path form
handle user path accept = order_accept user path
handle user path (cancel_request form) = order_cancel_request user path form
handle user path (cancel_resolve form) = order_cancel_resolve user path form
handle user path (review_create form) = order_review_create user path form
handle user path (dispute_open form) = order_dispute_open user path form
handle user path (dispute_resolve form) = order_dispute_resolve user path form

handle-IsStopped :
    (user : ℕ) (path : Option ℕ) (r : OrderRequest) (db : Db)
    → IsStranger user path db
    → IsStopped (handle user path r) db
unfolding order_message_create order_deliver order_revise order_accept order_cancel_request
    order_cancel_resolve order_review_create order_dispute_open order_dispute_resolve
handle-IsStopped user path (message_create form) db h =
    bind-IsStopped _ _ db (load_order_access-IsStopped user path db h)
handle-IsStopped user path _ db h =
    bind-IsStopped _ _ db (load_order_access-IsStopped user path db h)

flash_ignored :
    (o : Option Session) (d : Db)
    → continue {F = Response} (old_flash o) (λ _. pure tt) (λ _. pure tt) d ≡ (ok tt, d)
unfolding pure
flash_ignored none d = refl
flash_ignored (some s) d = refl

-- What the answer writes, under the faults that are left.
abbrev Rendered : Session → Db → Result Response (Unit {0}) × Db → Type 0
Rendered s db answer =
    (rest : List Bool) × (sessions : List Session) × (answer
      ≡ (ok tt, record db { faults = rest; sessions = sessions }))
    × IsSameButFlash (some s) db.sessions sessions

Rendered-under :
    (s : Session) (db : Db) (faults : List Bool)
    → db.faults ≡ faults
    → Rendered s db (render (some s) db)
unfolding render consume_flash ignore branch statement pure
Rendered-under s db [] e =
    (db.faults, _, rw e (flash_ignored (find (has_session_id s.id) db.sessions) _), inr refl)
Rendered-under s db (true ∷ rest) e = (rest, db.sessions, rw e refl, inl refl)
Rendered-under s db (false ∷ rest) e =
    (rest, _, rw e (flash_ignored (find (has_session_id s.id) db.sessions) _), inr refl)

answered :
    {A : Type 0} (session : Option Session) (m : Handler A) (db : Db)
    → IsStopped m db
    → IsRefused session m db
unfolding respond answer ◌>>=◌ render
answered none m db (r, rest, e, inl q) =
    (page_not_found, rest, db.sessions, rw (e, q) refl, inl refl, refl)
answered none m db (r, rest, e, inr q) =
    (server_error, rest, db.sessions, rw (e, q) refl, inr refl, refl)
answered (some s) m db (r, rest, e, inr q) =
    (server_error, rest, db.sessions, rw (e, q) refl, inr refl, inl refl)
answered (some s) m db (r, rest, e, inl q) =
    let (left, sessions, written, same) =
      Rendered-under s (record db { faults = rest }) rest refl in
    (page_not_found, left, sessions, rw (e, q, written) refl, inl refl, same)

-- A request on an order by a user who is neither its buyer nor its seller nor an admin is answered by a
-- 404 or a 500, whatever the form says and whatever faults the database has. No table changes, except
-- that the flash of the session that makes the request may be cleared, which the page of a 404 shows.
pub handle-IsRefused :
    (user : ℕ) (session : Option Session) (path : Option ℕ) (r : OrderRequest) (db : Db)
    → IsStranger user path db
    → IsRefused session (handle user path r) db
handle-IsRefused user session path r db h =
    answered session (handle user path r) db (handle-IsStopped user path r db h)
