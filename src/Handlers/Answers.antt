-- ===== src/Handlers/Answers.antt =====
-- What the answer of a handler of orders writes to the session: notFound and render of
-- handlers/server.go, and flashError of handlers/orders.go. The other errors are answered without a
-- page's layout. The messages of a success are left out.
use gig.Base.{Option, none, some}
use gig.Base.Text.{codes}
use gig.Db.{◌>>=◌, ◌>>◌, pure, raise, branch, ignore, Session, failure}
use gig.Store.Sessions.{consume_flash, set_flash}
use gig.Handlers.Response.{Response, Handler, page_not_found, flash_error}

-- render: the page shows the flash of the session, and clears it. An error of the call is ignored.
unfoldable pub render : Option Session → Handler (Unit {0})
render none = pure tt
render (some s) = ignore (consume_flash s.id)

unfoldable pub answer : Option Session → Response → Handler (Unit {0})
unfolding render
answer session page_not_found = render session
answer (some s) (flash_error text) =
    ignore (set_flash s.id (some record { kind = failure; text = codes text }))
answer session _ = pure tt

-- A handler with the answer to the error that it ends with.
unfoldable pub respond : {A : Type 0} → Option Session → Handler A → Handler A
unfolding answer ◌>>=◌
respond session m = branch m pure (λ r. answer session r >> raise r)
