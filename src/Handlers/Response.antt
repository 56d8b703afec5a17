-- ===== src/Handlers/Response.antt =====
-- The answers of a handler, and the calls that every order handler makes on the side: notifications
-- and the audit log (handlers/orders.go, handlers/server.go).
use gig.Base.{ℕ, Option, none, some, String}
use gig.Db.{StoreError, Action, ◌>>◌, pure, raise, catch, ignore, email_payload}
use gig.Store.Orders.{create_notification, write_audit}
use gig.Store.Jobs.{enqueue_job}

-- What stops a handler before its end: an error page, a redirect with a message for the user, or
-- one back to the requirements step of a checkout.
pub data Response : Type 0 where
  page_not_found forbidden unprocessable server_error requirements_missing : Response
  bad_request too_many_requests login_required : Response
  flash_error : String → Response

abbrev pub Handler : Type 0 → Type 0
Handler A = Action Response A

-- `if err != nil { s.renderError(w, err); return }`
abbrev pub or_render : {A : Type 0} → Action StoreError A → Handler A
or_render m = catch m (λ _. server_error)

abbrev pub notification_email_job_kind : String
notification_email_job_kind = "notification.email"

-- A failure is logged, and leaves out the email.
unfoldable pub notify : {E : Type 0} → ℕ → String → ℕ → Action E (Unit {0})
notify user kind order = ignore (do
  create_notification user kind order
  enqueue_job notification_email_job_kind (email_payload user) none 3)

unfoldable pub audit : {E : Type 0} → Option ℕ → String → ℕ → Action E (Unit {0})
audit actor action target = ignore (write_audit actor action target)

-- What may be missing: a field of a form that is not read, a random token that is not generated.
abbrev pub or_answer : {A : Type 0} → Option A → Response → Handler A
or_answer none r = raise r
or_answer (some a) r = pure a
