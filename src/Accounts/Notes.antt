-- ===== src/Accounts/Notes.antt =====
-- What handlers do beside the tables that a condition is about: they read the time, answer, leave a
-- flash message and write the audit log.
use gig.Base.{ℕ, Option, none, some, String}
use gig.Base.Text.{Bytes}
use gig.Db.{Db, pure, Session, Flash, FlashKind}
use gig.Db.Keeps.{Keeps, keeps_rules}
use gig.Store.Orders.{write_audit}
use gig.Store.Sessions.{set_flash}
use gig.Handlers.Response.{Response, or_answer, audit}
use gig.Handlers.Checkout.{read_time}
use gig.Handlers.Session.{Visitor, flash_on}
use gig.Handlers.SellerWallets.{refuse}

module _ (I : Db → Type 0) where
  pub read_time-Keeps : {E : Type 0} → Keeps {E = E} I read_time
  unfolding read_time pure
  read_time-Keeps = record { at = λ db h. h }

  pub or_answer-Keeps : {A : Type 0} (o : Option A) (r : Response) → Keeps I (or_answer o r)
  or_answer-Keeps none r = search keeps_rules
  or_answer-Keeps (some a) r = search keeps_rules

  pub audit-Keeps :
      {E : Type 0} (actor : Option ℕ) (action : String) (i : ℕ)
      → Keeps I (write_audit actor action i)
      → Keeps {E = E} I (audit actor action i)
  unfolding audit
  audit-Keeps actor action i logs = search keeps_rules

  module _ (flashes : (i : ℕ) (f : Option Flash) → Keeps I (set_flash i f)) where
    pub flash_on-Keeps :
        (s : Option Session) (kind : FlashKind) (text : Bytes) → Keeps I (flash_on s kind text)
    unfolding flash_on
    flash_on-Keeps none kind text = search keeps_rules
    flash_on-Keeps (some s) kind text = search (keeps_rules, flashes)

    pub refuse-Keeps : {A : Type 0} (v : Visitor) (text : String) → Keeps {A = A} I (refuse v text)
    refuse-Keeps v text = search (keeps_rules, flash_on-Keeps)
