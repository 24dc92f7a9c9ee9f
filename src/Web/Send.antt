-- ===== src/Web/Send.antt =====
-- controllers/email/send.go: what `Send` writes to the tables, before and behind the delivery.
pub mod Recorded
use pmail.Base.{
  ℕ, ◌+◌, Bool, true, false, Option, none, some, [], ◌∷◌, ◌++◌, ◌==◌, if◌then◌else◌, Text,
}
use pmail.NetError.{NetError}
use pmail.Smtp.Audit.{Email, Store, insert_email}
use pmail.Smtp.Audit.Outgoing.{target_status, target_error}
use pmail.Tables.{type_send, status_sent, status_fail, update_where}
use pmail.Web.Compose.{Login, Draft, Refusal, send_fail}

-- Which statements fail.
pub record Fails : Type 0 where
  pub insert_email : Bool
  pub update_email : Bool
  pub insert_relation : Bool

-- `modelEmail`, of status sent before anything is sent.
abbrev pub model_email : Login → Draft → Text → Email
model_email c d msg_id = record {
  id = 0;
  kind = type_send;
  subject = d.subject;
  from_address = d.sent_from.email_address;
  size = 0;
  spf_check = 1;
  dkim_check = 1;
  send_user_id = c.user_id;
  status = status_sent;
  error = none;
  msg_id = msg_id;
}

-- `db.Instance.Insert(&ue)`: a mail that its user has read.
unfoldable pub insert_read : Bool → ℕ → ℕ → ℕ → Store → Store
insert_read fails user_id email_id status s = if fails then s else record s {
  user_emails =
      s.user_emails
      ++ record {
        id = s.last_user_email_id + 1;
        user_id = user_id;
        email_id = email_id;
        is_read = 1;
        group_id = 0;
        status = status;
      }
        ∷ [];
  last_user_email_id = s.last_user_email_id + 1;
}

-- The update behind the delivery: its error is written, or its status alone.
unfoldable pub update_sent : Bool → ℕ → Option Text → Store → Store
update_sent true id error s = s
update_sent false id none s = record s {
  emails = update_where (λ m. m.id == id) (λ m. record m { status = status_sent }) s.emails;
}
update_sent false id (some text) s = record s {
  emails =
      update_where (λ m. m.id == id) (λ m. record m { status = status_fail; error = some text })
        s.emails;
}

-- What follows the delivery, whose error is given.
unfoldable pub finish_send : (NetError → Text) → Fails → Login → ℕ → Option NetError → Store → Store
unfolding update_sent insert_read
finish_send error_text fails c id error s =
    insert_read fails.insert_relation c.user_id id (target_status error)
      (update_sent fails.update_email id (target_error error_text error) s)

-- The answer, the tables once the delivery has ended, and how often the mail was handed to delivery.
pub record Sent : Type 0 where
  pub refusal : Option Refusal
  pub store : Store
  pub sends : ℕ

-- `Send` on a mail, as the plugins leave it.
unfoldable pub send_draft :
    (NetError → Text) → Fails → Login → Text → (Draft → Option NetError) → Draft → Store → Sent
unfolding finish_send
send_draft error_text fails c msg_id send d s =
    let s' = insert_email (model_email c d msg_id) s in
    if fails.insert_email
    then record { refusal = some send_fail; store = s; sends = 0 }
    else record {
      refusal = none;
      store = finish_send error_text fails c s'.last_email_id (send d) s';
      sends = 1;
    }
