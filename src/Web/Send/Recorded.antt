-- ===== src/Web/Send/Recorded.antt =====
-- controllers/email/send.go: what a mail from the web API leaves in the tables.
use pmail.Base.{
  ℕ, ◌+◌, ◌≡◌, refl, true, false, Option, none, some, [], ◌∷◌, ◌++◌, ◌==◌, ==_iff, All, All-map,
  Text,
}
use pmail.NetError.{NetError}
use pmail.Smtp.Audit.{Email, Store, insert_email}
use pmail.Smtp.Audit.Outgoing.{target_status, target_error}
use pmail.Smtp.Audit.Stored.{IsValid, update_where-last, le-ne_suc}
use pmail.Tables.{UserEmail, status_sent, status_fail}
use pmail.Web.Compose.{Login, Draft}
use pmail.Web.Send.{Fails, model_email, insert_read, update_sent, finish_send, send_draft}

-- The row of a mail that was sent with such an outcome.
abbrev pub outcome_row : (NetError → Text) → Login → Draft → Text → Option NetError → ℕ → Email
outcome_row error_text c d msg_id error id = record (model_email c d msg_id) {
  id = id;
  status = target_status error;
  error = target_error error_text error;
}

abbrev pub no_failure : Fails
no_failure = record { insert_email = false; update_email = false; insert_relation = false }

==_refl : (n : ℕ) → (n == n) ≡ true
==_refl n = (==_iff n n).1 refl

module _ (error_text : NetError → Text) (c : Login) (d : Draft) (msg_id : Text) (s : Store)
    (valid : IsValid s) where
  inserted : Store
  inserted = insert_email (model_email c d msg_id) s

  read_row : ℕ → UserEmail
  read_row status = record {
    id = s.last_user_email_id + 1;
    user_id = c.user_id;
    email_id = s.last_email_id + 1;
    is_read = 1;
    group_id = 0;
    status = status;
  }

  others : All (λ m. (m.id == s.last_email_id + 1) ≡ false) s.emails
  others = All-map _ _ s.emails (λ m h. le-ne_suc m.id s.last_email_id h) valid.emails_given

  finish_send-rows :
      (o : Option NetError)
      → let t = finish_send error_text no_failure c (s.last_email_id + 1) o inserted in
        (t.emails ≡ s.emails ++ outcome_row error_text c d msg_id o (s.last_email_id + 1) ∷ [])
        × (t.user_emails ≡ s.user_emails ++ read_row (target_status o) ∷ [])
  unfolding finish_send insert_read update_sent inserted read_row
  finish_send-rows none = (
    update_where-last (λ m. m.id == s.last_email_id + 1) (λ m. record m { status = status_sent })
        s.emails _ others (==_refl (s.last_email_id + 1)),
    refl,
  )
  finish_send-rows (some e) = (
    update_where-last (λ m. m.id == s.last_email_id + 1)
        (λ m. record m { status = status_fail; error = some (error_text e) }) s.emails _ others
        (==_refl (s.last_email_id + 1)),
    refl,
  )

-- If the statements work, and the tables hold no id beyond the last that was given out, a mail is handed
-- to delivery once, and the tables gain one row for the mail, of status sent or failed after the outcome
-- and with its error, and one row for the user, of the same status; no other row changes.
pub send_draft-records :
    (error_text : NetError → Text) (c : Login) (msg_id : Text) (send : Draft → Option NetError)
    (d : Draft) (s : Store)
    → IsValid s
    → let r = send_draft error_text no_failure c msg_id send d s in
      (r.refusal ≡ none)
      × (r.sends ≡ 1)
      × (r.store.emails
          ≡ s.emails ++ outcome_row error_text c d msg_id (send d) (s.last_email_id + 1) ∷ [])
      × (r.store.user_emails
          ≡ s.user_emails
            ++ record {
              id = s.last_user_email_id + 1;
              user_id = c.user_id;
              email_id = s.last_email_id + 1;
              is_read = 1;
              group_id = 0;
              status = target_status (send d);
            }
              ∷ [])
unfolding send_draft inserted read_row
send_draft-records error_text c msg_id send d s valid =
    let rows = finish_send-rows error_text c d msg_id s valid (send d) in
    (refl, refl, rows.0, rows.1)
