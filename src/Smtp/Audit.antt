-- ===== src/Smtp/Audit.antt =====
-- listen/smtp_server/audit_persistence.go: the record of a mail in the tables email and user_email,
-- before and behind its delivery. No other connection writes to the rows in between.
pub mod Relations
pub mod Stored
pub mod Outgoing
pub mod Delivered
use pmail.Base.{
  ℕ, ◌+◌, Bool, Option, none, some, List, [], ◌∷◌, ◌++◌, ◌==◌, if◌then◌else◌, Text, codes,
}
use pmail.Db.{Error, other, Attempt, Outcome, transaction}
use pmail.Smtp.Delivery.{SmtpError}
use pmail.Tables.{UserEmail, update_where, count_where}

-- The columns of `models.Email` that `saveEmail` computes from more than one value, and the subject.
pub record Email : Type 0 where
  pub id : ℕ
  pub kind : ℕ
  pub subject : Text
  pub from_address : Text
  pub size : ℕ
  pub spf_check : ℕ
  pub dkim_check : ℕ
  pub send_user_id : ℕ
  pub status : ℕ
  pub error : Option Text
  pub msg_id : Text

-- The two tables, with the last id that each has given out.
pub record Store : Type 0 where
  pub emails : List Email
  pub user_emails : List UserEmail
  pub last_email_id : ℕ
  pub last_user_email_id : ℕ

-- Which statements of one attempt fail. The relations are counted from the first.
pub record Faults : Type 0 where
  pub begin_error : Option Error
  pub commit_error : Option Error
  pub insert_email : Option Error
  pub insert_relation : ℕ → Option Error
  pub update_email : Option Error
  pub update_user_email : Option Error

-- An attempt with such statements, with a ROLLBACK that works and no other writer.
abbrev pub attempt : Faults → (Store → Option Error × Store) → Attempt Store
attempt f body = record {
  begin_error = f.begin_error;
  body = body;
  rollback_error = none;
  commit_error = f.commit_error;
  others = λ s. s;
}

-- `session.Insert(&relation)`
unfoldable pub insert_relation : ℕ → ℕ → ℕ → Store → Store
insert_relation email_id user_id status s = record s {
  user_emails =
      s.user_emails
      ++ record {
        id = s.last_user_email_id + 1;
        user_id = user_id;
        email_id = email_id;
        is_read = 0;
        group_id = 0;
        status = status;
      }
        ∷ [];
  last_user_email_id = s.last_user_email_id + 1;
}

-- The loop over `userIDs`.
unfoldable pub insert_relations : Faults → ℕ → ℕ → ℕ → List ℕ → Store → Option Error × Store
insert_relations f n email_id status [] s = (none, s)
insert_relations f n email_id status (user_id ∷ ids) s =
    let rest =
      insert_relations f (n + 1) email_id status ids (insert_relation email_id user_id status s) in
    elim (f.insert_relation n) [ some e ↦ (some e, s) | none ↦ rest ]

-- `session.Insert(&candidate)`, which gives the candidate its id.
abbrev pub insert_email : Email → Store → Store
insert_email m s = record s {
  emails = s.emails ++ record m { id = s.last_email_id + 1 } ∷ [];
  last_email_id = s.last_email_id + 1;
}

-- The callback of `persistInitialAudit`. The table's ids start at 1, so no insert returns an id that
-- is not positive.
unfoldable pub initial_audit : Email → List ℕ → Faults → Store → Option Error × Store
unfolding insert_relations
initial_audit m user_ids f s = elim f.insert_email [
  | some e ↦ (some e, s)
  | none ↦ insert_relations f 0 (s.last_email_id + 1) m.status user_ids (insert_email m s)
]

module _ (is_sqlite : Bool) where
  -- `persistInitialAudit`: the error, and the tables. Without an error the saved mail is the one with
  -- the last id.
  unfoldable pub persist_initial_audit : (ℕ → Faults) → Email → List ℕ → Store → Outcome Store
  persist_initial_audit faults m user_ids s =
      transaction is_sqlite (λ k. attempt (faults k) (initial_audit m user_ids (faults k))) s

-- `requireOneAffected`
unfoldable pub require_one_affected : ℕ → Text → Option Error
require_one_affected affected operation = if affected == 1 then none else some (other operation)

-- The callback of `persistDeliveryResult`.
unfoldable pub delivery_result : ℕ → ℕ → Option Text → Faults → Store → Option Error × Store
unfolding require_one_affected
delivery_result email_id status error_text f s = elim f.update_email [
  | some e ↦ (some e, s)
  | none ↦
      let s' = record s {
        emails =
            update_where (λ m. m.id == email_id)
              (λ m. record m { status = status; error = error_text }) s.emails;
      } in
      elim (require_one_affected (count_where (λ m. m.id == email_id) s.emails)
        (codes "update email delivery result")) [
          | some e ↦ (some e, s')
          | none ↦ elim f.update_user_email [
            | some e ↦ (some e, s')
            | none ↦ (
              require_one_affected (count_where (λ r. r.email_id == email_id) s.user_emails)
                  (codes "update user_email delivery result"),
              record s' {
                user_emails =
                    update_where (λ r. r.email_id == email_id) (λ r. record r { status = status })
                      s.user_emails;
              },
            )
          ]
        ]
]

module _ (is_sqlite : Bool) where
  -- `persistDeliveryResult`
  unfoldable pub persist_delivery_result :
      (ℕ → Faults) → ℕ → ℕ → Option Text → Store → Outcome Store
  persist_delivery_result faults email_id status error_text s =
      transaction is_sqlite
        (λ k. attempt (faults k) (delivery_result email_id status error_text (faults k))) s

-- `localPersistenceSMTPError`
abbrev pub local_persistence_smtp_error : SmtpError
local_persistence_smtp_error = record {
  code = 451;
  enhanced_code = (4, 3, 0);
  message = codes "Temporary local persistence failure";
}
