-- ===== src/Smtp/Audit/Outgoing.antt =====
-- listen/smtp_server/audit_persistence.go: `deliverOutgoingEmail`. `sender` is what delivery
-- answers: its error, and the errors by domain.

use pmail.Base.{ℕ, Bool, Option, none, some, [], ◌∷◌, Text, codes}
use pmail.NetError.{NetError}
use pmail.Smtp.Audit.{
  Email, Store, Faults, persist_initial_audit, persist_delivery_result,
  local_persistence_smtp_error,
}
use pmail.Smtp.Delivery.{DomainErrors, SmtpError, downstream_delivery_smtp_error}
use pmail.Tables.{status_sent, status_fail, status_delivery_pending}

-- What a submission ends with: the reply, the tables, and how often the mail was handed to delivery.
pub record Submitted : Type 0 where
  pub reply : Option SmtpError
  pub store : Store
  pub sends : ℕ

abbrev pub delivery_pending_error : Text
delivery_pending_error = codes "delivery result pending; outcome unknown after interruption"

-- The branch of `saveEmail` for outgoing mail.
abbrev pub pending : Email → Email
pending m = record m { status = status_delivery_pending; error = some delivery_pending_error }

-- `targetStatus` and `errorText`
abbrev pub target_status : Option NetError → ℕ
target_status none = status_sent
target_status (some e) = status_fail

module _ (error_text : NetError → Text) where
  abbrev pub target_error : Option NetError → Option Text
  target_error none = none
  target_error (some e) = some (error_text e)

  -- `deliverOutgoingEmail`, for the mail `m` of the user `user_id`
  unfoldable pub deliver_outgoing_email :
      Bool
      → (ℕ → Faults)
      → (ℕ → Faults)
      → Email
      → ℕ
      → Option NetError × DomainErrors
      → Store
      → Submitted
  deliver_outgoing_email is_sqlite first_faults last_faults m user_id (delivery_err, domain_errors)
        s =
      let saved = persist_initial_audit is_sqlite first_faults (pending m) (user_id ∷ []) s in
      let result =
        persist_delivery_result is_sqlite last_faults saved.state.last_email_id
          (target_status delivery_err) (target_error delivery_err) saved.state in
      elim saved.error [
        | some e ↦ record {
          reply = some local_persistence_smtp_error;
          store = saved.state;
          sends = 0;
        }
        | none ↦ record {
          reply = downstream_delivery_smtp_error error_text delivery_err domain_errors;
          store = result.state;
          sends = 1;
        }
      ]
