-- ===== src/Smtp/Audit/Delivered.antt =====
-- What a client is told about a submission, and what the tables say of it.
use pmail.Base.{
  ℕ, ◌≡◌, refl, ◌≢◌, ◌⊎◌, inl, inr, Bool, Option, none, some, [], ◌∷◌, Option-cases, Text,
}
use pmail.NetError.{NetError}
use pmail.Db.{Outcome}
use pmail.Smtp.Audit.{
  Email, Store, Faults, persist_initial_audit, persist_delivery_result,
  local_persistence_smtp_error,
}
use pmail.Smtp.Audit.Outgoing.{
  Submitted, pending, delivery_pending_error, target_status, target_error, deliver_outgoing_email,
}
use pmail.Smtp.Audit.Stored.{
  recorded, IsValid, persist_initial_audit-recorded, persist_delivery_result-recorded,
}
use pmail.Smtp.Delivery.{DomainErrors, downstream_delivery_smtp_error}
use pmail.Tables.{status_delivery_pending}

module _ (error_text : NetError → Text) (m : Email) (user_id : ℕ) (s : Store) where
  -- Nothing was recorded and nothing sent, and the client is told to try again.
  pub record NotTaken (r : Submitted) : Type 0 where
    pub reply : r.reply ≡ some local_persistence_smtp_error
    pub store : r.store ≡ s
    pub sends : r.sends ≡ 0

  -- The mail was recorded, then sent once; the reply is that of the delivery, and the tables show
  -- its result, or that it is still open.
  pub record Taken (outcome : Option NetError × DomainErrors) (r : Submitted) : Type 0 where
    pub reply : r.reply ≡ downstream_delivery_smtp_error error_text outcome.0 outcome.1
    pub store :
        (r.store
          ≡ recorded m user_id (target_status outcome.0) (target_error error_text outcome.0) s)
        ⊎ (r.store ≡ recorded m user_id status_delivery_pending (some delivery_pending_error) s)
    pub sends : r.sends ≡ 1

  -- Whichever statements and COMMITs fail, in tables where no row refers to an id beyond the last
  -- given out, with working ROLLBACKs and no other writer: a mail is sent only if its record is in
  -- the tables, and then once; the client's reply never says more or less than the delivery's own
  -- result; and the mail and its relation never show "sent" for a delivery that failed, nor
  -- "failed" for one that succeeded.
  pub deliver_outgoing_email-Taken :
      (is_sqlite : Bool) (first_faults last_faults : ℕ → Faults)
      (outcome : Option NetError × DomainErrors)
      → IsValid s
      → let r =
          deliver_outgoing_email error_text is_sqlite first_faults last_faults m user_id outcome
            s in
        NotTaken r ⊎ Taken outcome r
  unfolding deliver_outgoing_email
  deliver_outgoing_email-Taken is_sqlite first_faults last_faults outcome valid =
      go (persist_initial_audit is_sqlite first_faults (pending m) (user_id ∷ []) s)
        (persist_initial_audit-recorded is_sqlite first_faults (pending m) user_id s)
    where
      go :
          (saved : Outcome Store)
          → ((saved.error ≡ none)
              × (saved.state
                  ≡ recorded m user_id status_delivery_pending (some delivery_pending_error) s))
            ⊎ ((saved.error ≢ none) × (saved.state ≡ s))
          → let r : Submitted = elim saved.error [
            | some e ↦ record {
              reply = some local_persistence_smtp_error;
              store = saved.state;
              sends = 0;
            }
            | none ↦ record {
              reply = downstream_delivery_smtp_error error_text outcome.0 outcome.1;
              store =
                  (persist_delivery_result is_sqlite last_faults saved.state.last_email_id
                    (target_status outcome.0)
                    (target_error error_text outcome.0)
                    saved.state).state;
              sends = 1;
            }
          ] in
            NotTaken r ⊎ Taken outcome r
      go saved (inl (ok, e)) =
          rw (ok, e)
            (inr (record {
              reply = refl;
              store =
                  elim (persist_delivery_result-recorded m user_id status_delivery_pending
                    (some delivery_pending_error) s valid is_sqlite last_faults
                    (target_status outcome.0) (target_error error_text outcome.0)) [
                      | inl d ↦ inl d.1
                      | inr d ↦ inr d.1
                    ];
              sends = refl;
            }))
      go saved (inr (bad, e)) = elim (Option-cases saved.error) [
        | inl ok ↦ absurd (bad ok)
        | inr (x, failed) ↦ rw failed (inl (record { reply = refl; store = e; sends = refl }))
      ]
