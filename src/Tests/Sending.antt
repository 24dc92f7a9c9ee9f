-- ===== src/Tests/Sending.antt =====
-- Witnesses for db/retry.go and listen/smtp_server.
use pmail.Base.{
  ◌≡◌, refl, ◌⊎◌, true, List, [], ◌∷◌, arith, All, codes, text_eq, trim_space, trim_set, to_lower,
  equal_fold, ascii,
}
use pmail.Base.Int.{pos}
use pmail.Db.{transaction_with_retry, at_least_one}
use pmail.Db.Calls.{transaction_with_retry-Settles}
use pmail.Db.Retry.{Settles}
use pmail.Smtp.Audit.Delivered.{NotTaken, Taken, deliver_outgoing_email-Taken}
use pmail.Smtp.Audit.Outgoing.{deliver_outgoing_email}
use pmail.Smtp.Audit.Stored.{IsValid}
use pmail.Smtp.Delivery.{DomainErrors}
use pmail.Smtp.Session.{
  new_session, cut_last_at, split_smtp_address, is_local_domain, is_known, mail, rcpt_split, rcpt,
}
use pmail.Smtp.Session.Relay.{
  Command, mail_command, rcpt_command, run, IsLocal, Answers, rcpt-Answers, run-NoOpenRelay,
}
use pmail.Tests.Data.{
  same_text, net_text, domains, directory, stored_mail, store, busy_once, counting, gone,
}

transaction_with_retry-Settles_example :
    Settles true counting 10 1
      (at_least_one (pos 3))
      4
      (transaction_with_retry true (pos 3) 10 counting 4)
transaction_with_retry-Settles_example =
    transaction_with_retry-Settles true counting (pos 3) 10 4 (λ k. refl)

store-IsValid : IsValid store
store-IsValid = record { emails_given = (ground arith, tt); relations_given = (ground arith, tt) }

abbrev refusals : DomainErrors
refusals = (codes "x.org", gone) ∷ (codes "y.org", gone) ∷ []

deliver_outgoing_email-Taken_example :
    let r =
      deliver_outgoing_email net_text true busy_once busy_once stored_mail 7
        (gone, refusals)
        store in
    NotTaken net_text stored_mail 7 store r ⊎ Taken net_text stored_mail 7 store (gone, refusals) r
deliver_outgoing_email-Taken_example =
    deliver_outgoing_email-Taken net_text stored_mail 7 store true busy_once busy_once
      (gone, refusals) store-IsValid

abbrev visit : List Command
visit =
    mail_command (codes "a@b.c")
    ∷ rcpt_command directory (codes "<bob@PM.org>")
    ∷ rcpt_command directory (codes "x@else.org")
    ∷ []

visit-visitor : (run ascii same_text same_text domains visit new_session).user_id ≡ 0
unfolding rcpt rcpt_split split_smtp_address cut_last_at mail trim_space trim_set to_lower
    is_local_domain equal_fold is_known text_eq
visit-visitor = refl

run-NoOpenRelay_example :
    All
      (IsLocal ascii same_text same_text domains)
      (run ascii same_text same_text domains visit new_session).to
run-NoOpenRelay_example = run-NoOpenRelay ascii same_text same_text domains visit visit-visitor

rcpt-Answers_example :
    Answers ascii same_text same_text domains directory
      (codes "<bob@PM.org>")
      new_session
      (split_smtp_address ascii (codes "<bob@PM.org>"))
      (rcpt ascii same_text same_text domains directory (codes "<bob@PM.org>") new_session)
rcpt-Answers_example =
    rcpt-Answers ascii same_text same_text domains directory (codes "<bob@PM.org>") new_session
